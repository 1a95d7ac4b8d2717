-- ===== src/Templates/Reconcile.antt =====
-- What carrying out the actions of a plan does to the bets.
use crapssim_control.Prelude.{
  arith, String, true, false, Option, none, some, List, [], ◌∷◌, ◌++◌, map, ◌≡◌, ◌∙◌, refl, ap, inl,
  inr, if◌then◌else◌, Bool-cases, Option-cases, str_eq, eq_iff,
}
use crapssim_control.Prelude.Text.{lower}
use crapssim_control.Prelude.Int.{ℤ}
use crapssim_control.Prelude.Dict.{Dict, lookup, insert, lookup-insert, String_Eq}
use crapssim_control.Templates.Envelope.{Action, make_action}
use crapssim_control.Templates.Diff.{Desired, Provenance, plan_action, clear_action, set_action}
use crapssim_control.Templates.Lookups.{Unique}

-- What an action does to the bets that are up: a clear takes the bet away, and a set puts it at its amount.
unfoldable pub without : String → Dict String ℤ → Dict String ℤ
without k [] = []
without k ((j, v) ∷ d) = let rest = without k d in if str_eq j k then rest else (j, v) ∷ rest

abbrev pub carry_named : String → String → Option ℤ → Dict String ℤ → Dict String ℤ
carry_named action k amount d =
    if str_eq action "clear"
    then without k d
    else if str_eq action "set"
    then elim amount [ none ↦ d | some n ↦ insert k n d ]
    else d

abbrev pub carry : Action → Dict String ℤ → Dict String ℤ
carry a d = elim a.bet_type [ none ↦ d | some k ↦ carry_named a.action k a.amount d ]

unfoldable pub carry_out : List Action → Dict String ℤ → Dict String ℤ
carry_out [] d = d
carry_out (a ∷ actions) d = carry_out actions (carry a d)

pub carry_out-append :
    (first later : List Action) (d : Dict String ℤ)
    → carry_out (first ++ later) d ≡ carry_out later (carry_out first d)
unfolding carry_out
carry_out-append [] later d = refl
carry_out-append (a ∷ first) later d = carry_out-append first later (carry a d)

lookup-without :
    (k j : String) (d : Dict String ℤ)
    → lookup j (without k d) ≡ (if str_eq k j then none else lookup j d)
unfolding lookup without
lookup-without k j [] = ground arith
lookup-without k j ((i, v) ∷ d) =
    ground (arith, lookup-without k j d, eq_iff i k, eq_iff i j, eq_iff k j)

named_clear :
    (p : Provenance) (k : String) (cur : ℤ) (d : Dict String ℤ)
    → str_eq k "" ≡ false
    → carry (clear_action p (k, cur)) d ≡ without k d
unfolding clear_action plan_action make_action lower
named_clear p k cur d e = elim (Option-cases p.source) [
  | inl f ↦ rw f refl
  | inr (source, f) ↦ rw (f, e) refl
]

unnamed_clear :
    (p : Provenance) (k : String) (cur : ℤ) (j : String) (d : Dict String ℤ)
    → str_eq k "" ≡ true
    → str_eq j "" ≡ false
    → lookup j (carry (clear_action p (k, cur)) d) ≡ lookup j d
unfolding clear_action plan_action make_action lower
unnamed_clear p k cur j d e n =
    let apart : str_eq k j ≡ false = ground (arith, e, n, eq_iff k "", eq_iff j "", eq_iff k j) in
    elim (Option-cases p.source) [
      | inl f ↦ rw f (lookup-without k j d ∙ rw apart refl)
      | inr (source, f) ↦ rw (f, e) refl
    ]

lookup-carry_clear :
    (p : Provenance) (k : String) (cur : ℤ) (j : String) (d : Dict String ℤ)
    → str_eq j "" ≡ false
    → lookup j (carry (clear_action p (k, cur)) d) ≡ (if str_eq k j then none else lookup j d)
lookup-carry_clear p k cur j d n = elim (Bool-cases (str_eq k "")) [
  | inl e ↦
      let apart : str_eq k j ≡ false = ground (arith, e, n, eq_iff k "", eq_iff j "", eq_iff k j) in
      unnamed_clear p k cur j d e n ∙ rw apart refl
  | inr e ↦ ap (lookup j) (named_clear p k cur d e) ∙ lookup-without k j d
]

named_set :
    (p : Provenance) (k : String) (x : Desired) (d : Dict String ℤ)
    → str_eq k "" ≡ false
    → carry (set_action p (k, x)) d ≡ insert k x.amount d
unfolding set_action plan_action make_action lower
named_set p k x d e = elim (Option-cases p.source) [
  | inl f ↦ rw f refl
  | inr (source, f) ↦ rw (f, e) refl
]

unnamed_set :
    (p : Provenance) (k : String) (x : Desired) (j : String) (d : Dict String ℤ)
    → str_eq k "" ≡ true
    → str_eq j "" ≡ false
    → lookup j (carry (set_action p (k, x)) d) ≡ lookup j d
unfolding set_action plan_action make_action lower
unnamed_set p k x j d e n =
    let apart : str_eq k j ≡ false = ground (arith, e, n, eq_iff k "", eq_iff j "", eq_iff k j) in
    elim (Option-cases p.source) [
      | inl f ↦ rw f (lookup-insert k j x.amount d ∙ rw apart refl)
      | inr (source, f) ↦ rw (f, e) refl
    ]

lookup-carry_set :
    (p : Provenance) (k : String) (x : Desired) (j : String) (d : Dict String ℤ)
    → str_eq j "" ≡ false
    → lookup j (carry (set_action p (k, x)) d) ≡ (if str_eq k j then some x.amount else lookup j d)
lookup-carry_set p k x j d n = elim (Bool-cases (str_eq k "")) [
  | inl e ↦
      let apart : str_eq k j ≡ false = ground (arith, e, n, eq_iff k "", eq_iff j "", eq_iff k j) in
      unnamed_set p k x j d e n ∙ rw apart refl
  | inr e ↦ ap (lookup j) (named_set p k x d e) ∙ lookup-insert k j x.amount d
]

abbrev pub if_none : Option ℤ → Option ℤ → Option ℤ
if_none none other = other
if_none (some v) other = none

pub carry_clears :
    (p : Provenance) (cs : Dict String ℤ) (j : String) (d : Dict String ℤ)
    → str_eq j "" ≡ false
    → lookup j (carry_out (map (clear_action p) cs) d) ≡ if_none (lookup j cs) (lookup j d)
unfolding carry_out lookup
carry_clears p [] j d n = refl
carry_clears p ((k, cur) ∷ cs) j d n =
    let after = carry (clear_action p (k, cur)) d in
    let one = lookup-carry_clear p k cur j d n in
    carry_clears p cs j after n
    ∙ ap (if_none (lookup j cs)) one
    ∙ elim (Bool-cases (str_eq k j)) [ inl e ↦ rw e (ground arith) | inr e ↦ rw e refl ]

abbrev pub amount_or : Option Desired → Option ℤ → Option ℤ
amount_or none other = other
amount_or (some x) other = some x.amount

pub carry_sets :
    (p : Provenance) (sets : Dict String Desired) (j : String) (d : Dict String ℤ)
    → Unique sets
    → str_eq j "" ≡ false
    → lookup j (carry_out (map (set_action p) sets) d) ≡ amount_or (lookup j sets) (lookup j d)
unfolding carry_out lookup
carry_sets p [] j d u n = refl
carry_sets p ((k, x) ∷ sets) j d (once, u) n =
    let after = carry (set_action p (k, x)) d in
    let one = lookup-carry_set p k x j d n in
    carry_sets p sets j after u n
    ∙ ap (amount_or (lookup j sets)) one
    ∙ elim (Bool-cases (str_eq k j)) [
      | inl e ↦
          let here : k ≡ j = (eq_iff k j).0 e in
          let last : lookup j sets ≡ none = rw here at once in rw (e, last) refl
      | inr e ↦ rw e refl
    ]
