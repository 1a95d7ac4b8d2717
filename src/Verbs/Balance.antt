-- ===== src/Verbs/Balance.antt =====
-- What a verb takes from the bankroll goes to the bets, and what it takes down comes back, where amounts are whole.
use crapssim_control.Prelude.{
  arith, String, Bool, true, false, not, ◌&&◌, ◌≡◌, ◌∙◌, refl, inl, inr, none, List, [], ◌∷◌,
  if◌then◌else◌, Bool-cases, str_eq,
}
use crapssim_control.Prelude.Int.{ℤ, pos, ◌+ℤ◌, ltb_ℤ, same, int_laws}
use crapssim_control.Prelude.Dict.{Dict, lookup, insert, lookup-insert, String_Eq}
use crapssim_control.Verbs.Args.{Args, amt, halves, whole}
use crapssim_control.Verbs.Whole.{IsWhole, whole_exact}
use crapssim_control.Verbs.Handlers.{
  Table, Effect, VerbOutcome, effect, failed, minus, verb_line_bet, verb_come_bet,
  verb_dont_come_bet, verb_set_odds, verb_take_odds, verb_field_bet, verb_hardway_bet, take_down,
  verb_remove_line, verb_remove_come, verb_remove_dont_come, line_targets, point_targets,
  come_amount, amount_at, remove_all, Verb, line_bet, come_bet, dont_come_bet, set_odds, take_odds,
  field_bet, hardway_bet, remove_line, remove_come, remove_dont_come, handle,
}

-- The changes of all bets together
unfoldable pub total_change : Dict String ℤ → ℤ
total_change [] = pos 0
total_change ((key, change) ∷ d) = change +ℤ total_change d

abbrev pub Balances : VerbOutcome → Type 0
Balances (effect e) = halves (total_change e.bets) +ℤ e.bankroll_delta ≡ pos 0
Balances (failed error) = Unit

insert_later :
    (k j : String) (v w : ℤ) (d : Dict String ℤ)
    → str_eq j k ≡ false
    → insert k v ((j, w) ∷ d) ≡ (j, w) ∷ insert k v d
unfolding insert
insert_later k j v w d e = rw e refl

total_change_later :
    (j : String) (w v : ℤ) (c d : Dict String ℤ)
    → total_change c ≡ total_change d +ℤ v
    → total_change ((j, w) ∷ c) ≡ total_change ((j, w) ∷ d) +ℤ v
unfolding total_change
total_change_later j w v c d h = rw h (omega int_laws)

pub total_change-insert :
    (k : String) (v : ℤ) (d : Dict String ℤ)
    → lookup k d ≡ none
    → total_change (insert k v d) ≡ total_change d +ℤ v
unfolding total_change insert lookup
total_change-insert k v [] h = omega int_laws
total_change-insert k v ((j, w) ∷ d) h = elim (Bool-cases (str_eq j k)) [
  | inl e ↦ ground (arith, rw (e, lookup) at h)
  | inr e ↦
      rw (insert_later k j v w d e) (
        total_change_later j w v (insert k v d) d (total_change-insert k v d (rw (e, lookup) at h)))
]

-- No bet of the list is of this key.
abbrev absent : String → List (String × ℤ) → Bool
absent k [] = true
absent k ((j, v) ∷ targets) = not (str_eq k j) && absent k targets

abbrev distinct : List (String × ℤ) → Bool
distinct [] = true
distinct ((k, v) ∷ targets) = absent k targets && distinct targets

-- None of the bets is in the dict.
abbrev AreNew : List (String × ℤ) → Dict String ℤ → Type 0
AreNew [] d = Unit
AreNew ((k, v) ∷ targets) d = (lookup k d ≡ none) × AreNew targets d

insert-AreNew :
    (k : String) (v : ℤ) (targets : List (String × ℤ)) (d : Dict String ℤ)
    → absent k targets ≡ true
    → AreNew targets d
    → AreNew targets (insert k v d)
insert-AreNew k v [] d a h = tt
insert-AreNew k v ((j, w) ∷ targets) d a (n, h) =
    let apart : str_eq k j ≡ false = ground (arith, a) in
    let more : absent k targets ≡ true = ground (arith, a) in
    (lookup-insert k j v d ∙ rw apart n, insert-AreNew k v targets d more h)

-- The amounts of the bets are whole.
abbrev pub AllWhole : List (String × ℤ) → Type 0
AllWhole [] = Unit
AllWhole ((k, v) ∷ targets) = IsWhole v × AllWhole targets

total_change-take_down :
    (targets : List (String × ℤ)) (bets : Dict String ℤ) (refund : ℤ)
    → distinct targets ≡ true
    → AreNew targets bets
    → AllWhole targets
    → let (after, back) = take_down targets bets refund in
      halves (total_change after) +ℤ back ≡ halves (total_change bets) +ℤ refund
unfolding take_down
total_change-take_down [] bets refund d h w = refl
total_change-take_down ((k, cur) ∷ targets) bets refund d (n, h) (one_whole, w) =
    let one : absent k targets ≡ true = ground (arith, d) in
    let more : distinct targets ≡ true = ground (arith, d) in
    let new = insert k (minus (whole cur)) bets in
    elim (Bool-cases (ltb_ℤ (pos 0) cur)) [
      | inl e ↦
          rw (e, take_down)
            (total_change-take_down targets new (refund +ℤ cur) more
                (insert-AreNew k (minus (whole cur)) targets bets one h) w
              ∙ rw (total_change-insert k (minus (whole cur)) bets n)
                  (omega (int_laws, same _ _ (whole_exact cur one_whole))))
      | inr e ↦ rw (e, take_down) (total_change-take_down targets bets refund more h w)
    ]

AreNew-empty : (targets : List (String × ℤ)) → AreNew targets []
unfolding lookup
AreNew-empty [] = tt
AreNew-empty (t ∷ targets) = (refl, AreNew-empty targets)

remove_all-Balances :
    (verb : String) (targets : List (String × ℤ))
    → distinct targets ≡ true
    → AllWhole targets
    → Balances (remove_all verb targets)
unfolding ◌+ℤ◌ total_change
remove_all-Balances verb targets d w =
    total_change-take_down targets [] (pos 0) d (AreNew-empty targets) w

guarded :
    (b : Bool) (error : String) (e : Effect)
    → Balances (effect e)
    → Balances (if b then failed error else effect e)
guarded true error e h = tt
guarded false error e h = h

put_up : (a : ℤ) → IsWhole a → halves (whole a +ℤ pos 0) +ℤ minus a ≡ pos 0
put_up a w = omega (int_laws, same _ _ (whole_exact a w))

brought_down : (a : ℤ) → IsWhole a → halves (minus (whole a) +ℤ pos 0) +ℤ a ≡ pos 0
brought_down a w = omega (int_laws, same _ _ (whole_exact a w))

abbrev pub come_targets : Table → List (String × ℤ)
come_targets s = point_targets (come_amount s) (λ p. amount_at p s.come_odds) "odds_come_"

abbrev pub dont_come_targets : Table → List (String × ℤ)
dont_come_targets s =
    point_targets (λ p. amount_at p s.dc_flat) (λ p. amount_at p s.dc_odds) "odds_dc_"

-- The amount of a verb is whole, and for a removing verb those of the bets that it takes down.
abbrev pub InWholes : Verb → Table → Args → Type 0
InWholes remove_line s args = AllWhole (line_targets s)
InWholes remove_come s args = AllWhole (come_targets s)
InWholes remove_dont_come s args = AllWhole (dont_come_targets s)
InWholes _ s args = IsWhole (amt args)

-- Where the amount of a verb is whole, or for a removing verb the amounts of the bets that it takes down, every verb
-- that has an effect moves money and makes none: the change of the bankroll and the changes of the bets are zero
-- together.
pub handle-Balances :
    (v : Verb) (s : Table) (args : Args) → InWholes v s args → Balances (handle v s args)
unfolding handle verb_line_bet verb_come_bet verb_dont_come_bet verb_set_odds verb_take_odds
    verb_field_bet verb_hardway_bet verb_remove_line verb_remove_come verb_remove_dont_come
    total_change
handle-Balances line_bet s args w = guarded _ _ _ (put_up (amt args) w)
handle-Balances come_bet s args w = guarded _ _ _ (put_up (amt args) w)
handle-Balances dont_come_bet s args w = guarded _ _ _ (put_up (amt args) w)
handle-Balances set_odds s args w = guarded _ _ _ (put_up (amt args) w)
handle-Balances take_odds s args w = guarded _ _ _ (brought_down (amt args) w)
handle-Balances field_bet s args w = guarded _ _ _ (put_up (amt args) w)
handle-Balances hardway_bet s args w = guarded _ _ _ (put_up (amt args) w)
handle-Balances remove_line s args w = remove_all-Balances "remove_line" (line_targets s) refl w
handle-Balances remove_come s args w = remove_all-Balances "remove_come" (come_targets s) refl w
handle-Balances remove_dont_come s args w =
    remove_all-Balances "remove_dont_come" (dont_come_targets s) refl w
