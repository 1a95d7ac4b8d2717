-- ===== src/Templates/Settled.antt =====
-- When there is a plan, and the bets after it.
use crapssim_control.Prelude.{
  arith, String, true, false, ◌||◌, is_some, List, Option, none, some, [], ◌∷◌, ◌++◌, map, ◌≡◌, ◌∙◌,
  refl, ap, inl, inr, sym, if◌then◌else◌, Bool-cases, Option-cases, default_to, str_eq, eq_refl,
}
use crapssim_control.Prelude.Int.{ℤ, pos, ltb_ℤ, eq_of_parts}
use crapssim_control.Prelude.Dict.{Dict, lookup, String_Eq}
use crapssim_control.Templates.Envelope.{Action}
use crapssim_control.Templates.Diff.{
  Desired, Provenance, nothing, wanted, is_cleared, is_changed, clears_of, updates_of, creations_of,
  sort_keys, clear_action, set_action, unsortable, diff_bets,
}
use crapssim_control.Templates.Lookups.{
  Unique, kept, lookup-sort_keys, sort_keys-Unique, lookup-choose, choose-Unique,
}
use crapssim_control.Templates.Reconcile.{
  carry_out, carry_out-append, if_none, carry_clears, amount_or, carry_sets,
}

abbrev first_of : Option Desired → Option Desired → Option Desired
first_of none b = b
first_of (some a) b = some a

lookup-append :
    (j : String) (a b : Dict String Desired)
    → lookup j (a ++ b) ≡ first_of (lookup j a) (lookup j b)
unfolding lookup
lookup-append j [] b = refl
lookup-append j ((k, x) ∷ a) b = elim (Bool-cases (str_eq k j)) [
  | inl e ↦ rw e refl
  | inr e ↦ rw (e, lookup) (lookup-append j a b)
]

append-Unique :
    (a b : Dict String Desired)
    → Unique a
    → Unique b
    → ((j : String) (x : Desired) → lookup j a ≡ some x → lookup j b ≡ none)
    → Unique (a ++ b)
unfolding lookup
append-Unique [] b u v h = v
append-Unique ((k, x) ∷ a) b (n, u) v h =
    let head : lookup k b ≡ none = h k x (rw eq_refl refl) in
    let tail : (j : String) (y : Desired) → lookup j a ≡ some y → lookup j b ≡ none = λ j y e.
      elim (Bool-cases (str_eq k j)) [
        | inl f ↦ h j x (rw f refl)
        | inr f ↦ h j y (rw (f, lookup) e)
      ] in
    (lookup-append k a b ∙ rw n head, append-Unique a b u v tail)

-- The bets that are desired, where an amount of zero or less desires none.
abbrev pub desired_amount : Dict String Desired → String → Option ℤ
desired_amount desired j =
    let d = wanted j desired in if ltb_ℤ (pos 0) d.amount then some d.amount else none

-- A plan settles the bets that have a name, and there is none only for envelopes where some bet has no name.
abbrev pub Settles :
    Dict String ℤ → Dict String Desired → Provenance → Option (List Action) → Type 0
Settles current desired p none =
    (is_some p.source ≡ true)
    × ((is_some (lookup "" current) || is_some (lookup "" desired)) ≡ true)
Settles current desired p (some actions) =
    (j : String)
    → str_eq j "" ≡ false
    → lookup j (carry_out actions current) ≡ desired_amount desired j

module _ (current : Dict String ℤ) (desired : Dict String Desired) (u : Unique current)
    (v : Unique desired) where
  sets : Dict String Desired
  sets = updates_of desired current ++ creations_of current desired

  -- The set of a bet, by what is up and what is desired.
  abbrev set_for : Option ℤ → Option Desired → Option Desired
  set_for none none = none
  set_for none (some d) = if ltb_ℤ (pos 0) d.amount then some d else none
  set_for (some cur) d =
      let w = default_to nothing d in if is_changed cur w.amount then some w else none

  lookup-sets : (j : String) → lookup j sets ≡ set_for (lookup j current) (lookup j desired)
  unfolding sets updates_of creations_of
  lookup-sets j =
      lookup-append j (updates_of desired current) (creations_of current desired)
      ∙ rw (lookup-choose _ _ j current u, lookup-choose _ _ j desired v)
          (elim (Option-cases (lookup j current)) [
            | inl e ↦ elim (Option-cases (lookup j desired)) [
              | inl f ↦ rw (e, f) refl
              | inr (d, f) ↦ rw (e, f) (ground arith)
            ]
            | inr (cur, e) ↦ elim (Option-cases (lookup j desired)) [
              | inl f ↦ rw (e, f) (ground arith)
              | inr (d, f) ↦ rw (e, f) (ground arith)
            ]
          ])

  updates_apart :
      (j : String) (x : Desired)
      → lookup j (updates_of desired current) ≡ some x
      → lookup j (creations_of current desired) ≡ none
  unfolding updates_of creations_of
  updates_apart j x e = elim (Option-cases (lookup j current)) [
    | inl f ↦
        let absent = lookup-choose _ _ j current u in
        let never : none ≡ some x = sym (absent ∙ rw f refl) ∙ e in ground (arith, never)
    | inr (cur, f) ↦ lookup-choose _ _ j desired v ∙ elim (Option-cases (lookup j desired)) [
      | inl g ↦ rw g refl
      | inr (d, g) ↦ rw (f, g) (ground arith)
    ]
  ]

  sets-Unique : Unique sets
  unfolding sets updates_of creations_of
  sets-Unique =
      append-Unique (updates_of desired current) (creations_of current desired)
        (choose-Unique _ _ current u) (choose-Unique _ _ desired v) updates_apart

  cleared :
      (j : String)
      → lookup j (clears_of desired current)
        ≡ kept (λ cur. is_cleared cur (wanted j desired).amount) (λ cur. cur) (lookup j current)
  unfolding clears_of
  cleared j = lookup-choose _ _ j current u

  settled :
      (j : String)
      → amount_or (set_for (lookup j current) (lookup j desired)) (
          if_none
            (kept (λ cur. is_cleared cur (wanted j desired).amount) (λ cur. cur) (lookup j current))
            (lookup j current))
        ≡ desired_amount desired j
  settled j = elim (Option-cases (lookup j current)) [
    | inl e ↦ elim (Option-cases (lookup j desired)) [
      | inl f ↦ rw (e, f) refl
      | inr (d, f) ↦ rw (e, f) (ground arith)
    ]
    | inr (cur, e) ↦ elim (Option-cases (lookup j desired)) [
      | inl f ↦ rw (e, f) (ground arith)
      | inr (d, f) ↦ rw (e, f) (ground (arith, eq_of_parts d.amount cur))
    ]
  ]

  plan : Provenance → List Action
  unfolding sets
  plan p =
      map (clear_action p) (sort_keys (clears_of desired current))
      ++ map (set_action p) (sort_keys sets)

  lookup-plan :
      (p : Provenance) (j : String)
      → str_eq j "" ≡ false
      → lookup j (carry_out (plan p) current) ≡ desired_amount desired j
  unfolding plan
  lookup-plan p j n =
      let clears = sort_keys (clears_of desired current) in
      let after = carry_out (map (clear_action p) clears) current in
      ap (lookup j) (
        carry_out-append (map (clear_action p) clears) (map (set_action p) (sort_keys sets))
          current)
      ∙ carry_sets p (sort_keys sets) j after (sort_keys-Unique sets sets-Unique) n
      ∙ rw
          (
            lookup-sort_keys,
            carry_clears p clears j current n,
            lookup-sort_keys,
            lookup-sets,
            cleared j,
          )
          (settled j)

  unnamed_clear :
      is_some (lookup "" (clears_of desired current)) ≡ true → is_some (lookup "" current) ≡ true
  unnamed_clear h = elim (Option-cases (lookup "" current)) [
    | inl e ↦ ground (arith, rw (cleared "", e) at h)
    | inr (cur, e) ↦ rw e refl
  ]

  unnamed_set :
      is_some (lookup "" sets) ≡ true
      → (is_some (lookup "" current) || is_some (lookup "" desired)) ≡ true
  unnamed_set h = elim (Option-cases (lookup "" current)) [
    | inl e ↦ elim (Option-cases (lookup "" desired)) [
      | inl f ↦ ground (arith, rw (lookup-sets "", e, f) at h)
      | inr (d, f) ↦ rw (e, f) refl
    ]
    | inr (cur, e) ↦ rw e refl
  ]

  failed :
      (p : Provenance)
      → (unsortable p (clears_of desired current) || unsortable p sets) ≡ true
      → Settles current desired p none
  unfolding unsortable
  failed p h = elim (Bool-cases (unsortable p (clears_of desired current))) [
    | inl e ↦ (ground (arith, e), let one = unnamed_clear (ground (arith, e)) in rw one refl)
    | inr e ↦
        let f : unsortable p sets ≡ true = ground (arith, h, e) in
        (ground (arith, f), unnamed_set (ground (arith, f)))
  ]

  -- There is a plan, unless it is of envelopes and some bet that is up or desired has no name. Carrying it out, in either
  -- mode, leaves every bet that has a name at exactly its desired amount, and takes away every bet that has a name and
  -- is not desired: whatever bets are up, with whatever amounts.
  pub diff_bets-Settles : (p : Provenance) → Settles current desired p (diff_bets p current desired)
  unfolding diff_bets sets plan
  diff_bets-Settles p =
      elim (Bool-cases (unsortable p (clears_of desired current) || unsortable p sets)) [
        | inl e ↦ rw e (failed p e)
        | inr e ↦ rw e (λ j n. lookup-plan p j n)
      ]
