-- ===== src/EngineAdapter/Takings.antt =====
-- Changes that take from bets: they fit the bets where each bet has what is taken.
use crapssim_control.Prelude.{
  arith, String, Bool, true, false, not, ◌&&◌, none, List, [], ◌∷◌, ◌≡◌, ◌∙◌, refl, inl, inr,
  Bool-cases, str_eq, eq_iff,
}
use crapssim_control.Prelude.Int.{ℤ, pos, ◌+ℤ◌, ◌≤ℤ◌, ltb_ℤ}
use crapssim_control.Prelude.Dict.{Dict, lookup, insert, lookup-insert, String_Eq}
use crapssim_control.Verbs.Handlers.{minus, take_down}
use crapssim_control.Verbs.Args.{halves, whole}
use crapssim_control.Verbs.Whole.{whole_le}
use crapssim_control.EngineAdapter.Normalize.{amount_of}
use crapssim_control.EngineAdapter.Effects.{moved_by}
use crapssim_control.EngineAdapter.Amounts.{amount-insert, Fits}

-- Each key is there once, and its bet has what its change takes.
abbrev pub Affords : Dict String ℤ → Dict String ℤ → Type 0
Affords [] bets = Unit
Affords ((k, d) ∷ deltas) bets =
    (pos 0 ≤ℤ amount_of k bets +ℤ d) × (lookup k deltas ≡ none) × Affords deltas bets

amount_apart :
    (k j : String) (v : ℤ) (d : Dict String ℤ)
    → str_eq k j ≡ false
    → amount_of j (insert k v d) ≡ amount_of j d
amount_apart k j v d e = amount-insert k j v d ∙ rw e refl

absent_apart :
    (k j : String) (d : ℤ) (deltas : Dict String ℤ)
    → lookup k ((j, d) ∷ deltas) ≡ none
    → (str_eq j k ≡ false) × (lookup k deltas ≡ none)
unfolding lookup
absent_apart k j d deltas h = elim (Bool-cases (str_eq j k)) [
  | inl e ↦ ground (arith, rw e at h)
  | inr e ↦ (e, rw e at h)
]

str_eq-sym : (a b : String) → str_eq a b ≡ false → str_eq b a ≡ false
str_eq-sym a b h = ground (arith, eq_iff a b, eq_iff b a, h)

-- Setting another bet changes nothing for them.
insert-Affords :
    (k : String) (v : ℤ) (deltas bets : Dict String ℤ)
    → lookup k deltas ≡ none
    → Affords deltas bets
    → Affords deltas (insert k v bets)
insert-Affords k v [] bets n h = tt
insert-Affords k v ((j, d) ∷ deltas) bets n (p, q, h) =
    let (apart, rest) = absent_apart k j d deltas n in
    (
      rw (amount_apart k j v bets (str_eq-sym j k apart)) p,
      q,
      insert-Affords k v deltas bets rest h,
    )

pub Affords-Fits : (deltas bets : Dict String ℤ) → Affords deltas bets → Fits deltas bets
Affords-Fits [] bets h = tt
Affords-Fits ((k, d) ∷ deltas) bets (p, n, h) = (
  p,
  Affords-Fits deltas (insert k (moved_by d (amount_of k bets)) bets)
      (insert-Affords k _ deltas bets n h),
)

-- A taking that is set under its key
pub Affords-insert :
    (k : String) (v : ℤ) (deltas bets : Dict String ℤ)
    → pos 0 ≤ℤ amount_of k bets +ℤ v
    → Affords deltas bets
    → Affords (insert k v deltas) bets
unfolding insert lookup
Affords-insert k v [] bets p h = (p, refl, tt)
Affords-insert k v ((j, d) ∷ deltas) bets p (q, n, h) = elim (Bool-cases (str_eq j k)) [
  | inl e ↦ rw e (rw ((eq_iff j k).0 e) p, n, h)
  | inr e ↦
      let later : lookup j (insert k v deltas) ≡ none =
        lookup-insert k j v deltas ∙ rw (str_eq-sym j k e) n in
      rw (e, insert) (q, later, Affords-insert k v deltas bets p h)
]

-- A list of keys in which each is once, and keys that a dict does not have.
abbrev pub missing_from : String → List String → Bool
missing_from k [] = true
missing_from k (j ∷ keys) = not (str_eq k j) && missing_from k keys

abbrev pub Distinct : List String → Type 0
Distinct [] = Unit
Distinct (k ∷ keys) = (missing_from k keys ≡ true) × Distinct keys

abbrev pub NewKeys : List String → Dict String ℤ → Type 0
NewKeys [] d = Unit
NewKeys (k ∷ keys) d = (lookup k d ≡ none) × NewKeys keys d

pub NewKeys-empty : (keys : List String) → NewKeys keys []
unfolding lookup
NewKeys-empty [] = tt
NewKeys-empty (k ∷ keys) = (refl, NewKeys-empty keys)

pub insert-NewKeys :
    (k : String) (v : ℤ) (keys : List String) (d : Dict String ℤ)
    → missing_from k keys ≡ true
    → NewKeys keys d
    → NewKeys keys (insert k v d)
insert-NewKeys k v [] d a h = tt
insert-NewKeys k v (j ∷ keys) d a (n, h) =
    let apart : str_eq k j ≡ false = ground (arith, a) in
    let more : missing_from k keys ≡ true = ground (arith, a) in
    (lookup-insert k j v d ∙ rw apart n, insert-NewKeys k v keys d more h)

-- What `take_down` of crapssim_control/verbs.py takes, in halves, is there.
abbrev pub Covered : List (String × ℤ) → Dict String ℤ → Type 0
Covered [] bets = Unit
Covered ((k, v) ∷ targets) bets = (v ≤ℤ halves (amount_of k bets)) × Covered targets bets

pub take_down-Affords :
    (targets : List (String × ℤ)) (taken bets : Dict String ℤ) (refund : ℤ)
    → Covered targets bets
    → Affords taken bets
    → Affords (take_down targets taken refund).0 bets
unfolding take_down
take_down-Affords [] taken bets refund c h = h
take_down-Affords ((k, v) ∷ targets) taken bets refund (p, c) h =
    elim (Bool-cases (ltb_ℤ (pos 0) v)) [
      | inl e ↦
          rw (e, take_down)
            (take_down-Affords targets (insert k (minus (whole v)) taken) bets (refund +ℤ v) c (
              Affords-insert k (minus (whole v)) taken bets
                (whole_le v (amount_of k bets) (ground (arith, e)) p) h))
      | inr e ↦ rw (e, take_down) (take_down-Affords targets taken bets refund c h)
    ]
