-- ===== src/EngineAdapter/Amounts.antt =====
-- The amounts of money in the stub: the sum of the bets, and the bets that are not negative.
use crapssim_control.Prelude.{
  arith, String, [], ◌∷◌, ◌≡◌, ◌∙◌, refl, inl, inr, if◌then◌else◌, Bool-cases, str_eq,
}
use crapssim_control.Prelude.Int.{ℤ, pos, ◌+ℤ◌, ◌≤ℤ◌, same, int_laws, order_laws}
use crapssim_control.Prelude.Dict.{Dict, lookup, insert, lookup-insert, String_Eq}
use crapssim_control.Verbs.Balance.{total_change}
use crapssim_control.EngineAdapter.Normalize.{amount_of}
use crapssim_control.EngineAdapter.Effects.{moved_by, apply_deltas}

-- Setting a bet changes the sum by the difference.
pub total-insert :
    (k : String) (v : ℤ) (d : Dict String ℤ)
    → total_change (insert k v d) +ℤ amount_of k d ≡ total_change d +ℤ v
unfolding total_change insert lookup
total-insert k v [] = omega int_laws
total-insert k v ((j, w) ∷ d) = elim (Bool-cases (str_eq j k)) [
  | inl e ↦ rw e (omega int_laws)
  | inr e ↦ rw (e, insert, lookup) (omega (int_laws, same _ _ (total-insert k v d)))
]

pub amount-insert :
    (k j : String) (v : ℤ) (d : Dict String ℤ)
    → amount_of j (insert k v d) ≡ (if str_eq k j then v else amount_of j d)
amount-insert k j v d =
    rw lookup-insert (elim (Bool-cases (str_eq k j)) [ inl e ↦ rw e refl | inr e ↦ rw e refl ])

-- No bet is negative.
abbrev pub NonNegative : Dict String ℤ → Type 0
NonNegative [] = Unit
NonNegative ((k, v) ∷ d) = (pos 0 ≤ℤ v) × NonNegative d

pub insert-NonNegative :
    (k : String) (v : ℤ) (d : Dict String ℤ)
    → pos 0 ≤ℤ v
    → NonNegative d
    → NonNegative (insert k v d)
unfolding insert
insert-NonNegative k v [] p h = (p, tt)
insert-NonNegative k v ((j, w) ∷ d) p (q, h) = elim (Bool-cases (str_eq j k)) [
  | inl e ↦ rw e (p, h)
  | inr e ↦ rw e (q, insert-NonNegative k v d p h)
]

pub amount-NonNegative : (k : String) (d : Dict String ℤ) → NonNegative d → pos 0 ≤ℤ amount_of k d
unfolding lookup
amount-NonNegative k [] h = omega arith
amount-NonNegative k ((j, w) ∷ d) (q, h) = elim (Bool-cases (str_eq j k)) [
  | inl e ↦ rw e q
  | inr e ↦ rw e (amount-NonNegative k d h)
]

pub apply_deltas-NonNegative :
    (deltas bets : Dict String ℤ) → NonNegative bets → NonNegative (apply_deltas deltas bets)
unfolding apply_deltas
apply_deltas-NonNegative [] bets h = h
apply_deltas-NonNegative ((bet, delta) ∷ deltas) bets h =
    apply_deltas-NonNegative deltas (insert bet (moved_by delta (amount_of bet bets)) bets)
      (insert-NonNegative bet _ bets (omega (order_laws)) h)

-- Each change leaves its bet at zero or more, so that the clamp takes nothing.
abbrev pub Fits : Dict String ℤ → Dict String ℤ → Type 0
Fits [] bets = Unit
Fits ((bet, delta) ∷ deltas) bets =
    (pos 0 ≤ℤ amount_of bet bets +ℤ delta)
    × Fits deltas (insert bet (moved_by delta (amount_of bet bets)) bets)

-- Changes that fit change the sum of the bets by their own sum.
pub total-apply_deltas :
    (deltas bets : Dict String ℤ)
    → Fits deltas bets
    → total_change (apply_deltas deltas bets) ≡ total_change bets +ℤ total_change deltas
unfolding apply_deltas total_change
total-apply_deltas [] bets h = omega int_laws
total-apply_deltas ((bet, delta) ∷ deltas) bets (p, h) =
    let new = moved_by delta (amount_of bet bets) in
    total-apply_deltas deltas (insert bet new bets) h
    ∙ omega (order_laws, p, same _ _ (total-insert bet new bets))
