-- ===== src/Tracker/Reference.antt =====
-- A reference for the bankroll metrics: what they mean for a list of deltas, by recursion from its
-- end, and that the running metrics of a left-to-right pass agree.
use crapssim_control.Prelude.{◌≡◌, ◌∙◌, List, [], ◌∷◌, arith}
use crapssim_control.Prelude.Int.{ℤ, pos, ◌+ℤ◌, ◌-ℤ◌, ◌≤ℤ◌, max_ℤ, min_ℤ, int_laws, order_laws}

abbrev pub sum_ℤ : List ℤ → ℤ
sum_ℤ [] = pos 0
sum_ℤ (d ∷ ds) = d +ℤ sum_ℤ ds

-- The highest and the lowest sum of a prefix, the empty one included.
unfoldable pub highest : List ℤ → ℤ
highest [] = pos 0
highest (d ∷ ds) = max_ℤ (pos 0) (d +ℤ highest ds)

unfoldable pub lowest : List ℤ → ℤ
lowest [] = pos 0
lowest (d ∷ ds) = min_ℤ (pos 0) (d +ℤ lowest ds)

-- The greatest fall from the sum of one prefix to that of a longer one.
unfoldable pub deepest_fall : List ℤ → ℤ
deepest_fall [] = pos 0
deepest_fall (d ∷ ds) = max_ℤ (deepest_fall ds) (pos 0 -ℤ lowest (d ∷ ds))

-- The running metrics.
pub record Position : Type 0 where
  pub bankroll : ℤ
  pub peak : ℤ
  pub deepest : ℤ

unfoldable pub shift : ℤ → Position → Position
shift d p =
    let b = p.bankroll +ℤ d in
    let k = max_ℤ p.peak b in record { bankroll = b; peak = k; deepest = max_ℤ p.deepest (k -ℤ b) }

unfoldable pub shifts : List ℤ → Position → Position
shifts [] p = p
shifts (d ∷ ds) p = shifts ds (shift d p)

abbrev pub IsPosition : Position → Type 0
IsPosition p = (p.bankroll ≤ℤ p.peak) × (p.peak -ℤ p.bankroll ≤ℤ p.deepest)

pub highest_nonneg : (ds : List ℤ) → pos 0 ≤ℤ highest ds
unfolding highest
highest_nonneg [] = omega arith
highest_nonneg (d ∷ ds) = omega order_laws

pub lowest_le : (ds : List ℤ) → lowest ds ≤ℤ pos 0
unfolding lowest
lowest_le [] = omega arith
lowest_le (d ∷ ds) = omega order_laws

pub fall_covers : (ds : List ℤ) → pos 0 -ℤ lowest ds ≤ℤ deepest_fall ds
unfolding deepest_fall lowest
fall_covers [] = omega order_laws
fall_covers (d ∷ ds) = omega order_laws

shift-IsPosition : (d : ℤ) (p : Position) → IsPosition (shift d p)
unfolding shift
shift-IsPosition d p = omega order_laws

pub bankroll-shifts : (ds : List ℤ) (p : Position) → (shifts ds p).bankroll ≡ p.bankroll +ℤ sum_ℤ ds
unfolding shifts shift
bankroll-shifts [] p = omega int_laws
bankroll-shifts (d ∷ ds) p = bankroll-shifts ds (shift d p) ∙ omega int_laws

pub peak-shifts :
    (ds : List ℤ) (p : Position)
    → p.bankroll ≤ℤ p.peak
    → (shifts ds p).peak ≡ max_ℤ p.peak (p.bankroll +ℤ highest ds)
unfolding shifts highest shift
peak-shifts [] p h = omega order_laws
peak-shifts (d ∷ ds) p h =
    peak-shifts ds (shift d p) (omega order_laws) ∙ omega (order_laws, highest_nonneg ds)

pub deepest-shifts :
    (ds : List ℤ) (p : Position)
    → IsPosition p
    → (shifts ds p).deepest
      ≡ max_ℤ p.deepest (max_ℤ (p.peak -ℤ p.bankroll -ℤ lowest ds) (deepest_fall ds))
unfolding shifts deepest_fall
deepest-shifts [] p h = unfold lowest in omega order_laws
deepest-shifts (d ∷ ds) p h =
    deepest-shifts ds (shift d p) (shift-IsPosition d p)
    ∙ unfold shift lowest in omega (order_laws, lowest_le ds, fall_covers ds)
