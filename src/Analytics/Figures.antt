-- ===== src/Analytics/Figures.antt =====
-- A reference for the figures of the summary: what they mean for a list of bankrolls, and that the
-- running figures of a left-to-right pass agree.
use crapssim_control.Prelude.{ℕ, ◌+◌, ◌≡◌, refl, ap, ◌∙◌, List, [], ◌∷◌, arith, length}
use crapssim_control.Prelude.Int.{ℤ, pos, ◌-ℤ◌, ◌≤ℤ◌, max_ℤ, min_ℤ, order_laws}

-- The highest and the lowest of a bankroll and those that follow it.
unfoldable pub highest : ℤ → List ℤ → ℤ
highest b [] = b
highest b (x ∷ xs) = max_ℤ b (highest x xs)

unfoldable pub lowest : ℤ → List ℤ → ℤ
lowest b [] = b
lowest b (x ∷ xs) = min_ℤ b (lowest x xs)

-- The greatest fall from one bankroll to a later one.
unfoldable pub deepest_fall : ℤ → List ℤ → ℤ
deepest_fall b [] = pos 0
deepest_fall b (x ∷ xs) = max_ℤ (b -ℤ lowest b (x ∷ xs)) (deepest_fall x xs)

-- The figures of the summary that the bankrolls and the hands settle.
pub record Figures : Type 0 where
  pub bankroll : ℤ
  pub peak : ℤ
  pub low : ℤ
  pub deepest : ℤ
  pub rolls : ℕ
  pub hands : ℕ

unfoldable pub see : ℤ → Figures → Figures
see b m =
    let k = max_ℤ m.peak b in
    record m {
      bankroll = b;
      peak = k;
      low = min_ℤ m.low b;
      deepest = max_ℤ m.deepest (k -ℤ b);
      rolls = m.rolls + 1;
    }

unfoldable pub see_all : List ℤ → Figures → Figures
see_all [] m = m
see_all (b ∷ bs) m = see_all bs (see b m)

-- The hands pass through.
unfoldable pub add_hands : ℕ → Figures → Figures
add_hands n m = record m { hands = m.hands + n }

pub see_all-add_hands :
    (n : ℕ) (bs : List ℤ) (m : Figures) → see_all bs (add_hands n m) ≡ add_hands n (see_all bs m)
unfolding see_all see add_hands
see_all-add_hands n [] m = refl
see_all-add_hands n (b ∷ bs) m = see_all-add_hands n bs (see b m)

pub add_hands_twice : (n : ℕ) (m : Figures) → add_hands n (add_hands 1 m) ≡ add_hands (n + 1) m
unfolding add_hands
add_hands_twice n m = ap (λ (k : ℕ). record m { hands = k }) (omega arith)

pub add_hands_none : (m : Figures) → m ≡ add_hands 0 m
unfolding add_hands
add_hands_none m = ap (λ (k : ℕ). record m { hands = k }) (omega arith)

pub highest_covers : (b : ℤ) (bs : List ℤ) → b ≤ℤ highest b bs
unfolding highest
highest_covers b [] = omega arith
highest_covers b (x ∷ xs) = omega order_laws

pub lowest_covers : (b : ℤ) (bs : List ℤ) → lowest b bs ≤ℤ b
unfolding lowest
lowest_covers b [] = omega arith
lowest_covers b (x ∷ xs) = omega order_laws

pub peak-see_all :
    (bs : List ℤ) (m : Figures)
    → m.bankroll ≤ℤ m.peak
    → (see_all bs m).peak ≡ max_ℤ m.peak (highest m.bankroll bs)
unfolding see_all see highest
peak-see_all [] m h = omega order_laws
peak-see_all (b ∷ bs) m h =
    peak-see_all bs (see b m) (omega order_laws) ∙ omega (order_laws, highest_covers b bs)

pub low-see_all :
    (bs : List ℤ) (m : Figures)
    → m.low ≤ℤ m.bankroll
    → (see_all bs m).low ≡ min_ℤ m.low (lowest m.bankroll bs)
unfolding see_all see lowest
low-see_all [] m h = omega order_laws
low-see_all (b ∷ bs) m h =
    low-see_all bs (see b m) (omega order_laws) ∙ omega (order_laws, lowest_covers b bs)

pub fall_covers : (b : ℤ) (bs : List ℤ) → b -ℤ lowest b bs ≤ℤ deepest_fall b bs
unfolding deepest_fall lowest
fall_covers b [] = omega order_laws
fall_covers b (x ∷ xs) = omega order_laws

pub deepest-see_all :
    (bs : List ℤ) (m : Figures)
    → m.bankroll ≤ℤ m.peak
    → m.peak -ℤ m.bankroll ≤ℤ m.deepest
    → pos 0 ≤ℤ m.deepest
    → (see_all bs m).deepest
      ≡ max_ℤ m.deepest (max_ℤ (m.peak -ℤ lowest m.bankroll bs) (deepest_fall m.bankroll bs))
unfolding see_all
deepest-see_all [] m h k z = unfold lowest deepest_fall in omega order_laws
deepest-see_all (b ∷ bs) m h k z =
    deepest-see_all bs (see b m) (unfold see in omega order_laws) (unfold see in omega order_laws)
      (unfold see in omega order_laws)
    ∙ unfold see lowest deepest_fall in omega (order_laws, lowest_covers b bs, fall_covers b bs)

pub rolls-see_all : (bs : List ℤ) (m : Figures) → (see_all bs m).rolls ≡ m.rolls + length bs
unfolding see_all see
rolls-see_all [] m = omega arith
rolls-see_all (b ∷ bs) m = rolls-see_all bs (see b m) ∙ omega arith

pub hands-see_all : (bs : List ℤ) (m : Figures) → (see_all bs m).hands ≡ m.hands
unfolding see_all see
hands-see_all [] m = refl
hands-see_all (b ∷ bs) m = hands-see_all bs (see b m)
