-- ===== src/EngineAdapter/Rounding.antt =====
-- Rounding a half to the even number, which is exact for an even number of halves.
use crapssim_control.Prelude.{arith, ℕ, ◌+◌, ◌*◌, ◌%◌, ◌≤◌, ◌≡◌, ◌∙◌, sym, ap}
use native.Mathlib.Nat.{add-mul}
use crapssim_control.Prelude.Int.{ℤ, pos, negsuc, ◌+ℤ◌, ◌*ℤ◌, ◌≤ℤ◌, ◌<ℤ◌, int_laws, *ℤ_pos}
use crapssim_control.Verbs.Handlers.{minus}
use crapssim_control.Verbs.Whole.{IsWhole}
use crapssim_control.EngineAdapter.Handlers.{halves, half_even, half_of}

half_even_le : (n : ℕ) → half_even n ≤ n
unfolding half_even
half_even_le n = ground arith

half_even_exact : (n : ℕ) → n % 2 ≡ 0 → half_even n + half_even n ≡ n
unfolding half_even
half_even_exact n h = ground (arith, h)

pub half_of_le : (v : ℤ) → pos 0 <ℤ v → pos 0 ≤ℤ v +ℤ minus (half_of v)
unfolding half_of
half_of_le (pos n) h = omega (int_laws, half_even_le n)
half_of_le (negsuc n) h = omega (int_laws, h)

pub half_of_exact : (v : ℤ) → pos 0 <ℤ v → IsWhole v → halves (half_of v) ≡ v
unfolding half_of
half_of_exact (pos n) h e = omega (int_laws, half_even_exact n e)
half_of_exact (negsuc n) h e = omega (int_laws, h)

pub half_of_up : (v : ℤ) → pos 0 <ℤ v → pos 0 ≤ℤ half_of v
unfolding half_of
half_of_up (pos n) h = omega int_laws
half_of_up (negsuc n) h = omega (int_laws, h)

doubled_even : (x : ℕ) → (x + x) % 2 ≡ 0
doubled_even x = ground arith

even_times : (m n : ℕ) → m % 2 ≡ 0 → (m * n) % 2 ≡ 0
even_times m n h =
    let k = half_even m in
    let split : m * n ≡ k * n + k * n =
      ap (λ x. x * n) (sym (half_even_exact m h)) ∙ add-mul k k n in
    rw split (doubled_even (k * n))

-- A whole delta, times a level
pub times-IsWhole : (d n : ℤ) → IsWhole d → pos 0 <ℤ d → pos 0 ≤ℤ n → IsWhole (d *ℤ n)
times-IsWhole (pos m) (pos n) h p q = rw *ℤ_pos (even_times m n h)
times-IsWhole (pos m) (negsuc n) h p q = ground (arith, q)
times-IsWhole (negsuc m) n h p q = ground (arith, p)
