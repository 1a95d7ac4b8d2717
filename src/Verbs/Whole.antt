-- ===== src/Verbs/Whole.antt =====
-- Amounts in halves of a unit that are whole, for which `int` is exact.
use crapssim_control.Prelude.{◌+◌, ◌%◌, ◌≡◌, arith}
use crapssim_control.Prelude.Int.{ℤ, pos, negsuc, ◌+ℤ◌, ◌-ℤ◌, ◌≤ℤ◌, ◌<ℤ◌, int_laws}
use crapssim_control.Verbs.Args.{halves, whole}

-- A whole number of units
abbrev pub IsWhole : ℤ → Type 0
IsWhole (pos n) = n % 2 ≡ 0
IsWhole (negsuc n) = (n + 1) % 2 ≡ 0

pub whole_exact : (v : ℤ) → IsWhole v → halves (whole v) ≡ v
unfolding whole
whole_exact (pos n) h = omega (int_laws, h)
whole_exact (negsuc n) h = omega (int_laws, h)

pub whole_up : (v : ℤ) → pos 0 <ℤ v → pos 0 ≤ℤ whole v
unfolding whole
whole_up (pos n) h = omega int_laws
whole_up (negsuc n) h = omega (int_laws, h)

-- What is cut off is at most what is there.
pub whole_le : (v a : ℤ) → pos 0 <ℤ v → v ≤ℤ halves a → pos 0 ≤ℤ a +ℤ (pos 0 -ℤ whole v)
unfolding whole
whole_le (pos n) a h p = omega (int_laws, p)
whole_le (negsuc n) a h p = omega (int_laws, h)

pub halves-IsWhole : (n : ℤ) → IsWhole (halves n)
unfolding ◌+ℤ◌
halves-IsWhole (pos n) = ground arith
halves-IsWhole (negsuc n) = ground arith
