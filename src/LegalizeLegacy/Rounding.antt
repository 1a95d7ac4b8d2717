-- ===== src/LegalizeLegacy/Rounding.antt =====
-- Rounding to a step, on amounts that are not negative.
use crapssim_control.Prelude.{
  ℕ, ◌≢◌, ◌==◌, if◌then◌else◌, Bool-cases, ◌+◌, ◌-◌, ◌*◌, ◌/◌, ◌%◌, ◌≤◌, ◌<◌, ◌≡◌, inl, inr, arith,
}
use crapssim_control.Prelude.Int.{ℤ, pos, pos_part, ◌+ℤ◌, ◌-ℤ◌, max_ℤ, min_ℤ, mod_ℤ}
use native.Mathlib.Nat.{
  mod-lt, mod-le, mod-one, mul-mod_right, div-add-mod, div-mul-le_self, le-div_iff_mul-le, le_trans,
  mul-le-mul_left, lt_of_mul-lt-mul_left,
}
use Prim.Native.Nat.{min}
use crapssim_control.LegalizeLegacy.{round_up, round_down, clamp_and_round}

-- The greatest multiple of `t` up to `n`.
abbrev pub floor_to : ℕ → ℕ → ℕ
floor_to t n = n - n % t

floor_to-eq : (t n : ℕ) → floor_to t n ≡ t * (n / t)
floor_to-eq t n = omega (arith, div-add-mod n t)

pub floor_to-mod : (t n : ℕ) → 0 < t → floor_to t n % t ≡ 0
floor_to-mod t n h = rw floor_to-eq (mul-mod_right t (n / t))

-- No multiple of `t` up to `n` is greater.
pub floor_to_greatest : (t n x : ℕ) → 0 < t → x ≤ n → x % t ≡ 0 → x ≤ floor_to t n
floor_to_greatest t n x h le e =
    let below : x / t ≤ n / t = (le-div_iff_mul-le h).1 (le_trans (div-mul-le_self x t) le) in
    omega (arith, mul-le-mul_left t below, div-add-mod x t, floor_to-eq t n)

-- The least multiple of `t` from `n` up.
abbrev pub ceil_to : ℕ → ℕ → ℕ
ceil_to t n = if n % t == 0 then n else n + (t - n % t)

ceil_to-eq : (t n : ℕ) → 0 < t → n % t ≢ 0 → n + (t - n % t) ≡ t * (n / t + 1)
ceil_to-eq t n h ne = grind (arith, div-add-mod n t, mod-lt n h)

pub ceil_to-mod : (t n : ℕ) → 0 < t → ceil_to t n % t ≡ 0
ceil_to-mod t n h = elim (Bool-cases (n % t == 0)) [
  | inl e ↦ rw e (ground arith)
  | inr e ↦ rw e (rw (ceil_to-eq t n h (ground arith)) (mul-mod_right t (n / t + 1)))
]

quotient_below : (t q r : ℕ) → t * q < t * r → q + 1 ≤ r
quotient_below t q r h = let below : q < r = lt_of_mul-lt-mul_left t h in omega arith

-- No multiple of `t` from `n` up is smaller.
pub ceil_to_least : (t n x : ℕ) → 0 < t → n ≤ x → x % t ≡ 0 → ceil_to t n ≤ x
ceil_to_least t n x h le e = elim (Bool-cases (n % t == 0)) [
  | inl z ↦ rw z le
  | inr z ↦
      let apart : t * (n / t) < t * (x / t) = ground (arith, div-add-mod n t, div-add-mod x t) in
      rw z (
        rw (ceil_to-eq t n h (ground arith)) (
          omega
            (arith, mul-le-mul_left t (quotient_below t (n / t) (x / t) apart), div-add-mod x t)))
]

pub ceil_to_bounds : (t n : ℕ) → 0 < t → (n ≤ ceil_to t n) × (ceil_to t n < n + t)
ceil_to_bounds t n h = ground (arith, mod-lt n h)

pub round_up_pos : (n t : ℕ) → 0 < t → round_up (pos n) (pos t) ≡ pos (ceil_to t n)
unfolding round_up mod_ℤ ◌+ℤ◌ ◌-ℤ◌
round_up_pos n t h = ground (arith, mod-lt n h, mod-one n)

pub clamp_and_round_pos :
    (d : ℤ) (k t : ℕ)
    → 0 < t
    → clamp_and_round d (pos k) (pos t) ≡ pos (floor_to t (min (pos_part d) k))
unfolding clamp_and_round round_down mod_ℤ max_ℤ min_ℤ ◌-ℤ◌
clamp_and_round_pos d k t h = ground (arith, mod-le (min (pos_part d) k) t)
