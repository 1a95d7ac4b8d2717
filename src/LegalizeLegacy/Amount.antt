-- ===== src/LegalizeLegacy/Amount.antt =====
-- What a legalized flat or place amount satisfies: the least amount on the step that covers the request and
-- the table minimum.
use crapssim_control.Prelude.{ℕ, ◌%◌, ◌≤◌, ◌<◌, ◌≡◌, refl, true, false, arith, Option, none, some}
use crapssim_control.Prelude.Int.{ℤ, pos, pos_part, ◌+ℤ◌, ◌≤ℤ◌, ◌<ℤ◌, max_ℤ, mod_ℤ}
use Prim.Native.Nat.{max}
use crapssim_control.LegalizeLegacy.{table_step, legalize_amount, round_up}
use crapssim_control.LegalizeLegacy.Rounding.{
  ceil_to, ceil_to-mod, ceil_to_least, ceil_to_bounds, round_up_pos,
}

-- The step is the place step, or the table minimum.
table_step_pos :
    (number : Option ℕ) (level : ℕ)
    → 0 < level
    → (table_step number (pos level) ≡ pos (pos_part (table_step number (pos level))))
      × (0 < pos_part (table_step number (pos level)))
unfolding table_step
table_step_pos none level h = ground arith
table_step_pos (some n) level h = ground arith

legalize_amount_eq :
    (number : Option ℕ) (raw : ℤ) (level : ℕ)
    → 0 < level
    → legalize_amount number raw false (pos level)
      ≡ pos (ceil_to (pos_part (table_step number (pos level))) (max (pos_part raw) level))
unfolding legalize_amount
legalize_amount_eq number raw level h =
    let covered : max_ℤ raw (pos level) ≡ pos (max (pos_part raw) level) =
      unfold max_ℤ in ground arith in
    let (step, positive) = table_step_pos number level h in
    rw (covered, step) (round_up_pos (max (pos_part raw) level) _ positive)

-- With a table minimum above 0 and off the bubble table, the amount covers the request and the
-- minimum, is a multiple of the step, and overshoots by less than one step.
pub legalize_amount_bounds :
    (number : Option ℕ) (raw : ℤ) (level : ℕ)
    → 0 < level
    → let r = legalize_amount number raw false (pos level) in
      let step = pos_part (table_step number (pos level)) in
      (raw ≤ℤ r)
      × (pos level ≤ℤ r)
      × (mod_ℤ r step ≡ pos 0)
      × (r <ℤ max_ℤ raw (pos level) +ℤ pos step)
unfolding mod_ℤ max_ℤ ◌+ℤ◌
legalize_amount_bounds number raw level h =
    let step = pos_part (table_step number (pos level)) in
    let positive = (table_step_pos number level h).1 in
    let n = max (pos_part raw) level in
    rw (legalize_amount_eq number raw level h)
      (ground (arith, ceil_to-mod step n positive, ceil_to_bounds step n positive))

-- With a table minimum above 0 and off the bubble table, the amount is at most any amount on the step that
-- covers the request and the minimum.
pub legalize_amount_least :
    (number : Option ℕ) (raw : ℤ) (level x : ℕ)
    → 0 < level
    → raw ≤ℤ pos x
    → level ≤ x
    → x % pos_part (table_step number (pos level)) ≡ 0
    → legalize_amount number raw false (pos level) ≤ℤ pos x
legalize_amount_least number raw level x h cover floor e =
    let n = max (pos_part raw) level in
    rw (legalize_amount_eq number raw level h)
      (omega (arith, ceil_to_least _ n x (table_step_pos number level h).1 (ground arith) e))

-- On a bubble table the amount is the greater of the request and the minimum, with no step.
pub legalize_amount_bubble :
    (number : Option ℕ) (raw level : ℤ) → legalize_amount number raw true level ≡ max_ℤ raw level
unfolding legalize_amount round_up
legalize_amount_bubble number raw level = refl
