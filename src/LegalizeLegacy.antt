-- ===== src/LegalizeLegacy.antt =====
-- crapssim_control/legalize_legacy.py: bet amounts made legal for a table. Amounts are Python ints
-- of any sign; a point or box number is only compared, so it is a natural.
pub mod Rounding
pub mod Bounds
pub mod Payout
pub mod Amount
mod Tests
use crapssim_control.Prelude.{
  ℕ, String, Bool, true, false, ◌||◌, Option, none, some, ◌==◌, str_eq, if◌then◌else◌,
}
use crapssim_control.Prelude.Int.{
  ℤ, pos, pos_part, ◌+ℤ◌, ◌-ℤ◌, ◌*ℤ◌, leb_ℤ, eqb_ℤ, max_ℤ, min_ℤ, mod_ℤ, div_ℤ,
}
use crapssim_control.Prelude.Text.{lower, strip}

-- `number in (a, b)`
abbrev pub one_of_two : ℕ → ℕ → ℕ → Bool
one_of_two a b n = n == a || n == b

-- 0 is the sentinel "use the table-minimum step".
pub place_step_for : Option ℕ → Bool → ℤ
place_step_for _ true = pos 1
place_step_for none false = pos 0
place_step_for (some n) false =
    if one_of_two 6 8 n
    then pos 6
    else if one_of_two 5 9 n || one_of_two 4 10 n
    then pos 5
    else pos 0

pub round_up : ℤ → ℤ → ℤ
round_up value step =
    if leb_ℤ step (pos 1)
    then value
    else let rem = mod_ℤ value (pos_part step) in
      if eqb_ℤ rem (pos 0) then value else value +ℤ (step -ℤ rem)

pub round_down : ℤ → ℤ → ℤ
round_down value step = if leb_ℤ step (pos 1) then value else value -ℤ mod_ℤ value (pos_part step)

-- The step of a flat or place amount off the bubble table.
pub table_step : Option ℕ → ℤ → ℤ
unfolding place_step_for
table_step number level =
    let step = place_step_for number false in if eqb_ℤ step (pos 0) then level else step

pub legalize_amount : Option ℕ → ℤ → Bool → ℤ → ℤ
unfolding table_step
legalize_amount number raw bubble level =
    let amt = max_ℤ raw level in
    if bubble then round_up amt (pos 1) else round_up amt (table_step number level)

-- The `policy` argument: an int, or a text.
pub data Policy : Type 0 where
  multiple : ℤ → Policy
  named : String → Policy

-- "3-4-5x", the default
pub three_four_five : ℕ → ℤ
three_four_five point =
    if one_of_two 4 10 point
    then pos 3
    else if one_of_two 5 9 point
    then pos 4
    else if one_of_two 6 8 point
    then pos 5
    else pos 0

pub max_multiple_for_point : ℕ → Policy → ℤ
unfolding three_four_five
max_multiple_for_point point (multiple m) = m
max_multiple_for_point point (named policy) =
    let p = strip (lower policy) in
    if str_eq p "2x" || str_eq p "2"
    then pos 2
    else if str_eq p "5x" || str_eq p "5"
    then pos 5
    else if str_eq p "10x" || str_eq p "10"
    then pos 10
    else three_four_five point

pub pass_odds_step : ℕ → Bool → ℤ
pass_odds_step point true = pos 1
pass_odds_step point false =
    if one_of_two 4 10 point
    then pos 1
    else if one_of_two 5 9 point
    then pos 2
    else if one_of_two 6 8 point
    then pos 5
    else pos 1

-- `point in (4, 5, 6, 8, 9, 10)`
pub is_point : ℕ → Bool
is_point n = one_of_two 4 5 n || one_of_two 6 8 n || one_of_two 9 10 n

-- The cap on pass odds.
pub odds_cap : ℤ → ℤ → ℤ
odds_cap mult flat = mult *ℤ max_ℤ (pos 0) flat

-- Clamp to the cap, round down to the step, clamp at 0.
pub clamp_and_round : ℤ → ℤ → ℤ → ℤ
clamp_and_round desired cap step =
    max_ℤ (pos 0) (round_down (min_ℤ (max_ℤ (pos 0) desired) cap) step)

pub legalize_odds : Option ℕ → ℤ → ℤ → Bool → Policy → ℤ
legalize_odds none desired flat bubble policy = pos 0
legalize_odds (some point) desired flat bubble policy =
    let mult = max_multiple_for_point point policy in
    if is_point point
    then if leb_ℤ mult (pos 0)
      then pos 0
      else clamp_and_round desired (odds_cap mult flat) (pass_odds_step point bubble)
    else pos 0

pub lay_odds_step : ℕ → Bool → ℤ
lay_odds_step point true = pos 1
lay_odds_step point false =
    if one_of_two 4 10 point
    then pos 2
    else if one_of_two 5 9 point
    then pos 3
    else if one_of_two 6 8 point
    then pos 6
    else pos 1

pub lay_amount_cap_from_win_cap : ℕ → ℤ → ℤ
lay_amount_cap_from_win_cap point win_cap =
    if one_of_two 4 10 point
    then win_cap *ℤ pos 2
    else if one_of_two 5 9 point
    then div_ℤ (win_cap *ℤ pos 3) 2
    else if one_of_two 6 8 point
    then div_ℤ (win_cap *ℤ pos 6) 5
    else pos 0

pub legalize_lay_odds : Option ℕ → ℤ → ℤ → Bool → Policy → ℤ
legalize_lay_odds none desired flat bubble policy = pos 0
legalize_lay_odds (some point) desired flat bubble policy =
    let mult = max_multiple_for_point point policy in
    if is_point point
    then if leb_ℤ mult (pos 0)
      then pos 0
      else clamp_and_round desired (lay_amount_cap_from_win_cap point (odds_cap mult flat))
          (lay_odds_step point bubble)
    else pos 0
