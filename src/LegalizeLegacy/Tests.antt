-- ===== src/LegalizeLegacy/Tests.antt =====
-- Inputs that exercise the legalizer, and the theorems at them.
use crapssim_control.Prelude.{◌≡◌, refl, true, false, none, some, arith}
use crapssim_control.Prelude.Int.{pos, pos_part, ◌+ℤ◌, ◌-ℤ◌, ◌*ℤ◌, ◌≤ℤ◌, max_ℤ, min_ℤ, mod_ℤ, div_ℤ}
use crapssim_control.Prelude.Text.{lower, strip}
use crapssim_control.LegalizeLegacy.{
  Policy, multiple, named, legalize_amount, odds_cap, max_multiple_for_point, pass_odds_step,
  legalize_odds, lay_odds_step, lay_amount_cap_from_win_cap, legalize_lay_odds, table_step,
  place_step_for, round_up, round_down, clamp_and_round, is_point,
}
use crapssim_control.LegalizeLegacy.Bounds.{Fits, legalize_odds_bounds, legalize_odds_greatest}

abbrev default_policy : Policy
default_policy = named "3-4-5x"

-- Place the 6 for 10 at a 10 table: 12. Lay 100 against the 5 over a flat 10: 60.
amounts :
    (legalize_amount (some 6) (pos 10) false (pos 10) ≡ pos 12)
    × (legalize_amount none (pos 11) false (pos 10) ≡ pos 20)
    × (legalize_odds (some 6) (pos 48) (pos 10) false default_policy ≡ pos 45)
    × (legalize_odds (some 6) (pos 99) (pos 10) true (named " 2X") ≡ pos 20)
    × (legalize_lay_odds (some 5) (pos 100) (pos 10) false default_policy ≡ pos 60)
unfolding legalize_amount table_step place_step_for round_up legalize_odds legalize_lay_odds
    max_multiple_for_point lower strip odds_cap pass_odds_step lay_odds_step
    lay_amount_cap_from_win_cap clamp_and_round round_down is_point ◌+ℤ◌ ◌-ℤ◌ ◌*ℤ◌ max_ℤ min_ℤ mod_ℤ
    div_ℤ
amounts = (refl, refl, refl, refl, refl)

legalize_odds_bounds_example :
    Fits
      (pos 48)
      (odds_cap (max_ℤ (pos 0) (max_multiple_for_point 6 default_policy)) (pos 10))
      (pos_part (pass_odds_step 6 false))
      (legalize_odds (some 6) (pos 48) (pos 10) false default_policy)
legalize_odds_bounds_example = legalize_odds_bounds 6 (pos 48) (pos 10) false default_policy

legalize_odds_greatest_example :
    pos 40 ≤ℤ legalize_odds (some 6) (pos 48) (pos 10) false (multiple (pos 5))
unfolding is_point max_multiple_for_point odds_cap pass_odds_step max_ℤ ◌*ℤ◌
legalize_odds_greatest_example =
    legalize_odds_greatest 6 (pos 48) (pos 10) false (multiple (pos 5)) 40 refl (omega arith)
      (omega arith) (omega arith) refl
