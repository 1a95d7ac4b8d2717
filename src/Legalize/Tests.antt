-- ===== src/Legalize/Tests.antt =====
-- The legalizer on concrete requests.
use crapssim_control.Prelude.{none, some, ◌≡◌, refl}
use crapssim_control.Prelude.Int.{pos}
use crapssim_control.Legalize.{
  Settings, odds, place, legalize_amount, legalize_positive, round_down, clamped_by, place_step,
}
use crapssim_control.Legalize.Exact.{IsLegalFor, legalize_amount-IsLegal}

abbrev defaults : Settings
defaults = record {
  bubble = none;
  level = none;
  place_410_increment = none;
  max_odds_multiple = none;
}

-- 20 dollars on the 6 are 18.
place_six : legalize_amount (place (some 6)) (pos 2000) defaults 0 ≡ (18, clamped_by (place_step 6))
unfolding legalize_amount legalize_positive round_down
place_six = refl

legalize_amount-IsLegal_example :
    IsLegalFor odds (pos 5000) defaults 1000 (legalize_amount odds (pos 5000) defaults 1000)
legalize_amount-IsLegal_example = legalize_amount-IsLegal odds (pos 5000) defaults 1000
