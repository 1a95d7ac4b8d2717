-- ===== src/EngineAdapter/State.antt =====
-- The state of the stub, `_reset_stub_state` and `_effect_context`.
use Prim.Native.String.{◌++◌ as str_append}
use crapssim_control.Prelude.{ℕ, String, Bool, Option, List, [], ◌∷◌, ◌++◌, map}
use crapssim_control.Prelude.Int.{ℤ, pos}
use crapssim_control.Prelude.Dict.{Dict}
use crapssim_control.Verbs.Handlers.{Table}
use crapssim_control.EngineAdapter.Names.{box_numbers}

-- `odds_state`: each point has its own odds behind a come or a don't come bet.
pub record Odds : Type 0 where
  pub pass_odds : ℤ
  pub dont_pass_odds : ℤ
  pub come_odds : Dict String ℤ
  pub dc_odds : Dict String ℤ

-- A normalized snapshot. Empty `bet_types` and `levels` stand for a missing key.
pub record Snapshot : Type 0 where
  pub bankroll : ℤ
  pub point_on : Bool
  pub point_value : Option ℕ
  pub bets : Dict String ℤ
  pub bet_types : Dict String String
  pub hand_id : ℕ
  pub roll_in_hand : ℕ
  pub levels : Dict String ℤ
  pub on_comeout : Bool
  pub come_flat : Dict String ℤ
  pub dc_flat : Dict String ℤ
  pub odds : Odds

pub record Stub : Type 0 where
  pub bankroll : ℤ
  pub bets : Dict String ℤ
  pub come_flat : Dict String ℤ
  pub dc_flat : Dict String ℤ
  pub odds_state : Odds
  pub on_comeout : Bool
  pub box_bet_types : Dict String String
  pub martingale_levels : Dict String ℤ
  pub snapshot_cache : Snapshot
  pub policy_violations : ℕ
  pub policy_applied : ℕ
  pub rolls_completed : ℕ

abbrev pub zero_keys : String → List String → Dict String ℤ
zero_keys prefix numbers = map (λ n. (str_append prefix n, pos 0)) numbers

abbrev pub zero_point_map : Dict String ℤ
zero_point_map = zero_keys "" box_numbers

abbrev pub hardway_numbers : List String
hardway_numbers = "4" ∷ "6" ∷ "8" ∷ "10" ∷ []

abbrev pub no_odds : Odds
no_odds = record {
  pass_odds = pos 0;
  dont_pass_odds = pos 0;
  come_odds = zero_point_map;
  dc_odds = zero_point_map;
}

abbrev pub no_bets : Dict String ℤ
no_bets =
    zero_point_map
    ++ ("pass", pos 0)
      ∷ ("dont_pass", pos 0)
      ∷ ("come", pos 0)
      ∷ ("dc", pos 0)
      ∷ ("field", pos 0)
      ∷ zero_keys "hardway_" hardway_numbers
    ++ zero_keys "odds_come_" box_numbers
    ++ zero_keys "odds_dc_" box_numbers

-- What a handler sees of the state, which the verbs of `Verbs` read too.
unfoldable pub effect_context : Stub → Table
effect_context s = record {
  bets = s.bets;
  odds = ("pass", s.odds_state.pass_odds) ∷ ("dont_pass", s.odds_state.dont_pass_odds) ∷ [];
  come_odds = s.odds_state.come_odds;
  dc_odds = s.odds_state.dc_odds;
  come_flat = s.come_flat;
  dc_flat = s.dc_flat;
}
