-- ===== src/EngineAdapter/Tests.antt =====
-- The theorems on a small stub: 1000 in the bankroll, and 12 on the 6.
use crapssim_control.Prelude.{
  arith, String, true, false, none, some, List, [], ◌∷◌, ◌≡◌, refl, if◌then◌else◌,
}
use crapssim_control.Prelude.Int.{pos, ◌+ℤ◌, min_ℤ, ◌≤ℤ◌, ◌<ℤ◌}
use crapssim_control.Prelude.Dict.{lookup, insert, String_Eq}
use crapssim_control.PolicyEngine.{evaluate, check_bet_cap, refused, Action}
use crapssim_control.PolicyEngine.Load.{RiskSpec, load_risk_policy}
use crapssim_control.Verbs.Args.{dict, number, missing}
use crapssim_control.Verbs.Balance.{total_change}
use crapssim_control.EngineAdapter.State.{Snapshot, Stub, no_odds, zero_point_map}
use crapssim_control.EngineAdapter.Normalize.{amount_of, snapshot_state}
use crapssim_control.EngineAdapter.Handlers.{Args, halves, amount_value, read_value}
use crapssim_control.EngineAdapter.Registry.{verb_registry}
use crapssim_control.EngineAdapter.Actions.{PolicyOptions, apply_action, policy_snapshot}
use crapssim_control.EngineAdapter.Session.{StopOptions, step_roll}
use crapssim_control.EngineAdapter.Conserved.{worth}
use crapssim_control.EngineAdapter.Fresh.{Forgetful, step_roll-Forgetful}
use crapssim_control.EngineAdapter.Keeping.{IsWorth, Step, act, roll, play, play-IsWorth}
use crapssim_control.EngineAdapter.Outcomes.{Explains, apply_action-Explains}
use crapssim_control.EngineAdapter.Judged.{permitted, evaluate-check_bet_cap}
use crapssim_control.EngineAdapter.Martingale.{
  run_martingale, martingale_args, run_martingale-level,
}
use crapssim_control.EngineAdapter.Funds.{RollsOn, step_roll-RollsOn}

abbrev on_eight : Snapshot
on_eight = record {
  bankroll = pos 2000;
  point_on = true;
  point_value = some 8;
  bets = ("6", pos 12) ∷ [];
  bet_types = [];
  hand_id = 3;
  roll_in_hand = 2;
  levels = [];
  on_comeout = false;
  come_flat = zero_point_map;
  dc_flat = zero_point_map;
  odds = no_odds;
}

abbrev stub : Stub
stub = record {
  bankroll = pos 2000;
  bets = ("6", pos 12) ∷ [];
  come_flat = zero_point_map;
  dc_flat = zero_point_map;
  odds_state = no_odds;
  on_comeout = false;
  box_bet_types = [];
  martingale_levels = [];
  snapshot_cache = on_eight;
  policy_violations = 0;
  policy_applied = 0;
  rolls_completed = 7;
}

abbrev no_args : Args
no_args = record {
  plain_args = record {
    amount = dict (some (number (pos 20))) none;
    point = missing;
    number = missing;
    side = none;
    on = none;
  };
  bet = some "8";
  selector = some ("6" ∷ []);
  move_from = none;
  move_to = none;
  details_profile = none;
  profile = none;
  policy = none;
  step_key = none;
  delta = none;
  max_level = none;
}

abbrev no_policy : PolicyOptions
no_policy = record { risk_policy = none; enforce = true }

abbrev stops : StopOptions
stops = record {
  stop_on_bankrupt = true;
  stop_on_unactionable = true;
  mins = record { line_min = pos 5; field_min = pos 5; place_units = pos 6 ∷ [] };
  spec_max_heat = none;
  spec_risk_caps = [];
}

abbrev rules : Snapshot → List (String × Args)
rules s = ("place_bet", no_args) ∷ []

step_roll-Forgetful_example : Forgetful 8 (step_roll no_policy stops rules 8 stub).0
step_roll-Forgetful_example = step_roll-Forgetful no_policy stops rules 8 stub

step_roll-RollsOn_example :
    RollsOn
      ((pos 0 <ℤ pos 2000) × (halves (min_ℤ (pos 5) (pos 5)) ≤ℤ pos 2000))
      (step_roll no_policy stops rules 8 stub).0
step_roll-RollsOn_example = step_roll-RollsOn no_policy stops rules 8 stub refl

apply_action-Explains_example :
    Explains (snapshot_state stub) (apply_action no_policy "move_bet" no_args stub)
apply_action-Explains_example =
    apply_action-Explains no_policy "move_bet" no_args stub (omega arith, tt)

abbrev steps : List Step
steps = act "take_down" no_args ∷ roll rules 8 ∷ []

play-IsWorth_example : IsWorth (pos 2024) (play no_policy stops steps stub)
unfolding worth verb_registry lookup insert ◌+ℤ◌ total_change amount_value read_value
play-IsWorth_example =
    play-IsWorth no_policy stops steps (pos 2024) stub (refl, (omega arith, tt))
      ((refl, tt), ((refl, tt), tt))

run_martingale-level_example :
    amount_of "six" (run_martingale 5 (martingale_args "six" 4 2) []) ≡ pos 1
unfolding lookup
run_martingale-level_example = run_martingale-level "six" 4 2 5 [] refl refl

abbrev spec : RiskSpec
spec = record {
  max_drawdown_pct = some (record { num = pos 25; den_pred = 0 });
  max_heat = some (pos 0);
  bet_caps = ("place_bet", some (pos 5)) ∷ [];
  recovery = none;
}

abbrev place_ten : Action
place_ten = record { verb = some "place_bet"; amount = some (pos 10) }

evaluate-check_bet_cap_example :
    evaluate (load_risk_policy spec) place_ten (policy_snapshot on_eight) ≡ (
      if check_bet_cap (load_risk_policy spec) "place_bet" (pos 10)
      then permitted
      else refused "bet_cap")
evaluate-check_bet_cap_example = evaluate-check_bet_cap spec place_ten on_eight
