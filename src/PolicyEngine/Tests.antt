-- ===== src/PolicyEngine/Tests.antt =====
-- The risk policy at concrete inputs.
use crapssim_control.Prelude.{◌≡◌, ◌↔◌, String, true, Option, none, some, [], ◌∷◌}
use crapssim_control.Prelude.Int.{pos, negsuc}
use crapssim_control.Prelude.Dict.{String_Eq}
use crapssim_control.PolicyEngine.{Action, Snapshot, evaluate}
use crapssim_control.PolicyEngine.Bounds.{IsWithin, evaluate_exact}
use crapssim_control.PolicyEngine.Load.{RiskSpec, load_risk_policy}

-- A quarter of the peak may be lost, and a press is at most 50.
abbrev spec : RiskSpec
spec = record {
  max_drawdown_pct = some (record { num = pos 25; den_pred = 0 });
  max_heat = some (negsuc 4);
  bet_caps = ("press", some (pos 50)) ∷ ("lay", none) ∷ [];
  recovery = some (record { enabled = true; mode = "STEP_recovery" });
}

abbrev press : Action
press = record { verb = some "press"; amount = some (pos 60) }

abbrev now : Snapshot
now = record {
  bankroll_after = none;
  bankroll = some (pos 760);
  bankroll_peak = some (pos 1000);
  active_bets_sum = some (pos 100);
  previous_loss = some (pos 40);
}

evaluate_exact_example :
    ((evaluate (load_risk_policy spec) press now).allowed ≡ true)
    ↔ IsWithin (load_risk_policy spec) press now
evaluate_exact_example = evaluate_exact (load_risk_policy spec) press now

abbrev verdict : Option String
verdict = (evaluate (load_risk_policy spec) press now).reason
