-- ===== src/Tracker/Tests.antt =====
-- Runs of the tracker at concrete inputs.
use crapssim_control.Prelude.{◌≡◌, refl, true, none, some, List, [], ◌∷◌}
use crapssim_control.Prelude.Int.{pos, negsuc, ◌+ℤ◌, max_ℤ, ◌-ℤ◌, min_ℤ}
use crapssim_control.Tracker.{
  Event, roll_event, point_established, seven_out, bankroll_delta, init, run, snapshot,
}
use crapssim_control.Tracker.Counters.{HasCounts, run-HasCounts}
use crapssim_control.Tracker.Drawdown.{shown, snapshot-run}
use crapssim_control.Tracker.Money.{HasLog, run-HasLog}
use crapssim_control.Tracker.Reference
use crapssim_control.Tracker.Reference.{Position}

abbrev hand : List Event
hand =
    roll_event 4 none
    ∷ point_established 4
    ∷ bankroll_delta (pos 10)
    ∷ roll_event 6 none
    ∷ bankroll_delta (negsuc 24)
    ∷ roll_event 7 none
    ∷ seven_out
    ∷ bankroll_delta (pos 5)
    ∷ []

run-HasCounts_example : HasCounts (run hand (init true true))
run-HasCounts_example = run-HasCounts true true hand

snapshot-run_example :
    shown (snapshot (run hand (init true true)))
    ≡ some (record { bankroll = negsuc 9; peak = pos 10; deepest = pos 25 })
unfolding Reference.highest Reference.deepest_fall Reference.lowest ◌+ℤ◌ max_ℤ ◌-ℤ◌ min_ℤ
snapshot-run_example = snapshot-run hand

run-HasLog_example : HasLog (run hand (init true true))
unfolding init ◌+ℤ◌
run-HasLog_example = run-HasLog hand (init true true) refl (unfold HasLog in refl)
