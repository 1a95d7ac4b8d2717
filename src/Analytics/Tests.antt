-- ===== src/Analytics/Tests.antt =====
-- A session of the analytics tracker at a concrete input.
use crapssim_control.Prelude.{◌≡◌, String, true, none, some, List, [], ◌∷◌, length}
use crapssim_control.Prelude.Int.{ℤ, pos, negsuc}
use crapssim_control.Analytics.{RollCtx, HandCtx, get_summary_snapshot, on_session_start}
use crapssim_control.Analytics.Figures.{highest, lowest, deepest_fall}
use crapssim_control.Analytics.Session.{
  Call, hand_start, hand_end, rolled, run, bankrolls, hands, get_summary_snapshot-run,
}

abbrev hand : HandCtx
hand = record { hand_id = 1; point = none }

abbrev roll : ℤ → ℤ → String → RollCtx
roll before delta event_type = record {
  hand_id = 1;
  roll_number = 0;
  bankroll_before = before;
  delta = delta;
  event_type = event_type;
  point = some 6;
  point_on = true;
}

abbrev session : List Call
session =
    hand_start hand
    ∷ rolled (roll (pos 100) (pos 20) "point_established")
    ∷ rolled (roll (pos 120) (negsuc 49) "Seven_Out")
    ∷ hand_end hand
    ∷ []

get_summary_snapshot-run_example :
    let s = get_summary_snapshot (run session (on_session_start (pos 100))) in
    let bs = bankrolls session in
    (s.bankroll_peak ≡ highest (pos 100) bs)
    × (s.bankroll_low ≡ lowest (pos 100) bs)
    × (s.max_drawdown ≡ deepest_fall (pos 100) bs)
    × (s.total_rolls ≡ length bs)
    × (s.total_hands ≡ hands session)
get_summary_snapshot-run_example = get_summary_snapshot-run (pos 100) session
