-- ===== src/Analytics.antt =====
-- crapssim_control/analytics/tracker.py and crapssim_control/analytics/types.py: the tracker whose
-- snapshots go into the exports. Amounts are whole numbers.
pub mod Figures
pub mod Session
mod Tests
use crapssim_control.Prelude.{
  ℕ, suc, ◌+◌, String, Bool, true, false, not, ◌&&◌, Option, none, some, List, [], ◌∷◌,
  if◌then◌else◌, ltb, str_eq, is_some, ◌==◌,
}
use crapssim_control.Prelude.Int.{ℤ, pos, ◌+ℤ◌, ◌-ℤ◌, max_ℤ, min_ℤ}
use crapssim_control.Prelude.Text.{lower}

pub record HandCtx : Type 0 where
  pub hand_id : ℕ
  pub point : Option ℕ

pub record RollCtx : Type 0 where
  pub hand_id : ℕ
  pub roll_number : ℕ
  pub bankroll_before : ℤ
  pub delta : ℤ
  pub event_type : String
  pub point : Option ℕ
  pub point_on : Bool

pub record Tracker : Type 0 where
  pub bankroll : ℤ
  pub bankroll_peak : ℤ
  pub bankroll_low : ℤ
  pub max_drawdown : ℤ
  pub hand_id : ℕ
  pub roll_in_hand : ℕ
  pub total_hands : ℕ
  pub total_rolls : ℕ
  pub points_made : ℕ
  pub pso_count : ℕ
  pub point_active : Bool
  pub current_point : Option ℕ
  pub rolls_since_point : ℕ

-- `on_session_start`, which sets every field
unfoldable pub on_session_start : ℤ → Tracker
on_session_start bankroll = record {
  bankroll = bankroll;
  bankroll_peak = bankroll;
  bankroll_low = bankroll;
  max_drawdown = pos 0;
  hand_id = 0;
  roll_in_hand = 0;
  total_hands = 0;
  total_rolls = 0;
  points_made = 0;
  pso_count = 0;
  point_active = false;
  current_point = none;
  rolls_since_point = 0;
}

-- The bankroll is now known to be `bankroll`.
unfoldable pub see_bankroll : ℤ → Tracker → Tracker
see_bankroll bankroll t =
    let peak = max_ℤ t.bankroll_peak bankroll in
    record t {
      bankroll = bankroll;
      bankroll_peak = peak;
      bankroll_low = min_ℤ t.bankroll_low bankroll;
      max_drawdown = max_ℤ t.max_drawdown (peak -ℤ bankroll);
    }

unfoldable pub on_session_end : ℤ → Tracker → Tracker
on_session_end bankroll t = see_bankroll bankroll t

-- `bool(point)`
abbrev truth : Option ℕ → Bool
truth none = false
truth (some n) = not (n == 0)

unfoldable pub on_hand_start : HandCtx → Tracker → Tracker
on_hand_start h t = record t {
  hand_id = t.hand_id + 1;
  roll_in_hand = 0;
  total_hands = t.total_hands + 1;
  current_point = h.point;
  point_active = truth h.point;
  rolls_since_point = 0;
}

-- The point is off.
unfoldable pub forget_point : Tracker → Tracker
forget_point t = record t { point_active = false; current_point = none; rolls_since_point = 0 }

unfoldable pub on_hand_end : HandCtx → Tracker → Tracker
on_hand_end h t = forget_point t

abbrev max_ℕ : ℕ → ℕ → ℕ
max_ℕ a b = if ltb a b then b else a

-- The branches of `on_roll` on the type of the event.
unfoldable pub on_event : RollCtx → Tracker → Tracker
on_event r t =
    let event_type = lower r.event_type in
    if str_eq event_type "point_established"
    then record t { point_active = is_some r.point; current_point = r.point; rolls_since_point = 0 }
    else if str_eq event_type "roll"
    then record t {
      rolls_since_point =
          if t.point_active then max_ℕ t.rolls_since_point r.roll_number else t.rolls_since_point;
    }
    else if str_eq event_type "point_made"
    then forget_point
        (record t { points_made = if t.point_active then t.points_made + 1 else t.points_made })
    else if str_eq event_type "seven_out"
    then forget_point (record t {
      pso_count =
          if t.point_active && t.rolls_since_point == 0 && r.roll_number == 0
          then t.pso_count + 1
          else t.pso_count;
    })
    else if str_eq event_type "comeout"
    then forget_point t
    else t

unfoldable pub on_roll : RollCtx → Tracker → Tracker
on_roll r t =
    let counted = record t { roll_in_hand = t.roll_in_hand + 1; total_rolls = t.total_rolls + 1 } in
    let u = on_event r (see_bankroll (r.bankroll_before +ℤ r.delta) counted) in
    if not r.point_on then forget_point u else u

pub record RollSnapshot : Type 0 where
  pub hand_id : ℕ
  pub roll_in_hand : ℕ
  pub bankroll_after : ℤ
  pub drawdown_after : ℤ

unfoldable pub get_roll_snapshot : Tracker → RollSnapshot
get_roll_snapshot t = record {
  hand_id = t.hand_id;
  roll_in_hand = t.roll_in_hand;
  bankroll_after = t.bankroll;
  drawdown_after = t.bankroll_peak -ℤ t.bankroll;
}

pub record Summary : Type 0 where
  pub total_hands : ℕ
  pub total_rolls : ℕ
  pub points_made : ℕ
  pub pso_count : ℕ
  pub bankroll_peak : ℤ
  pub bankroll_low : ℤ
  pub max_drawdown : ℤ

unfoldable pub get_summary_snapshot : Tracker → Summary
get_summary_snapshot t = record {
  total_hands = t.total_hands;
  total_rolls = t.total_rolls;
  points_made = t.points_made;
  pso_count = t.pso_count;
  bankroll_peak = t.bankroll_peak;
  bankroll_low = t.bankroll_low;
  max_drawdown = t.max_drawdown;
}
