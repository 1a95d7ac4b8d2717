-- ===== src/EngineAdapter/Roll.antt =====
-- `_step_roll_stub`: a roll of the stub.
use crapssim_control.Prelude.{
  ℕ, ◌+◌, Bool, true, false, ◌&&◌, ◌||◌, Option, none, some, if◌then◌else◌, ◌==◌, is_some,
}
use crapssim_control.EngineAdapter.Names.{is_box}
use crapssim_control.EngineAdapter.State.{Snapshot, Stub}
use crapssim_control.EngineAdapter.Normalize.{apply_normalized_snapshot}

-- `int(pre_point) if pre_point not in (None, "", 0) else None`
unfoldable pub point_of : Snapshot → Option ℕ
point_of s = elim s.point_value [ none ↦ none | some p ↦ if p == 0 then none else some p ]

-- The point and whether it is the come-out, after the roll.
unfoldable pub roll_point : ℕ → Snapshot → Snapshot
roll_point total prev = elim (point_of prev) [
  | none ↦
      if is_box total
      then record prev { point_value = some total; point_on = true; on_comeout = false }
      else prev
  | some p ↦
      if total == p
      then record prev { point_value = none; point_on = false; on_comeout = true }
      else if total == 7
      then record prev { point_value = none; point_on = false; on_comeout = true }
      else prev
]

unfoldable pub point_seven_out : ℕ → Snapshot → Bool
point_seven_out total prev = is_some (point_of prev) && total == 7

-- The roll makes the point or is a seven.
unfoldable pub ends_point : ℕ → Snapshot → Bool
ends_point total prev = elim (point_of prev) [ none ↦ false | some p ↦ total == p || total == 7 ]

unfoldable pub roll_snapshot : ℕ → Snapshot → Snapshot
roll_snapshot total prev =
    let over = point_seven_out total prev || ends_point total prev in
    record (roll_point total prev) {
      hand_id = if over then prev.hand_id + 1 else prev.hand_id;
      roll_in_hand = if over then 1 else prev.roll_in_hand + 1;
    }

unfoldable pub step_roll_stub : ℕ → Stub → Stub
step_roll_stub total s =
    apply_normalized_snapshot
      (record (roll_snapshot total s.snapshot_cache) { bankroll = s.bankroll }) s
