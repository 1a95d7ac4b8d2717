-- ===== src/VarStore/Tests.antt =====
-- A session of three snapshots.
use crapssim_control.Prelude.{true, false, none, List, [], ◌∷◌}
use crapssim_control.Prelude.Int.{ℤ, pos}
use crapssim_control.VarStore.{Snapshot, new_store, refresh_all}
use crapssim_control.VarStore.Baselines.{HasPnl, snapshots, refresh_all_exact}

abbrev come_out : Snapshot
come_out = record {
  comeout = true;
  point_on = false;
  point_number = none;
  roll_index = none;
  bankroll = none;
  starting = none;
  is_new_shooter = false;
}

abbrev new_shooter : Snapshot
new_shooter = record come_out { is_new_shooter = true }

abbrev rest : List (Snapshot × ℤ)
rest = (new_shooter, pos 90) ∷ (come_out, pos 120) ∷ []

refresh_all_exact_example :
    HasPnl
      (pos 100)
      (pos 90)
      (pos 120)
      (refresh_all (snapshots ((come_out, pos 100) ∷ rest)) new_store)
refresh_all_exact_example = refresh_all_exact come_out (pos 100) rest
