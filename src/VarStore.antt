-- ===== src/VarStore.antt =====
-- crapssim_control/varstore.py: the variables that are derived from the snapshots. An amount is whole.
use crapssim_control.Prelude.{
  ℕ, zero, suc, Bool, true, false, not, ◌&&◌, ◌||◌, Option, none, some, List, [], ◌∷◌, default_to,
  is_some, if◌then◌else◌,
}
use crapssim_control.Prelude.Int.{ℤ, pos, ◌+ℤ◌, ◌-ℤ◌, max_ℤ}
mod Baselines
mod Tests

-- What `refresh_system` reads of a snapshot; a `roll_index` that is not an int is `none`.
pub record Snapshot : Type 0 where
  pub comeout : Bool
  pub point_on : Bool
  pub point_number : Option ℤ
  pub roll_index : Option ℤ
  pub bankroll : Option ℤ
  pub starting : Option ℤ
  pub is_new_shooter : Bool

-- The `system` dict with its keys, `none` where one is missing, and `_last_bankroll`.
pub record VarStore : Type 0 where
  pub comeout : Option Bool
  pub point_number : Option ℤ
  pub session_start_bankroll : Option ℤ
  pub shooter_start_bankroll : Option ℤ
  pub pnl_session : Option ℤ
  pub pnl_shooter : Option ℤ
  pub rolls_since_point : Option ℤ
  pub last_bankroll : Option ℤ

abbrev pub new_store : VarStore
new_store = record {
  comeout = none;
  point_number = none;
  session_start_bankroll = none;
  shooter_start_bankroll = none;
  pnl_session = none;
  pnl_shooter = none;
  rolls_since_point = none;
  last_bankroll = none;
}

-- The first of two that is not missing
abbrev pub first_of : Option ℤ → Option ℤ → Option ℤ
first_of none b = b
first_of (some a) b = some a

abbrev pub session_base : Snapshot → Option ℤ → Option ℤ
session_base s old = first_of old (first_of s.starting s.bankroll)

abbrev pub shooter_base : Snapshot → Option ℤ → Option ℤ
shooter_base s old =
    if s.is_new_shooter && is_some s.bankroll then s.bankroll else first_of old s.bankroll

-- `br - (base or 0.0)`, with the bankroll for a missing baseline
abbrev pub pnl : Snapshot → Option ℤ → ℤ
pnl s base = default_to (pos 0) s.bankroll -ℤ default_to (pos 0) (first_of base s.bankroll)

abbrev pub rolls_under_point : Snapshot → Option ℤ → ℤ
rolls_under_point s old =
    if s.point_on
    then elim s.roll_index [
      | some i ↦ max_ℤ (pos 0) (i -ℤ pos 1)
      | none ↦ default_to (pos 0) old +ℤ pos 1
    ]
    else pos 0

unfoldable pub refresh_system : Snapshot → VarStore → VarStore
refresh_system s v =
    let session = session_base s v.session_start_bankroll in
    let shooter = shooter_base s v.shooter_start_bankroll in
    record {
      comeout = some s.comeout;
      point_number = if s.point_on then s.point_number else none;
      session_start_bankroll = session;
      shooter_start_bankroll = shooter;
      pnl_session = some (pnl s session);
      pnl_shooter = some (pnl s shooter);
      rolls_since_point = some (rolls_under_point s v.rolls_since_point);
      last_bankroll = first_of s.bankroll v.last_bankroll;
    }

-- One refresh after the other
unfoldable pub refresh_all : List Snapshot → VarStore → VarStore
refresh_all [] v = v
refresh_all (s ∷ ss) v = refresh_all ss (refresh_system s v)
