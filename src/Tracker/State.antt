-- ===== src/Tracker/State.antt =====
-- The state of the tracker, the events that it is told, and what its snapshot shows.
use crapssim_control.Prelude.{ℕ, Bool, Option, none, List, []}
use crapssim_control.Prelude.Int.{ℤ, pos}
use crapssim_control.Prelude.Dict.{Dict}

-- A quotient of two amounts, left as it is.
pub record Fraction : Type 0 where
  pub num : ℤ
  pub den : ℤ

pub record RollState : Type 0 where
  pub last_roll : Option ℕ
  pub shooter_rolls : ℕ
  pub rolls_since_point : ℕ
  pub comeout_rolls : ℕ
  pub comeout_naturals : ℕ
  pub comeout_craps : ℕ

-- 0 means off.
pub record PointState : Type 0 where
  pub point : ℕ

pub record BankrollState : Type 0 where
  pub bankroll : ℤ
  pub bankroll_peak : ℤ
  pub drawdown : ℤ
  pub pnl_since_point : ℤ
  pub max_drawdown : Option ℤ
  pub recovery_factor : Option Fraction

pub record SessionState : Type 0 where
  pub seven_outs : ℕ
  pub pso : ℕ
  pub hands : ℕ

pub record SincePointState : Type 0 where
  pub inside_hits : ℕ
  pub outside_hits : ℕ
  pub hits : Dict ℕ ℕ

pub record Tracker : Type 0 where
  pub enabled : Bool
  pub roll : RollState
  pub point : PointState
  pub bankroll : BankrollState
  pub session : SessionState
  pub hits : Dict ℕ ℕ
  pub since_point : SincePointState
  pub bankroll_extras_enabled : Bool
  pub current_hand_pnl : ℤ
  pub pnl_log : List ℤ

-- A call of one of the five event methods; `roll_event` has the `is_comeout` argument.
pub data Event : Type 0 where
  roll_event : ℕ → Option Bool → Event
  point_established : ℕ → Event
  point_made : Event
  seven_out : Event
  bankroll_delta : ℤ → Event

pub record Extras : Type 0 where
  pub max_drawdown : ℤ
  pub recovery_factor : Fraction
  pub pnl_log : List ℤ

pub record Snapshot : Type 0 where
  pub roll : RollState
  pub point : PointState
  pub bankroll : ℤ
  pub bankroll_peak : ℤ
  pub drawdown : ℤ
  pub pnl_since_point : ℤ
  pub session : SessionState
  pub hits : Dict ℕ ℕ
  pub since_point : SincePointState
  pub extras : Option Extras

-- `__init__`, from the two keys of the config
unfoldable pub init : Bool → Bool → Tracker
init enabled extras = record {
  enabled = enabled;
  roll = record {
    last_roll = none;
    shooter_rolls = 0;
    rolls_since_point = 0;
    comeout_rolls = 0;
    comeout_naturals = 0;
    comeout_craps = 0;
  };
  point = record { point = 0 };
  bankroll = record {
    bankroll = pos 0;
    bankroll_peak = pos 0;
    drawdown = pos 0;
    pnl_since_point = pos 0;
    max_drawdown = none;
    recovery_factor = none;
  };
  session = record { seven_outs = 0; pso = 0; hands = 0 };
  hits = [];
  since_point = record { inside_hits = 0; outside_hits = 0; hits = [] };
  bankroll_extras_enabled = extras;
  current_hand_pnl = pos 0;
  pnl_log = [];
}
