-- ===== src/Tracker.antt =====
-- crapssim_control/tracker.py: the game telemetry tracker. Dice totals and points are naturals; the
-- amounts of money are whole numbers of a unit, of either sign.
mod State
pub mod Counters
pub mod Money
pub mod Reference
pub mod Drawdown
mod Tests
pub use State.{
  Fraction, RollState, PointState, BankrollState, SessionState, SincePointState, Tracker, Event,
  roll_event, point_established, point_made, seven_out, bankroll_delta, Extras, Snapshot,
}
unfoldable pub use State.{init}
use crapssim_control.Prelude.{
  ℕ, ◌+◌, Bool, true, false, ◌||◌, ◌&&◌, not, Option, none, some, List, [], ◌∷◌, ◌++◌, ltb, ◌==◌,
  if◌then◌else◌, default_to, is_some,
}
use crapssim_control.Prelude.Int.{ℤ, pos, ◌+ℤ◌, ◌-ℤ◌, max_ℤ, ltb_ℤ}
use crapssim_control.Prelude.Dict.{ℕ_Eq, increment}

-- `total in INSIDE_SET`, `total in OUTSIDE_SET`
abbrev pub is_inside : ℕ → Bool
is_inside n = n == 5 || n == 6 || n == 8 || n == 9

abbrev pub is_outside : ℕ → Bool
is_outside n = n == 4 || n == 10

abbrev pub is_natural : ℕ → Bool
is_natural n = n == 7 || n == 11

abbrev pub is_craps : ℕ → Bool
is_craps n = n == 2 || n == 3 || n == 12

abbrev pub add_if : Bool → ℕ → ℕ
add_if b n = if b then n + 1 else n

-- `_reset_since_point_buckets`
abbrev pub empty_buckets : SincePointState
empty_buckets = record { inside_hits = 0; outside_hits = 0; hits = [] }

-- The comeout branch of `on_roll`
on_comeout_roll : ℕ → RollState → RollState
on_comeout_roll total r = record r {
  comeout_rolls = r.comeout_rolls + 1;
  comeout_naturals = add_if (is_natural total) r.comeout_naturals;
  comeout_craps = add_if (is_craps total) r.comeout_craps;
}

-- The since-point buckets after a roll
bucket_roll : ℕ → SincePointState → SincePointState
bucket_roll total s = record {
  inside_hits = add_if (is_inside total) s.inside_hits;
  outside_hits = add_if (is_outside total) s.outside_hits;
  hits = increment total s.hits;
}

is_comeout_now : Option Bool → Tracker → Bool
is_comeout_now given t = default_to (t.point.point == 0) given

unfoldable pub on_roll : ℕ → Option Bool → Tracker → Tracker
unfolding on_comeout_roll bucket_roll is_comeout_now
on_roll total given t =
    if not t.enabled
    then t
    else let r = record t.roll {
      last_roll = some total;
      shooter_rolls = t.roll.shooter_rolls + 1;
    } in
      let u = record t { roll = r; hits = increment total t.hits } in
      if is_comeout_now given t
      then record u { roll = on_comeout_roll total r }
      else if t.point.point == 0
      then u
      else record u {
        roll = record r { rolls_since_point = r.rolls_since_point + 1 };
        since_point = bucket_roll total t.since_point;
      }

unfoldable pub on_point_established : ℕ → Tracker → Tracker
on_point_established point t = if not t.enabled then t else record t {
  point = record { point = point };
  roll = record t.roll { rolls_since_point = 0 };
  bankroll = record t.bankroll { pnl_since_point = pos 0 };
  since_point = empty_buckets;
}

unfoldable pub on_point_made : Tracker → Tracker
on_point_made t = if not t.enabled then t else record t {
  point = record { point = 0 };
  roll = record t.roll { rolls_since_point = 0 };
  bankroll = record t.bankroll { pnl_since_point = pos 0 };
  since_point = empty_buckets;
}

unfoldable pub on_seven_out : Tracker → Tracker
on_seven_out t =
    if not t.enabled
    then t
    else let extras = t.bankroll_extras_enabled in
      record t {
        session = record {
          seven_outs = t.session.seven_outs + 1;
          pso = add_if (t.roll.rolls_since_point == 1) t.session.pso;
          hands = t.session.hands + 1;
        };
        point = record { point = 0 };
        roll = record t.roll { rolls_since_point = 0; shooter_rolls = 0 };
        bankroll = record t.bankroll { pnl_since_point = pos 0 };
        since_point = empty_buckets;
        pnl_log = if extras then t.pnl_log ++ t.current_hand_pnl ∷ [] else t.pnl_log;
        current_hand_pnl = if extras then pos 0 else t.current_hand_pnl;
      }

-- Bankroll, peak and drawdown after a delta
unfoldable pub move_bankroll : ℤ → Bool → BankrollState → BankrollState
move_bankroll delta point_on b =
    let bankroll = b.bankroll +ℤ delta in
    let peak = if ltb_ℤ b.bankroll_peak bankroll then bankroll else b.bankroll_peak in
    record b {
      bankroll = bankroll;
      bankroll_peak = peak;
      drawdown = max_ℤ (pos 0) (peak -ℤ bankroll);
      pnl_since_point = if point_on then b.pnl_since_point +ℤ delta else b.pnl_since_point;
    }

-- The Batch-4 metrics, from a bankroll state that has the new drawdown
unfoldable pub extra_metrics : BankrollState → BankrollState
extra_metrics b =
    let deepest : ℤ = elim b.max_drawdown [ none ↦ b.drawdown | some m ↦ max_ℤ m b.drawdown ] in
    record b {
      max_drawdown = some deepest;
      recovery_factor = some (
          if ltb_ℤ (pos 0) deepest
          then record { num = b.bankroll; den = deepest }
          else record { num = pos 0; den = pos 1 });
    }

unfoldable pub on_bankroll_delta : ℤ → Tracker → Tracker
on_bankroll_delta delta t =
    if not t.enabled
    then t
    else let b = move_bankroll delta (not (t.point.point == 0)) t.bankroll in
      if t.bankroll_extras_enabled
      then record t { bankroll = extra_metrics b; current_hand_pnl = t.current_hand_pnl +ℤ delta }
      else record t { bankroll = b }

unfoldable pub step : Event → Tracker → Tracker
step (roll_event total given) t = on_roll total given t
step (point_established p) t = on_point_established p t
step point_made t = on_point_made t
step seven_out t = on_seven_out t
step (bankroll_delta delta) t = on_bankroll_delta delta t

unfoldable pub run : List Event → Tracker → Tracker
run [] t = t
run (e ∷ es) t = run es (step e t)

-- `snapshot()`; `none` is the empty dict of a disabled tracker
unfoldable pub snapshot : Tracker → Option Snapshot
snapshot t =
    if not t.enabled
    then none
    else some (record {
      roll = t.roll;
      point = t.point;
      bankroll = t.bankroll.bankroll;
      bankroll_peak = t.bankroll.bankroll_peak;
      drawdown = t.bankroll.drawdown;
      pnl_since_point = t.bankroll.pnl_since_point;
      session = t.session;
      hits = t.hits;
      since_point = t.since_point;
      extras =
          if t.bankroll_extras_enabled
          then some (record {
            max_drawdown = default_to (pos 0) t.bankroll.max_drawdown;
            recovery_factor =
                default_to (record { num = pos 0; den = pos 1 }) t.bankroll.recovery_factor;
            pnl_log = t.pnl_log;
          })
          else none;
    })
