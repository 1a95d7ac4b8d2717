-- ===== src/CommandChannel/CircuitBreaker.antt =====
-- `CircuitBreaker`: after a run of rejections a source is shut out for a while.
use Prim.Native.Nat.{max}
use crapssim_control.Prelude.{
  ℕ, ◌+◌, ◌≤◌, ◌<◌, ◌≡◌, Bool, true, Option, none, some, List, [], ◌∷◌, arith, leb, if◌then◌else◌,
  ◌↔◌, length,
}

pub record CircuitBreaker : Type 0 where
  pub max_rejects : ℕ
  pub cool_down : ℕ
  pub consecutive : ℕ
  pub tripped_until : ℕ

-- What `record` returns, where it is not `None`.
pub data Signal : Type 0 where
  trip reset : Signal

-- `__init__`
unfoldable pub init : ℕ → ℕ → CircuitBreaker
init max_rejects cool_down = record {
  max_rejects = max 1 max_rejects;
  cool_down = cool_down;
  consecutive = 0;
  tripped_until = 0;
}

-- `record(success)` at the time `now`
unfoldable pub record_success : CircuitBreaker → Option Signal × CircuitBreaker
record_success b =
    (if leb b.max_rejects b.consecutive then some reset else none, record b { consecutive = 0 })

unfoldable pub record_failure : ℕ → CircuitBreaker → Option Signal × CircuitBreaker
record_failure now b =
    let n = b.consecutive + 1 in
    if leb b.max_rejects n
    then (some trip, record b { consecutive = n; tripped_until = now + b.cool_down })
    else (none, record b { consecutive = n })

unfoldable pub allow : ℕ → CircuitBreaker → Bool
allow now b = leb b.tripped_until now

-- A run of failures, one at each of the times.
unfoldable pub failures : List ℕ → CircuitBreaker → CircuitBreaker
failures [] b = b
failures (now ∷ times) b = failures times (record_failure now b).1

failures_count :
    (times : List ℕ) (b : CircuitBreaker)
    → ((failures times b).consecutive ≡ b.consecutive + length times)
      × ((failures times b).max_rejects ≡ b.max_rejects)
      × ((failures times b).cool_down ≡ b.cool_down)
unfolding failures record_failure
failures_count [] b = ground arith
failures_count (now ∷ times) b = ground (arith, failures_count times (record_failure now b).1)

-- A failure trips the breaker exactly when it completes a run of `max_rejects` or more since the
-- last success, however long ago the run began; it then refuses until the cool-down is over.
pub failures_trip :
    (times : List ℕ) (now : ℕ) (b : CircuitBreaker)
    → b.consecutive ≡ 0
    → (((record_failure now (failures times b)).0 ≡ some trip) ↔ (b.max_rejects ≤ length times + 1))
unfolding record_failure
failures_trip times now b h = ground (arith, failures_count times b)

-- A tripped breaker refuses at every time before its cool-down ends, and at none after it.
pub trip_refuses :
    (now later : ℕ) (b b' : CircuitBreaker)
    → record_failure now b ≡ (some trip, b')
    → (allow later b' ≡ true) ↔ (now + b.cool_down ≤ later)
unfolding record_failure allow
trip_refuses now later b b' e = ground arith

-- A success makes the breaker start to count anew, and says so when the source was tripped; the
-- cool-down that is running stays.
pub record_success_restarts :
    (times : List ℕ) (b : CircuitBreaker)
    → b.consecutive ≡ 0
    → 0 < b.max_rejects
    → let (signal, b') = record_success (failures times b) in
      ((signal ≡ some reset) ↔ (b.max_rejects ≤ length times))
      × (b'.consecutive ≡ 0)
      × (b'.tripped_until ≡ (failures times b).tripped_until)
unfolding record_success
record_success_restarts times b h p = ground (arith, failures_count times b)
