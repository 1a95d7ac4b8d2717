-- ===== src/CommandChannel/Queue.antt =====
-- `CommandQueue`. One call holds the lock from end to end, so a call is a function of the state; it
-- reads the clock once, as `now`. The values of a command are texts, and its `args` are passed on
-- unread. Reading a count from a defaultdict is a lookup with the default 0.
mod Types
pub mod View
pub mod Consistent
pub mod Bounds
pub mod Delivery
pub mod Shut
pub mod Tripped
pub use Types.{
  Limits, LimitOverrides, Args, Command, Payload, HandlerCall, CommandQueue, Outcome, accepted,
  rejected_for, zero_division,
}
unfoldable pub use Types.{merge_limits, init}
use crapssim_control.Prelude.{
  ℕ, suc, ◌+◌, String, Bool, true, false, ◌||◌, Option, none, some, List, [], ◌∷◌, ◌++◌, map,
  length, leb, if◌then◌else◌, not, ◌==◌, default_to, is_some, str_eq,
}
use crapssim_control.Prelude.Dict.{Dict, String_Eq, lookup, insert, count, increment}
use crapssim_control.Prelude.Text.{strip}
use crapssim_control.CommandChannel.RateLimiter
use crapssim_control.CommandChannel.RateLimiter.{RateLimiter}
use crapssim_control.CommandChannel.CircuitBreaker
use crapssim_control.CommandChannel.CircuitBreaker.{CircuitBreaker}

unfoldable pub contains : String → List String → Bool
contains k [] = false
contains k (j ∷ js) = str_eq j k || contains k js

-- `_get_limiter`: the limiter of a source, made on first use
unfoldable pub limiter_of : ℕ → String → CommandQueue → RateLimiter
limiter_of now source q =
    default_to (RateLimiter.init q.limits.tokens q.limits.refill_seconds now)
      (lookup source q.rate_limiters)

-- `_get_breaker`
unfoldable pub breaker_of : String → CommandQueue → CircuitBreaker
breaker_of source q =
    default_to (CircuitBreaker.init q.limits.consecutive_rejects q.limits.cool_down_seconds)
      (lookup source q.circuit_breakers)

unfoldable pub set_limiter : String → RateLimiter → CommandQueue → CommandQueue
set_limiter source l q = record q { rate_limiters = insert source l q.rate_limiters }

unfoldable pub set_breaker : String → CircuitBreaker → CommandQueue → CommandQueue
set_breaker source b q = record q { circuit_breakers = insert source b q.circuit_breakers }

pub elem_ℕ : ℕ → List ℕ → Bool
elem_ℕ n [] = false
elem_ℕ n (m ∷ ms) = m == n || elem_ℕ n ms

unfoldable pub add_rejection_handler : ℕ → CommandQueue → CommandQueue
unfolding elem_ℕ
add_rejection_handler h q =
    if elem_ℕ h q.rejection_handlers
    then q
    else record q { rejection_handlers = q.rejection_handlers ++ h ∷ [] }

-- `_reject_locked`. A handler's exception is caught, so that a call is only its argument.
unfoldable pub reject : ℕ → String → String → Bool → CommandQueue → Outcome × CommandQueue
reject now source reason update_breaker q =
    let q' =
      if update_breaker
      then set_breaker source (CircuitBreaker.record_failure now (breaker_of source q)).1 q
      else q in
    (
      rejected_for reason,
      record q' {
        rejected = increment reason q'.rejected;
        handler_calls =
            q'.handler_calls
            ++ map (λ h. record { handler = h; source = source; reason = reason })
                q'.rejection_handlers;
      },
    )

-- The first key of `REQUIRED_KEYS`, in order, that is missing.
unfoldable pub missing_key : Command → Option String
missing_key cmd =
    if not (is_some cmd.action)
    then some "missing:action"
    else if not (is_some cmd.args)
    then some "missing:args"
    else if not (is_some cmd.correlation_id)
    then some "missing:correlation_id"
    else if not (is_some cmd.run_id)
    then some "missing:run_id"
    else if not (is_some cmd.source)
    then some "missing:source"
    else none

abbrev pub allowed_actions : List String
allowed_actions =
    "switch_profile" ∷ "regress" ∷ "press" ∷ "same_bet" ∷ "apply_policy" ∷ "martingale" ∷ []

unfoldable pub source_label : Command → String
source_label cmd = default_to "external" cmd.source

unfoldable pub correlation_of : Command → String
correlation_of cmd = strip (default_to "" cmd.correlation_id)

unfoldable pub payload_of : Command → Payload
payload_of cmd = record {
  run_id = default_to "" cmd.run_id;
  action = default_to "" cmd.action;
  args = default_to [] cmd.args;
  source = source_label cmd;
  correlation_id = correlation_of cmd;
}

-- The end of `enqueue`
unfoldable pub accept : Command → CommandQueue → Outcome × CommandQueue
accept cmd q = (
  accepted,
  record q {
    items = q.items ++ payload_of cmd ∷ [];
    seen = correlation_of cmd ∷ q.seen;
    per_source_counts = increment (source_label cmd) q.per_source_counts;
    enqueued = q.enqueued + 1;
  },
)

-- After the rate limiter has answered `ok`: the circuit breaker, then acceptance.
unfoldable pub enqueue_limited : ℕ → Command → Bool → CommandQueue → Outcome × CommandQueue
enqueue_limited now cmd false q = reject now (source_label cmd) "rate_limited" true q
enqueue_limited now cmd true q =
    let source = source_label cmd in
    let known = set_breaker source (breaker_of source q) q in
    if CircuitBreaker.allow now (breaker_of source q)
    then accept cmd known
    else reject now source "circuit_breaker" false known

-- The tests that a replayed command skips: depth, quota, rate and breaker.
unfoldable pub enqueue_live : ℕ → Command → CommandQueue → Outcome × CommandQueue
enqueue_live now cmd q =
    let source = source_label cmd in
    if leb q.limits.queue_max_depth (length q.items)
    then reject now source "queue_full" true q
    else if leb q.limits.per_source_quota (count source q.per_source_counts)
    then reject now source "per_source_quota" true q
    else elim (RateLimiter.allow now (limiter_of now source q)) [
      | none ↦ (zero_division, set_limiter source (limiter_of now source q) q)
      | some (ok, l) ↦ enqueue_limited now cmd ok (set_limiter source l q)
    ]

-- After the tests on the command itself
unfoldable pub enqueue_known : ℕ → Command → CommandQueue → Outcome × CommandQueue
enqueue_known now cmd q =
    if cmd.replay
    then accept cmd (set_breaker (source_label cmd) (breaker_of (source_label cmd) q) q)
    else enqueue_live now cmd q

-- What is wrong with a command, whatever the limits.
unfoldable pub malformed : Command → CommandQueue → Option String
malformed cmd q =
    if str_eq (correlation_of cmd) ""
    then some "missing:correlation_id"
    else elim (missing_key cmd) [
      | some reason ↦ some reason
      | none ↦
          if not (contains (default_to "" cmd.action) allowed_actions)
          then some "unknown_action"
          else if contains (correlation_of cmd) q.seen
          then some "timing:duplicate_correlation_id"
          else none
    ]

unfoldable pub enqueue : ℕ → Command → CommandQueue → Outcome × CommandQueue
enqueue now cmd q = elim (malformed cmd q) [
  | some reason ↦ reject now (source_label cmd) reason true q
  | none ↦ enqueue_known now cmd q
]

unfoldable pub drain : CommandQueue → List Payload × CommandQueue
drain q = (q.items, record q { items = []; per_source_counts = [] })

-- `record_outcome`; the result is `circuit_breaker_reset`
unfoldable pub record_outcome :
    ℕ → String → Bool → Option String → CommandQueue → Bool × CommandQueue
record_outcome now source true reason q =
    let (signal, b) = CircuitBreaker.record_success (breaker_of source q) in
    let q' = set_breaker source b q in (is_some signal, record q' { executed = q'.executed + 1 })
record_outcome now source false reason q =
    let (signal, b) = CircuitBreaker.record_failure now (breaker_of source q) in
    let q' = set_breaker source b q in
    (
      false,
      elim reason [
        | none ↦ q'
        | some r ↦ if str_eq r "" then q' else record q' { rejected = increment r q'.rejected }
      ],
    )
