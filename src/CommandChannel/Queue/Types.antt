-- ===== src/CommandChannel/Queue/Types.antt =====
-- The state of `CommandQueue`, the commands and the answers.
use crapssim_control.Prelude.{ℕ, ◌*◌, String, Bool, Option, List, [], default_to}
use crapssim_control.Prelude.Dict.{Dict}
use crapssim_control.CommandChannel.RateLimiter.{RateLimiter}
use crapssim_control.CommandChannel.CircuitBreaker.{CircuitBreaker}

-- `self.limits` after `_merge_limits`, with every key that the queue reads.
pub record Limits : Type 0 where
  pub queue_max_depth : ℕ
  pub per_source_quota : ℕ
  pub tokens : ℕ
  pub refill_seconds : ℕ
  pub consecutive_rejects : ℕ
  pub cool_down_seconds : ℕ

-- What a caller may give: each key may be left out.
pub record LimitOverrides : Type 0 where
  pub queue_max_depth : Option ℕ
  pub per_source_quota : Option ℕ
  pub tokens : Option ℕ
  pub refill_seconds : Option ℕ
  pub consecutive_rejects : Option ℕ
  pub cool_down_seconds : Option ℕ

-- `_merge_limits` over `DEFAULT_LIMITS`, at `second` ticks of the clock to a second
unfoldable pub merge_limits : ℕ → LimitOverrides → Limits
merge_limits second o = record {
  queue_max_depth = default_to 100 o.queue_max_depth;
  per_source_quota = default_to 40 o.per_source_quota;
  tokens = default_to 3 o.tokens;
  refill_seconds = default_to (2 * second) o.refill_seconds;
  consecutive_rejects = default_to 10 o.consecutive_rejects;
  cool_down_seconds = default_to (10 * second) o.cool_down_seconds;
}

abbrev pub Args : Type 0
Args = List (String × String)

-- A command as it arrives: each key may be missing. `replay` is the truth of `_csc_replay`.
pub record Command : Type 0 where
  pub run_id : Option String
  pub action : Option String
  pub args : Option Args
  pub source : Option String
  pub correlation_id : Option String
  pub replay : Bool

-- A command as it is queued.
pub record Payload : Type 0 where
  pub run_id : String
  pub action : String
  pub args : Args
  pub source : String
  pub correlation_id : String

-- One call of a rejection handler, which is known by a number.
pub record HandlerCall : Type 0 where
  pub handler : ℕ
  pub source : String
  pub reason : String

pub record CommandQueue : Type 0 where
  pub limits : Limits
  pub items : List Payload
  pub seen : List String
  pub per_source_counts : Dict String ℕ
  pub rate_limiters : Dict String RateLimiter
  pub circuit_breakers : Dict String CircuitBreaker
  pub enqueued : ℕ
  pub executed : ℕ
  pub rejected : Dict String ℕ
  pub rejection_handlers : List ℕ
  pub handler_calls : List HandlerCall

-- What `enqueue` returns; the last is the exception of a refill interval of 0.
pub data Outcome : Type 0 where
  accepted : Outcome
  rejected_for : String → Outcome
  zero_division : Outcome

unfoldable pub init : Limits → CommandQueue
init limits = record {
  limits = limits;
  items = [];
  seen = [];
  per_source_counts = [];
  rate_limiters = [];
  circuit_breakers = [];
  enqueued = 0;
  executed = 0;
  rejected = [];
  rejection_handlers = [];
  handler_calls = [];
}
