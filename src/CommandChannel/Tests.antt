-- ===== src/CommandChannel/Tests.antt =====
-- Runs of the command channel, and the theorems at them.
use crapssim_control.Prelude.{
  ◌≡◌, ◌≢◌, ◌↔◌, ◌⊎◌, refl, String, true, false, none, some, List, [], ◌∷◌, arith, length,
}
use crapssim_control.Prelude.Dict.{lookup, insert, count, increment}
use crapssim_control.Prelude.Text.{strip}
use crapssim_control.CommandChannel.RateLimiter
use crapssim_control.CommandChannel.RateLimiter.{RateLimiter, allow_all, allow_all_burst}
use crapssim_control.CommandChannel.CircuitBreaker
use crapssim_control.CommandChannel.CircuitBreaker.{
  CircuitBreaker, trip, failures, failures_trip, trip_refuses,
}
use crapssim_control.CommandChannel.Queue.{
  Limits, Command, accepted, rejected_for, init, contains, limiter_of, breaker_of, set_limiter,
  set_breaker, missing_key, source_label, correlation_of, payload_of, enqueue, drain, reject,
  accept, enqueue_limited, enqueue_live, enqueue_known, malformed,
}
use crapssim_control.CommandChannel.Queue.View.{view, after, view-enqueue, IsWellFormed}
use crapssim_control.CommandChannel.Queue.Bounds.{
  IsAdmitted, IsBounded, accepted_exact, enqueue-IsBounded,
}
use crapssim_control.CommandChannel.Queue.Delivery.{
  Call, submit, collect, report, Run, step, run, start, IsFaithful, start-IsFaithful,
}
use crapssim_control.CommandChannel.Queue.Tripped.{trip_shuts_out}

-- A tick is a millisecond; one rejection trips the breaker.
abbrev limits : Limits
limits = record {
  queue_max_depth = 2;
  per_source_quota = 2;
  tokens = 3;
  refill_seconds = 2000;
  consecutive_rejects = 1;
  cool_down_seconds = 10000;
}

abbrev press : String → Command
press cid = record {
  run_id = some "r";
  action = some "press";
  args = some [];
  source = some "ui";
  correlation_id = some cid;
  replay = false;
}

abbrev session : List Call
session =
    submit 5 (press "a")
    ∷ submit 6 (press " b ")
    ∷ submit 7 (press "a")
    ∷ collect
    ∷ submit 8 (press "c")
    ∷ []

outcomes :
    ((enqueue 5 (press "a") (init limits)).0 ≡ accepted)
    × ((enqueue 5 (press "  ") (init limits)).0 ≡ rejected_for "missing:correlation_id")
    × (length (run session (start limits)).taken ≡ 2)
    × (length (run session (start limits)).delivered ≡ 2)
unfolding enqueue enqueue_known enqueue_live enqueue_limited malformed missing_key contains
    correlation_of source_label strip count increment lookup insert limiter_of breaker_of
    set_limiter set_breaker reject accept init run step drain payload_of RateLimiter.init
    RateLimiter.allow CircuitBreaker.init CircuitBreaker.allow CircuitBreaker.record_failure
outcomes = (refl, refl, refl, refl)

abbrev bucket : RateLimiter
bucket = record { tokens = 3; refill_seconds = 2000; available = 3; last_refill = 100 }

abbrev closed : CircuitBreaker
closed = record { max_rejects = 3; cool_down = 10; consecutive = 0; tripped_until = 0 }

view-enqueue_example :
    let (o, q) = enqueue 5 (press "a") (init limits) in
    view q ≡ after (press "a") o (view (init limits))
view-enqueue_example = view-enqueue 5 (press "a") (init limits)

accepted_exact_example : ((enqueue 5 (press "a") (init limits)).0 ≡ accepted) ↔ (
    IsWellFormed (press "a") (init limits)
    × ((false ≡ true) ⊎ IsAdmitted 5 (source_label (press "a")) (init limits)))
accepted_exact_example = accepted_exact 5 (press "a") (init limits)

init-IsBounded : IsBounded (init limits)
unfolding init count lookup
init-IsBounded = record { depth = omega arith; quota = λ s. omega arith }

enqueue-IsBounded_example : IsBounded (enqueue 5 (press "a") (init limits)).1
enqueue-IsBounded_example = enqueue-IsBounded 5 (press "a") (init limits) refl init-IsBounded

start-IsFaithful_example : IsFaithful (run session (start limits))
start-IsFaithful_example = start-IsFaithful limits session

-- A command without a correlation id is rejected.
abbrev nameless : Command
nameless = record (press "") { source = (press "a").source }

abbrev tripped : Run
tripped = step (submit 100 nameless) (start limits)

trip_shuts_out_example :
    (enqueue 9000 (press "a") (run (report 200 "ui" true none ∷ []) tripped).queue).0 ≢ accepted
unfolding breaker_of lookup init CircuitBreaker.init source_label enqueue malformed reject
    correlation_of strip
trip_shuts_out_example =
    trip_shuts_out 100 9000 (submit 100 nameless) (report 200 "ui" true none ∷ []) (start limits)
      (press "a") (refl, refl, refl) (omega arith) (omega arith) refl (omega arith)
