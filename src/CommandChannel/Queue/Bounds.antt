-- ===== src/CommandChannel/Queue/Bounds.antt =====
-- When a command is accepted, and that the limits hold.
use crapssim_control.Prelude.{
  ℕ, ◌<◌, ◌≤◌, String, ◌≡◌, ◌↔◌, refl, Bool, true, false, Option, none, some, [], ◌∷◌, arith,
  length, length-append, Option-cases, inl, inr, eq_iff, ◌⊎◌, ap,
}
use crapssim_control.CommandChannel.RateLimiter
use crapssim_control.CommandChannel.RateLimiter.{RateLimiter}
use crapssim_control.CommandChannel.CircuitBreaker
use crapssim_control.CommandChannel.Queue.{
  Command, CommandQueue, Outcome, accepted, source_label, payload_of, limiter_of, breaker_of,
  set_limiter, set_breaker, reject, accept, malformed, enqueue_live, enqueue_limited, enqueue_known,
  enqueue,
}
use crapssim_control.CommandChannel.Queue.View.{
  View, view, after, view-enqueue, IsWellFormed, malformed-none, reject_refuses,
}
use crapssim_control.Prelude.Dict.{String_Eq, count, count-increment}

-- The rate limiter lets the call pass.
abbrev pub passes : Option (Bool × RateLimiter) → Bool
passes none = false
passes (some (ok, l)) = ok

-- A command that is not replayed finds room, quota, a token and a closed breaker.
pub record IsAdmitted (now : ℕ) (source : String) (q : CommandQueue) : Type 0 where
  pub room : length q.items < q.limits.queue_max_depth
  pub quota : count source q.per_source_counts < q.limits.per_source_quota
  pub rate : passes (RateLimiter.allow now (limiter_of now source q)) ≡ true
  pub breaker : CircuitBreaker.allow now (breaker_of source q) ≡ true

breaker-set_limiter :
    (source s : String) (l : RateLimiter) (q : CommandQueue)
    → breaker_of source (set_limiter s l q) ≡ breaker_of source q
unfolding breaker_of set_limiter
breaker-set_limiter source s l q = refl

live_exact :
    (now : ℕ) (cmd : Command) (q : CommandQueue)
    → ((enqueue_live now cmd q).0 ≡ accepted) ↔ IsAdmitted now (source_label cmd) q
unfolding enqueue_live enqueue_limited reject accept set_limiter breaker_of
live_exact now cmd q = ground arith

-- A command is accepted exactly if it is well-formed and either replayed or within every limit: room
-- in the queue, quota of its source, a token of the rate limiter and a closed circuit breaker.
pub accepted_exact :
    (now : ℕ) (cmd : Command) (q : CommandQueue)
    → ((enqueue now cmd q).0 ≡ accepted)
      ↔ (IsWellFormed cmd q × ((cmd.replay ≡ true) ⊎ IsAdmitted now (source_label cmd) q))
unfolding enqueue enqueue_known accept
accepted_exact now cmd q = elim (Option-cases (malformed cmd q)) [
  | inl fits ↦ ground (arith, fits, malformed-none cmd q, live_exact now cmd q)
  | inr (reason, e) ↦
      ground (arith, e, malformed-none cmd q, reject_refuses now (source_label cmd) reason true q)
]

-- The queue holds at most `queue_max_depth` commands, at most `per_source_quota` of one source.
pub record IsBounded (q : CommandQueue) : Type 0 where
  pub depth : length q.items ≤ q.limits.queue_max_depth
  pub quota : (s : String) → count s q.per_source_counts ≤ q.limits.per_source_quota

limits-enqueue :
    (now : ℕ) (cmd : Command) (q : CommandQueue) → (enqueue now cmd q).1.limits ≡ q.limits
unfolding enqueue enqueue_known enqueue_live enqueue_limited reject accept set_limiter set_breaker
limits-enqueue now cmd q = ground arith

after-IsBounded :
    (now : ℕ) (cmd : Command) (q q' : CommandQueue) (o : Outcome)
    → IsBounded q
    → q'.limits ≡ q.limits
    → view q' ≡ after cmd o (view q)
    → (o ≡ accepted → IsAdmitted now (source_label cmd) q)
    → IsBounded q'
after-IsBounded now cmd q q' accepted b l v fits = record {
  depth =
      rw (ap (λ (w : View). w.items) v, l)
        (omega (arith, length-append q.items (payload_of cmd ∷ []), (fits refl).room));
  quota = λ s.
      rw (ap (λ (w : View). w.per_source_counts) v, l)
        (ground (
          arith,
          count-increment (source_label cmd) s q.per_source_counts,
          eq_iff (source_label cmd) s,
          b.quota s,
          (fits refl).quota,
        ));
}
after-IsBounded now cmd q q' _ b l v fits = record {
  depth = rw (ap (λ (w : View). w.items) v, l) b.depth;
  quota = λ s. rw (ap (λ (w : View). w.per_source_counts) v, l) (b.quota s);
}

-- Commands that are not replayed keep the queue within its limits, accepted or not.
pub enqueue-IsBounded :
    (now : ℕ) (cmd : Command) (q : CommandQueue)
    → cmd.replay ≡ false
    → IsBounded q
    → IsBounded (enqueue now cmd q).1
enqueue-IsBounded now cmd q live b =
    after-IsBounded now cmd q (enqueue now cmd q).1 (enqueue now cmd q).0 b
      (limits-enqueue now cmd q) (view-enqueue now cmd q)
      (λ e. ground (arith, (accepted_exact now cmd q).0 e))
