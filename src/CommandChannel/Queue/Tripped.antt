-- ===== src/CommandChannel/Queue/Tripped.antt =====
-- A source whose circuit breaker trips, by a rejected command or a reported failure, is shut out.
use crapssim_control.Prelude.{
  ℕ, leb, length, ◌+◌, ◌<◌, ◌≤◌, String, ◌≡◌, ◌≢◌, Bool, true, false, Option, none, some, List,
  arith, All, Option-cases, Bool-cases, inl, inr, str_eq, eq_refl, sym,
}
use crapssim_control.Prelude.Dict.{String_Eq, count}
use crapssim_control.CommandChannel.RateLimiter
use crapssim_control.CommandChannel.RateLimiter.{RateLimiter}
use crapssim_control.CommandChannel.CircuitBreaker
use crapssim_control.CommandChannel.Queue.{
  Command, CommandQueue, Outcome, accepted, rejected_for, source_label, breaker_of, set_limiter,
  set_breaker, reject, accept, malformed, enqueue_live, enqueue_limited, enqueue_known, enqueue,
  limiter_of, zero_division,
}
use crapssim_control.CommandChannel.Queue.Bounds.{accepted_exact}
use crapssim_control.CommandChannel.Queue.Delivery.{Call, submit, collect, report, Run, step, run}
use crapssim_control.CommandChannel.Queue.Shut.{
  breaker-set_breaker, IsShut, run-IsShut, IsLate, outcome-trips,
}

-- A rejection that the breaker counts: any but its own.
abbrev pub IsCounted : Outcome → Type 0
IsCounted (rejected_for reason) = str_eq reason "circuit_breaker" ≡ false
IsCounted _ = true ≡ false

-- One more failure trips the breaker of the source.
abbrev pub IsFull : String → CommandQueue → Type 0
IsFull s q = (breaker_of s q).max_rejects ≤ (breaker_of s q).consecutive + 1

-- Shut from now on for the cool-down of the breaker as it was
abbrev ShutNow : ℕ → String → CommandQueue → CommandQueue → Type 0
ShutNow now s q after = IsShut now (now + (breaker_of s q).cool_down) s after

reject-trips :
    (now : ℕ) (s reason : String) (q : CommandQueue)
    → IsFull s q
    → ShutNow now s q (reject now s reason true q).1
unfolding reject breaker_of set_breaker CircuitBreaker.record_failure
reject-trips now s reason q full =
    let set = breaker-set_breaker s s (CircuitBreaker.record_failure now (breaker_of s q)).1 q in
    rw (set, eq_refl) (ground arith)

module _ (now : ℕ) (cmd : Command) where
  limited-trips :
      (ok : Bool) (q : CommandQueue)
      → IsFull (source_label cmd) q
      → IsCounted (enqueue_limited now cmd ok q).0
      → ShutNow now (source_label cmd) q (enqueue_limited now cmd ok q).1
  unfolding enqueue_limited accept reject
  limited-trips false q full c = reject-trips now (source_label cmd) "rate_limited" q full
  limited-trips true q full c =
      elim (Bool-cases (CircuitBreaker.allow now (breaker_of (source_label cmd) q))) [
        | inl e ↦ ground (arith, rw e at c)
        | inr e ↦ ground (arith, rw e at c)
      ]

  live-trips :
      (q : CommandQueue)
      → IsFull (source_label cmd) q
      → IsCounted (enqueue_live now cmd q).0
      → ShutNow now (source_label cmd) q (enqueue_live now cmd q).1
  unfolding enqueue_live
  live-trips q full c = elim (Bool-cases (leb q.limits.queue_max_depth (length q.items))) [
    | inl e ↦ rw (e, enqueue_live) (reject-trips now (source_label cmd) "queue_full" q full)
    | inr e ↦
        elim (Bool-cases
          (leb q.limits.per_source_quota (count (source_label cmd) q.per_source_counts))) [
            | inl f ↦
                rw (e, f, enqueue_live)
                  (reject-trips now (source_label cmd) "per_source_quota" q full)
            | inr f ↦
                rw (e, f, enqueue_live)
                  (by_rate (RateLimiter.allow now (limiter_of now (source_label cmd) q))
                    (rw (e, f, enqueue_live) at c))
          ]
  ]
    where
      by_rate :
          (answer : Option (Bool × RateLimiter))
          → let r = elim answer as (λ a. Outcome × CommandQueue) [
            | none ↦ (
              zero_division,
              set_limiter (source_label cmd) (limiter_of now (source_label cmd) q) q,
            )
            | some (ok, l) ↦ enqueue_limited now cmd ok (set_limiter (source_label cmd) l q)
          ] in
            IsCounted r.0 → ShutNow now (source_label cmd) q r.1
      by_rate none d = ground (arith, d)
      by_rate (some (ok, l)) d =
          unfold breaker_of set_limiter in
          limited-trips ok (set_limiter (source_label cmd) l q) full d

  enqueue-trips :
      (q : CommandQueue)
      → IsFull (source_label cmd) q
      → IsCounted (enqueue now cmd q).0
      → ShutNow now (source_label cmd) q (enqueue now cmd q).1
  unfolding enqueue enqueue_known accept enqueue_live source_label
  enqueue-trips q full c = elim (Option-cases (malformed cmd q)) [
    | inr (reason, e) ↦ rw (e, enqueue) (reject-trips now (source_label cmd) reason q full)
    | inl e ↦ elim (Bool-cases cmd.replay) [
      | inl f ↦ ground (arith, rw (e, f, enqueue) at c)
      | inr f ↦ rw (e, f, enqueue) (live-trips q full (rw (e, f, enqueue) at c))
    ]
  ]

-- The call is a failure of the source at the time `now`: a rejection of its command, but for one by the breaker, or a
-- reported failure.
abbrev pub Fails : ℕ → String → CommandQueue → Call → Type 0
Fails now s q (submit at cmd) = (at ≡ now) × (source_label cmd ≡ s) × IsCounted (enqueue at cmd q).0
Fails now s q collect = true ≡ false
Fails now s q (report at k executed reason) = (at ≡ now) × (k ≡ s) × (executed ≡ false)

failed-trips :
    (now : ℕ) (s : String) (c : Call) (r : Run)
    → Fails now s r.queue c
    → IsFull s r.queue
    → ShutNow now s r.queue (step c r).queue
unfolding step
failed-trips now s (submit at cmd) r (e, k, counted) full =
    rw (sym e, sym k) (enqueue-trips at cmd r.queue (rw (sym k) at full) counted)
failed-trips now s collect r h full = ground (arith, h)
failed-trips now s (report at k executed reason) r (e, f, failed) full =
    rw (sym e, sym f, failed) (outcome-trips at k reason r.queue (rw (sym f) at full))

-- Once a failure at the time `now` trips a source's breaker, a rejected command (but for one that the breaker itself
-- rejects) or a failure that is reported, then whatever is called from then on, successes of the source included, none
-- of its commands is accepted before the cool-down is over, unless it is replayed.
pub trip_shuts_out :
    (now later : ℕ) (trip : Call) (cs : List Call) (r : Run) (cmd : Command)
    → let b = breaker_of (source_label cmd) r.queue in
      Fails now (source_label cmd) r.queue trip
      → IsFull (source_label cmd) r.queue
      → All (IsLate now (now + b.cool_down) (source_label cmd)) cs
      → cmd.replay ≡ false
      → later < now + b.cool_down
      → (enqueue later cmd (run cs (step trip r)).queue).0 ≢ accepted
unfolding CircuitBreaker.allow
trip_shuts_out now later trip cs r cmd fails full late live early e =
    let b = breaker_of (source_label cmd) r.queue in
    let shut =
      run-IsShut now (now + b.cool_down) (source_label cmd) cs (step trip r) late
        (failed-trips now (source_label cmd) trip r fails full) in
    ground (arith, shut, (accepted_exact later cmd (run cs (step trip r)).queue).0 e)
