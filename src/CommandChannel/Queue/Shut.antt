-- ===== src/CommandChannel/Queue/Shut.antt =====
-- A circuit breaker that has tripped stays shut until the cool-down is over.
use crapssim_control.Prelude.{
  ℕ, leb, length, ◌+◌, ◌≤◌, String, ◌≡◌, refl, Bool, true, false, Option, none, some, List, [], ◌∷◌,
  arith, All, Option-cases, Bool-cases, inl, inr, str_eq, eq_iff, eq_refl, if◌then◌else◌,
}
use crapssim_control.Prelude.Dict.{String_Eq, lookup-insert, count}
use crapssim_control.CommandChannel.RateLimiter
use crapssim_control.CommandChannel.RateLimiter.{RateLimiter}
use crapssim_control.CommandChannel.CircuitBreaker
use crapssim_control.CommandChannel.CircuitBreaker.{CircuitBreaker}
use crapssim_control.CommandChannel.Queue.{
  Command, CommandQueue, Outcome, source_label, breaker_of, set_limiter, set_breaker, reject,
  accept, malformed, enqueue_live, enqueue_limited, enqueue_known, enqueue, limiter_of,
  zero_division, drain, record_outcome,
}
use crapssim_control.CommandChannel.Queue.Delivery.{Call, submit, collect, report, Run, step, run}

pub breaker-set_breaker :
    (k s : String) (b : CircuitBreaker) (q : CommandQueue)
    → breaker_of s (set_breaker k b q) ≡ (if str_eq k s then b else breaker_of s q)
unfolding breaker_of set_breaker
breaker-set_breaker k s b q = rw lookup-insert (ground arith)

-- A reported failure is a failure of the source's breaker, whatever the reason.
breaker-outcome :
    (now : ℕ) (k s : String) (reason : Option String) (q : CommandQueue)
    → breaker_of s (record_outcome now k false reason q).1
      ≡ breaker_of s (set_breaker k (CircuitBreaker.record_failure now (breaker_of k q)).1 q)
unfolding record_outcome breaker_of
breaker-outcome now k s none q = refl
breaker-outcome now k s (some r) q = elim (Bool-cases (str_eq r "")) [ inl e ↦ rw e | inr e ↦ rw e ]

module _ (start until : ℕ) (s : String) where
  -- The breaker of `s` is shut up to `until`, and a failure from `start` on cannot shorten that.
  abbrev pub IsShutBy : CircuitBreaker → Type 0
  IsShutBy b = (until ≤ b.tripped_until) × (until ≤ start + b.cool_down)

  abbrev pub IsShut : CommandQueue → Type 0
  IsShut q = IsShutBy (breaker_of s q)

  failure-IsShutBy :
      (now : ℕ) (b : CircuitBreaker)
      → start ≤ now
      → IsShutBy b
      → IsShutBy (CircuitBreaker.record_failure now b).1
  unfolding CircuitBreaker.record_failure
  failure-IsShutBy now b h shut = ground arith

  success-IsShutBy :
      (b : CircuitBreaker) → IsShutBy b → IsShutBy (CircuitBreaker.record_success b).1
  unfolding CircuitBreaker.record_success
  success-IsShutBy b shut = shut

  set_breaker-IsShut :
      (k : String) (b : CircuitBreaker) (q : CommandQueue)
      → IsShut q
      → (k ≡ s → IsShutBy b)
      → IsShut (set_breaker k b q)
  set_breaker-IsShut k b q shut h = rw breaker-set_breaker (ground (arith, eq_iff k s))

  -- In particular the breaker that is looked up, and that breaker after a failure.
  keep-IsShut :
      (k : String) (q : CommandQueue) → IsShut q → IsShut (set_breaker k (breaker_of k q) q)
  keep-IsShut k q shut = set_breaker-IsShut k (breaker_of k q) q shut (λ e. rw e shut)

  fail-IsShut :
      (now : ℕ) (k : String) (q : CommandQueue)
      → start ≤ now
      → IsShut q
      → IsShut (set_breaker k (CircuitBreaker.record_failure now (breaker_of k q)).1 q)
  fail-IsShut now k q h shut =
      set_breaker-IsShut k (CircuitBreaker.record_failure now (breaker_of k q)).1 q shut
        (λ e. failure-IsShutBy now (breaker_of k q) h (rw e shut))

  reject-IsShut :
      (now : ℕ) (k reason : String) (update : Bool) (q : CommandQueue)
      → start ≤ now
      → IsShut q
      → IsShut (reject now k reason update q).1
  unfolding reject breaker_of
  reject-IsShut now k reason true q h shut = fail-IsShut now k q h shut
  reject-IsShut now k reason false q h shut = shut

  limited-IsShut :
      (now : ℕ) (cmd : Command) (ok : Bool) (q : CommandQueue)
      → start ≤ now
      → IsShut q
      → IsShut (enqueue_limited now cmd ok q).1
  unfolding enqueue_limited accept
  limited-IsShut now cmd false q h shut =
      reject-IsShut now (source_label cmd) "rate_limited" true q h shut
  limited-IsShut now cmd true q h shut =
      let known = set_breaker (source_label cmd) (breaker_of (source_label cmd) q) q in
      let keep = keep-IsShut (source_label cmd) q shut in
      elim (Bool-cases (CircuitBreaker.allow now (breaker_of (source_label cmd) q))) [
        | inl e ↦ rw e (unfold breaker_of in keep)
        | inr e ↦ rw e (reject-IsShut now (source_label cmd) "circuit_breaker" false known h keep)
      ]

  set_limiter-IsShut :
      (k : String) (l : RateLimiter) (q : CommandQueue) → IsShut q → IsShut (set_limiter k l q)
  unfolding breaker_of set_limiter
  set_limiter-IsShut k l q shut = shut

  live-IsShut :
      (now : ℕ) (cmd : Command) (q : CommandQueue)
      → start ≤ now
      → IsShut q
      → IsShut (enqueue_live now cmd q).1
  unfolding enqueue_live
  live-IsShut now cmd q h shut = elim (Bool-cases (leb q.limits.queue_max_depth (length q.items))) [
    | inl e ↦ rw (e, enqueue_live) (reject-IsShut now (source_label cmd) "queue_full" true q h shut)
    | inr e ↦
        elim (Bool-cases
          (leb q.limits.per_source_quota (count (source_label cmd) q.per_source_counts))) [
            | inl f ↦
                rw (e, f, enqueue_live)
                  (reject-IsShut now (source_label cmd) "per_source_quota" true q h shut)
            | inr f ↦
                rw (e, f, enqueue_live)
                  (by_rate (RateLimiter.allow now (limiter_of now (source_label cmd) q)))
          ]
  ]
    where
      by_rate :
          (answer : Option (Bool × RateLimiter))
          → IsShut
              (elim answer as (λ a. Outcome × CommandQueue) [
                | none ↦ (
                  zero_division,
                  set_limiter (source_label cmd) (limiter_of now (source_label cmd) q) q,
                )
                | some (ok, l) ↦ enqueue_limited now cmd ok (set_limiter (source_label cmd) l q)
              ]).1
      by_rate none =
          set_limiter-IsShut (source_label cmd) (limiter_of now (source_label cmd) q) q shut
      by_rate (some (ok, l)) =
          limited-IsShut now cmd ok (set_limiter (source_label cmd) l q) h
            (set_limiter-IsShut (source_label cmd) l q shut)

  known-IsShut :
      (now : ℕ) (cmd : Command) (q : CommandQueue)
      → start ≤ now
      → IsShut q
      → IsShut (enqueue_known now cmd q).1
  unfolding enqueue_known accept
  known-IsShut now cmd q h shut = elim (Bool-cases cmd.replay) [
    | inl e ↦ simp (e, enqueue_known) (unfold breaker_of in keep-IsShut (source_label cmd) q shut)
    | inr e ↦ simp (e, enqueue_known) (live-IsShut now cmd q h shut)
  ]

  enqueue-IsShut :
      (now : ℕ) (cmd : Command) (q : CommandQueue)
      → start ≤ now
      → IsShut q
      → IsShut (enqueue now cmd q).1
  unfolding enqueue
  enqueue-IsShut now cmd q h shut = elim (Option-cases (malformed cmd q)) [
    | inl e ↦ rw (e, enqueue) (known-IsShut now cmd q h shut)
    | inr (reason, e) ↦ rw (e, enqueue) (reject-IsShut now (source_label cmd) reason true q h shut)
  ]

  outcome-IsShut :
      (now : ℕ) (k : String) (executed : Bool) (reason : Option String) (q : CommandQueue)
      → start ≤ now
      → IsShut q
      → IsShut (record_outcome now k executed reason q).1
  unfolding record_outcome
  outcome-IsShut now k true reason q h shut =
      unfold breaker_of in
      set_breaker-IsShut k (CircuitBreaker.record_success (breaker_of k q)).1 q shut
        (λ e. success-IsShutBy (breaker_of k q) (rw e shut))
  outcome-IsShut now k false reason q h shut =
      rw (breaker-outcome now k s reason q) (fail-IsShut now k q h shut)

  -- The call reads the clock at `start` or later.
  abbrev pub IsLate : Call → Type 0
  IsLate (submit now cmd) = start ≤ now
  IsLate collect = Unit
  IsLate (report now k executed reason) = start ≤ now

  step-IsShut : (c : Call) (r : Run) → IsLate c → IsShut r.queue → IsShut (step c r).queue
  unfolding step
  step-IsShut (submit now cmd) r h shut = enqueue-IsShut now cmd r.queue h shut
  step-IsShut collect r h shut = unfold drain breaker_of in shut
  step-IsShut (report now k executed reason) r h shut =
      outcome-IsShut now k executed reason r.queue h shut

  pub run-IsShut :
      (cs : List Call) (r : Run) → All IsLate cs → IsShut r.queue → IsShut (run cs r).queue
  unfolding run
  run-IsShut [] r h shut = shut
  run-IsShut (c ∷ cs) r h shut = run-IsShut cs (step c r) h.1 (step-IsShut c r h.0 shut)

pub outcome-trips :
    (now : ℕ) (s : String) (reason : Option String) (q : CommandQueue)
    → (breaker_of s q).max_rejects ≤ (breaker_of s q).consecutive + 1
    → IsShut now (now + (breaker_of s q).cool_down) s (record_outcome now s false reason q).1
unfolding CircuitBreaker.record_failure
outcome-trips now s reason q full =
    rw (breaker-outcome now s s reason q, breaker-set_breaker, eq_refl) (ground arith)
