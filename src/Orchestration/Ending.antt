-- ===== src/Orchestration/Ending.antt =====
-- The steps that the thread of a run has left, and that it can take one while it has.
use crapssim_control.Prelude.{
  ℕ, ◌+◌, ◌≤◌, ◌≡◌, ◌⊎◌, inl, inr, ap, sym, true, none, some, List, [], ◌∷◌, Option-cases,
  default_to, is_some, arith,
}
use crapssim_control.Orchestration.ControlSurface.{
  Phase, in_runner, returned, raised, settled, timed, done, Run, ThreadStep, emits, returns, raises,
  settles, times, publishes, thread_step, checks, writes, flags, signals, stop_step, Step, thread,
  stop, step, play,
}

-- How many steps the thread is from its end
abbrev pub steps_left : Phase → ℕ
steps_left in_runner = 4
steps_left returned = 3
steps_left raised = 3
steps_left settled = 2
steps_left timed = 1
steps_left done = 0

abbrev thread_progress : ThreadStep → ℕ
thread_progress (emits event) = 0
thread_progress _ = 1

abbrev progress : Step → ℕ
progress (thread t) = thread_progress t
progress (stop t) = 0

-- The steps of a schedule that bring the thread forward
abbrev pub total_progress : List Step → ℕ
total_progress [] = 0
total_progress (t ∷ ts) = progress t + total_progress ts

step-steps_left :
    (t : Step) (r next : Run)
    → step t r ≡ some next
    → steps_left next.phase + progress t ≡ steps_left r.phase
unfolding thread_step stop_step
step-steps_left (thread (emits event)) r next p = ground arith
step-steps_left (thread (returns dir)) r next p = ground arith
step-steps_left (thread (raises exc)) r next p = ground arith
step-steps_left (thread settles) r next p = ground arith
step-steps_left (thread (times now)) r next p = ground arith
step-steps_left (thread publishes) r next p = ground arith
step-steps_left (stop checks) r next p = ground arith
step-steps_left (stop writes) r next p = ground arith
step-steps_left (stop flags) r next p = ground arith
step-steps_left (stop signals) r next p = ground arith

-- The first step of a schedule, and the rest of it.
absurd_none : {P : Type 0} {last : Run} → none ≡ some last → P
absurd_none p = ground (arith, p)

play_first :
    (t : Step) (ts : List Step) (r last : Run)
    → play (t ∷ ts) r ≡ some last
    → (next : Run) × (step t r ≡ some next) × (play ts next ≡ some last)
unfolding play
play_first t ts r last p = elim (Option-cases (step t r)) [
  | inl e ↦ absurd_none (rw (e, play) at p)
  | inr (next, e) ↦ (next, e, rw (e, play) at p)
]

-- What every step keeps, a schedule keeps.
pub play-Kept {ℓ} :
    (P : Run → Type ℓ)
    → ((t : Step) (r next : Run) → step t r ≡ some next → P r → P next)
    → (ts : List Step) (r last : Run) → play ts r ≡ some last
    → P r
    → P last
unfolding play
play-Kept P keep [] r last p h = rw (sym (ap (default_to r) p)) h
play-Kept P keep (t ∷ ts) r last p h =
    let (next, e, q) = play_first t ts r last p in
    play-Kept P keep ts next last q (keep t r next e h)

pub play-steps_left :
    (ts : List Step) (r last : Run)
    → play ts r ≡ some last
    → steps_left last.phase + total_progress ts ≡ steps_left r.phase
unfolding play
play-steps_left [] r last p = ground arith
play-steps_left (t ∷ ts) r last p =
    let (next, e, q) = play_first t ts r last p in
    omega (arith, step-steps_left t r next e, play-steps_left ts next last q)

-- Between the runner and its end, the thread can always take a step.
abbrev pub CanStep : Run → Type 0
CanStep r = (t : ThreadStep) × (is_some (thread_step t r) ≡ true)

pub can_step :
    (r : Run) (at : Phase) → r.phase ≡ at → 1 ≤ steps_left at → steps_left at ≤ 3 → CanStep r
unfolding thread_step
can_step r in_runner p more less = ground arith
can_step r returned p more less = (settles, ground (arith, p))
can_step r raised p more less = (settles, ground (arith, p))
can_step r settled p more less = (times 0, ground (arith, p))
can_step r timed p more less = (publishes, ground (arith, p))
can_step r done p more less = ground arith

pub three_ways : (n : ℕ) → n ≤ 4 → (n ≡ 0) ⊎ (n ≡ 4) ⊎ ((1 ≤ n) × (n ≤ 3))
three_ways n le = ground arith
