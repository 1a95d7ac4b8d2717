-- ===== src/Orchestration/Finished.antt =====
-- A run whose thread has taken its four steps is ended, and while steps are left it can take one.
use crapssim_control.Prelude.{
  ℕ, ◌+◌, ◌≤◌, ◌≡◌, ◌⊎◌, inl, inr, refl, String, Option, true, none, List, some, is_some, arith,
}
use crapssim_control.Orchestration.ControlSurface.{
  RunState, finished, error_state, stopping, Phase, in_runner, returned, raised, settled, timed,
  done, Run, launch, emits, returns, raises, settles, times, publishes, thread_step, checks, writes,
  flags, signals, stop_step, Step, thread, stop, step, play,
}
use crapssim_control.Orchestration.Ending.{
  steps_left, total_progress, play-Kept, play-steps_left, CanStep, can_step, three_ways,
}
use crapssim_control.Orchestration.Log.{ends_in, IsKept, play-IsKept}

-- What the state of a run tells of its error
abbrev pub Tells : RunState → Option String → Type 0
Tells finished error = error ≡ none
Tells error_state error = is_some error ≡ true
Tells _ error = Unit

-- The error of a run in each phase
abbrev ErrorAt : Phase → RunState → Option String → Type 0
ErrorAt in_runner state error = error ≡ none
ErrorAt returned state error = error ≡ none
ErrorAt raised state error = is_some error ≡ true
ErrorAt _ state error = Tells state error

abbrev HasError : Run → Type 0
HasError r = ErrorAt r.phase r.status.state r.status.error

step-HasError : (t : Step) (r next : Run) → step t r ≡ some next → HasError r → HasError next
unfolding thread_step stop_step
step-HasError (thread (emits event)) r next p h = ground arith
step-HasError (thread (returns dir)) r next p h = ground arith
step-HasError (thread (raises exc)) r next p h = ground arith
step-HasError (thread settles) r next p h = ground arith
step-HasError (thread (times now)) r next p h = ground arith
step-HasError (thread publishes) r next p h = ground arith
step-HasError (stop checks) r next p h = ground arith
step-HasError (stop writes) r next p h = ground arith
step-HasError (stop flags) r next p h = ground arith
step-HasError (stop signals) r next p h = ground arith

-- RUN_FINISHED is published once, the time of the end is set, and the state is final and fits the error.
abbrev pub IsEnded : Run → Type 0
IsEnded r =
    (ends_in r.published ≡ 1)
    × (is_some r.status.finished_at ≡ true)
    × ((r.status.state ≡ finished) ⊎ (r.status.state ≡ error_state) ⊎ (r.status.state ≡ stopping))
    × Tells r.status.state r.status.error

no_steps_left :
    (r : Run) (at : Phase) → r.phase ≡ at → steps_left at ≡ 0 → IsKept r → HasError r → IsEnded r
no_steps_left r in_runner p z k h = ground (arith, z)
no_steps_left r returned p z k h = ground (arith, z)
no_steps_left r raised p z k h = ground (arith, z)
no_steps_left r settled p z k h = ground (arith, z)
no_steps_left r timed p z k h = ground (arith, z)
no_steps_left r done p z (ends, time, state) h =
    (rw p at ends, rw p at time, rw p at state, rw p at h)

at_start : (at : Phase) → steps_left at ≡ 4 → at ≡ in_runner
at_start in_runner h = refl
at_start returned h = ground (arith, h)
at_start raised h = ground (arith, h)
at_start settled h = ground (arith, h)
at_start timed h = ground (arith, h)
at_start done h = ground (arith, h)

-- Whatever the callers of `stop` do in between, the thread of a launched run takes at most four steps but for the events
-- of its runner. Where it has taken all four the run has ended: RUN_FINISHED is published once, the time of the end is
-- set, and the state is finished without an error, error with one, or stopping. Where it has taken none it is in the
-- runner, and in between it can take its next step.
pub play_progresses :
    (run_id hint : String) (now : ℕ) (ts : List Step) (last : Run)
    → play ts (launch run_id hint now) ≡ some last
    → (total_progress ts ≤ 4)
      × ((last.phase ≡ in_runner) ⊎ ((total_progress ts ≡ 4) × IsEnded last) ⊎ CanStep last)
unfolding launch
play_progresses run_id hint now ts last p =
    let left : steps_left last.phase + total_progress ts ≡ 4 = play-steps_left ts _ last p in
    let few : total_progress ts ≤ 4 = omega (arith, left) in
    let kept : IsKept last = unfold launch in play-IsKept run_id hint now ts last p in
    let error : HasError last = play-Kept HasError step-HasError ts _ last p refl in
    elim (three_ways (total_progress ts) few) [
      | inl none_taken ↦ (few, inl (at_start last.phase (omega (arith, left, none_taken))))
      | inr (inl all_taken) ↦ (
        few,
        inr (inl (all_taken, no_steps_left last last.phase refl (omega (arith, left)) kept error)),
      )
      | inr (inr (more, less)) ↦ (
        few,
        inr (inr (can_step last last.phase refl (omega (arith, left)) (omega (arith, left)))),
      )
    ]
