-- ===== src/Orchestration/Log.antt =====
-- What a run has published, and its status, in every phase.
use crapssim_control.Prelude.{
  ℕ, ◌+◌, ◌≤◌, ◌≡◌, ◌⊎◌, inl, refl, String, Bool, true, false, some, List, [], ◌∷◌, ◌++◌, is_some,
  arith,
}
use crapssim_control.Orchestration.ControlSurface.{
  RunState, running, stopping, finished, error_state, Message, run_event, run_stop_signal,
  run_finished, Phase, settled, timed, done, Run, is_running, launch, emits, returns, raises,
  settles, times, publishes, thread_step, checks, writes, flags, signals, stop_step, Step, thread,
  stop, step, play,
}
use crapssim_control.Orchestration.Ending.{play-Kept, steps_left}

abbrev is_end : Message → ℕ
is_end (run_finished state error) = 1
is_end _ = 0

-- How often RUN_FINISHED is published
abbrev pub ends_in : List Message → ℕ
ends_in [] = 0
ends_in (m ∷ ms) = is_end m + ends_in ms

ends_in-append : (ms : List Message) (m : Message) → ends_in (ms ++ m ∷ []) ≡ ends_in ms + is_end m
ends_in-append [] m = omega arith
ends_in-append (n ∷ ms) m = omega (arith, ends_in-append ms m)

abbrev pub ended : Phase → ℕ
ended done = 1
ended _ = 0

abbrev pub has_time : Phase → Bool
has_time timed = true
has_time done = true
has_time _ = false

-- The states that a run may be in
abbrev pub MayBe : Phase → RunState → Type 0
MayBe settled state = (state ≡ finished) ⊎ (state ≡ error_state) ⊎ (state ≡ stopping)
MayBe timed state = (state ≡ finished) ⊎ (state ≡ error_state) ⊎ (state ≡ stopping)
MayBe done state = (state ≡ finished) ⊎ (state ≡ error_state) ⊎ (state ≡ stopping)
MayBe _ state = (state ≡ running) ⊎ (state ≡ stopping)

abbrev pub IsKept : Run → Type 0
IsKept r =
    (ends_in r.published ≡ ended r.phase)
    × (is_some r.status.finished_at ≡ has_time r.phase)
    × MayBe r.phase r.status.state

step-IsKept : (t : Step) (r next : Run) → step t r ≡ some next → IsKept r → IsKept next
unfolding thread_step stop_step
step-IsKept (thread (emits event)) r next p h =
    ground (arith, ends_in-append r.published (run_event event))
step-IsKept (thread (returns dir)) r next p h = ground arith
step-IsKept (thread (raises exc)) r next p h = ground arith
step-IsKept (thread settles) r next p h = ground arith
step-IsKept (thread (times now)) r next p h = ground arith
step-IsKept (thread publishes) r next p h =
    ground (arith, ends_in-append r.published (run_finished r.status.state r.status.error))
step-IsKept (stop checks) r next p h = ground arith
step-IsKept (stop writes) r next p h = ground arith
step-IsKept (stop flags) r next p h = ground arith
step-IsKept (stop signals) r next p h = ground (arith, ends_in-append r.published run_stop_signal)

-- Under every schedule of the thread and of callers of `stop`, a launched run has published RUN_FINISHED once if
-- its thread is done and never before, it has a time of its end from the step that sets it on, and its state is
-- running or stopping until it is settled and finished, error or stopping from then on.
pub play-IsKept :
    (run_id hint : String) (now : ℕ) (ts : List Step) (last : Run)
    → play ts (launch run_id hint now) ≡ some last
    → IsKept last
unfolding launch
play-IsKept run_id hint now ts last p =
    play-Kept IsKept step-IsKept ts (launch run_id hint now) last p (refl, refl, inl refl)

-- The state is final, and no call of `stop` stands between its check and its write.
abbrev pub IsFinal : Run → Type 0
IsFinal r = (steps_left r.phase ≤ 2) × (r.checked ≡ 0) × (is_running r.status.state ≡ false)

abbrev FinalAs : RunState → Run → Type 0
FinalAs state r = IsFinal r × (r.status.state ≡ state)

step-FinalAs :
    (state : RunState) (t : Step) (r next : Run)
    → step t r ≡ some next
    → FinalAs state r
    → FinalAs state next
unfolding thread_step stop_step
step-FinalAs state (thread (emits event)) r next p h = ground arith
step-FinalAs state (thread (returns dir)) r next p h = ground arith
step-FinalAs state (thread (raises exc)) r next p h = ground arith
step-FinalAs state (thread settles) r next p h = ground arith
step-FinalAs state (thread (times now)) r next p h = ground arith
step-FinalAs state (thread publishes) r next p h = ground arith
step-FinalAs state (stop checks) r next p h = ground arith
step-FinalAs state (stop writes) r next p h = ground arith
step-FinalAs state (stop flags) r next p h = ground arith
step-FinalAs state (stop signals) r next p h = ground arith

-- A final state stays as it is under every schedule, provided that no call of `stop` has checked the state and not
-- yet written it.
pub state-play :
    (ts : List Step) (r last : Run)
    → play ts r ≡ some last
    → IsFinal r
    → last.status.state ≡ r.status.state
state-play ts r last p h =
    (play-Kept (FinalAs r.status.state) (step-FinalAs r.status.state) ts r last p (h, refl)).1
