-- ===== src/Orchestration/ControlSurface.antt =====
-- `ControlSurface`: `launch`, the thread of a run, `status` and `stop`. The thread and the callers of `stop`
-- share the status without a lock, so that each of their writes is a step of its own; a schedule is a
-- list of steps. The runner, the clock and the plugins are given by the steps.
use crapssim_control.Prelude.{
  ℕ, zero, suc, ◌+◌, String, Bool, true, false, Option, none, some, List, [], ◌∷◌, ◌++◌,
  if◌then◌else◌,
}

pub data RunState : Type 0 where
  idle running stopping finished error_state : RunState

pub record RunStatus : Type 0 where
  pub run_id : String
  pub state : RunState
  pub started_at : Option ℕ
  pub finished_at : Option ℕ
  pub artifacts_dir : Option String
  pub error : Option String

-- What is published, by its `type`; an event of the runner's is a text.
pub data Message : Type 0 where
  run_started : String → Message
  run_event : String → Message
  run_stop_signal : Message
  run_finished : RunState → Option String → Message

-- Where the thread is: in the runner, after it has returned or raised, after the state is final, after the time of
-- the end is set, and after RUN_FINISHED is published.
pub data Phase : Type 0 where
  in_runner returned raised settled timed done : Phase

-- A run, with how many calls of `stop` are after their check, after their write of the state, and after they have
-- set the flag.
pub record Run : Type 0 where
  pub status : RunStatus
  pub stop_flag : Bool
  pub phase : Phase
  pub checked : ℕ
  pub written : ℕ
  pub flagged : ℕ
  pub published : List Message

abbrev pub is_running : RunState → Bool
is_running running = true
is_running _ = false

-- `launch`
unfoldable pub launch : String → String → ℕ → Run
launch run_id spec_hint now = record {
  status = record {
    run_id = run_id;
    state = running;
    started_at = some now;
    finished_at = none;
    artifacts_dir = none;
    error = none;
  };
  stop_flag = false;
  phase = in_runner;
  checked = 0;
  written = 0;
  flagged = 0;
  published = run_started spec_hint ∷ [];
}

-- The steps of the thread
pub data ThreadStep : Type 0 where
  emits : String → ThreadStep
  returns : Option String → ThreadStep
  raises : String → ThreadStep
  settles : ThreadStep
  times : ℕ → ThreadStep
  publishes : ThreadStep

abbrev publish : Message → Run → Run
publish m r = record r { published = r.published ++ m ∷ [] }

-- `run_thread`; `none` where the thread is elsewhere.
unfoldable pub thread_step : ThreadStep → Run → Option Run
thread_step (emits event) r = elim r.phase [
  | in_runner ↦ some (publish (run_event event) r)
  | _ ↦ none
]
thread_step (returns dir) r = elim r.phase [
  | in_runner ↦
      some (record r { status = record (r.status) { artifacts_dir = dir }; phase = returned })
  | _ ↦ none
]
thread_step (raises exc) r = elim r.phase [
  | in_runner ↦ some (record r { status = record (r.status) { error = some exc }; phase = raised })
  | _ ↦ none
]
thread_step settles r = elim r.phase [
  | returned ↦ some (record r { status = record (r.status) { state = finished }; phase = settled })
  | raised ↦ some (record r { status = record (r.status) { state = error_state }; phase = settled })
  | _ ↦ none
]
thread_step (times now) r = elim r.phase [
  | settled ↦
      some (record r { status = record (r.status) { finished_at = some now }; phase = timed })
  | _ ↦ none
]
thread_step publishes r = elim r.phase [
  | timed ↦ some (publish (run_finished r.status.state r.status.error) (record r { phase = done }))
  | _ ↦ none
]

-- The steps of a call of `stop` that does not return False
pub data StopStep : Type 0 where
  checks writes flags signals : StopStep

-- `stop`
unfoldable pub stop_step : StopStep → Run → Option Run
stop_step checks r =
    if is_running r.status.state then some (record r { checked = r.checked + 1 }) else none
stop_step writes r = elim r.checked [
  | zero ↦ none
  | suc n ↦ some (record r {
    status = record (r.status) { state = stopping };
    checked = n;
    written = r.written + 1;
  })
]
stop_step flags r = elim r.written [
  | zero ↦ none
  | suc n ↦ some (record r { stop_flag = true; written = n; flagged = r.flagged + 1 })
]
stop_step signals r = elim r.flagged [
  | zero ↦ none
  | suc n ↦ some (publish run_stop_signal (record r { flagged = n }))
]

pub data Step : Type 0 where
  thread : ThreadStep → Step
  stop : StopStep → Step

abbrev pub step : Step → Run → Option Run
step (thread t) r = thread_step t r
step (stop t) r = stop_step t r

-- A schedule, from a run; `none` where a step of it is not possible.
unfoldable pub play : List Step → Run → Option Run
play [] r = some r
play (t ∷ ts) r = elim (step t r) [ none ↦ none | some next ↦ play ts next ]
