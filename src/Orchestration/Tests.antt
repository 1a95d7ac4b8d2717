-- ===== src/Orchestration/Tests.antt =====
-- Schedules of a run and calls of a bus, and the theorems on them.
use crapssim_control.Prelude.{
  ◌≡◌, ◌≤◌, ◌⊎◌, refl, String, true, none, some, List, [], ◌∷◌, ◌++◌, arith,
}
use crapssim_control.Orchestration.ControlSurface.{
  stopping, finished, run_started, run_stop_signal, run_finished, Phase, in_runner, settled, done,
  Run, launch, returns, settles, times, publishes, thread_step, checks, writes, flags, signals,
  stop_step, Step, thread, stop, play,
}
use crapssim_control.Orchestration.Ending.{total_progress, CanStep}
use crapssim_control.Orchestration.Finished.{IsEnded, play_progresses}
use crapssim_control.Orchestration.Log.{IsKept, play-IsKept, state-play}
use crapssim_control.Prelude.Dict.{lookup, ℕ_Eq}
use crapssim_control.Orchestration.EventBus.{
  Call, subscribes, unsubscribes, publishes, calls, events, subscribe, new_bus, publish,
}
use crapssim_control.Orchestration.Delivery.{deliver_all}

abbrev start : Run
start = launch "r1" "demo" 5

-- `stop` reads that the run goes on, the thread ends, and `stop` writes its state over the final one.
abbrev late_stop : List Step
late_stop =
    stop checks
    ∷ thread (returns (some "out"))
    ∷ thread settles
    ∷ thread (times 9)
    ∷ thread publishes
    ∷ stop writes
    ∷ stop flags
    ∷ stop signals
    ∷ []

abbrev after_late_stop : Run
after_late_stop = record {
  status = record {
    run_id = "r1";
    state = stopping;
    started_at = some 5;
    finished_at = some 9;
    artifacts_dir = some "out";
    error = none;
  };
  stop_flag = true;
  phase = done;
  checked = 0;
  written = 0;
  flagged = 0;
  published = run_started "demo" ∷ run_finished finished none ∷ run_stop_signal ∷ [];
}

late_stop_overwrites : play late_stop start ≡ some after_late_stop
unfolding play thread_step stop_step launch
late_stop_overwrites = refl

play_progresses_example :
    (total_progress late_stop ≤ 4)
    × ((after_late_stop.phase ≡ in_runner)
        ⊎ ((total_progress late_stop ≡ 4) × IsEnded after_late_stop)
        ⊎ CanStep after_late_stop)
play_progresses_example =
    play_progresses "r1" "demo" 5 late_stop after_late_stop late_stop_overwrites

play-IsKept_example : IsKept after_late_stop
play-IsKept_example = play-IsKept "r1" "demo" 5 late_stop after_late_stop late_stop_overwrites

-- A run that is finished, before its time is set.
abbrev settled_run : Run
settled_run = record after_late_stop {
  phase = settled;
  status = record (after_late_stop.status) { state = finished };
}

abbrev timed_run : Run
timed_run = record settled_run {
  status = record (settled_run.status) { finished_at = some 7 };
  phase = Phase.timed;
}

times_settled_run : play (thread (times 7) ∷ []) settled_run ≡ some timed_run
unfolding play thread_step
times_settled_run = refl

state-play_example : timed_run.status.state ≡ settled_run.status.state
state-play_example =
    state-play (thread (times 7) ∷ []) settled_run timed_run times_settled_run
      (omega arith, refl, refl)

abbrev early : List (Call String)
early = publishes "started" ∷ subscribes ∷ publishes "roll" ∷ []

abbrev late : List (Call String)
late = unsubscribes 1 ∷ publishes "finished" ∷ subscribes ∷ []

next_id_early : (calls early new_bus).next_id ≡ 2
unfolding calls subscribe publish
next_id_early = refl

deliver_all_example :
    lookup (subscribe (calls early new_bus)).0 (calls late (subscribe (calls early new_bus)).1).subs
    ≡ some (events early ++ events late)
unfolding calls subscribe publish events
deliver_all_example = deliver_all early late (ground arith, tt) (omega arith)
