-- ===== src/CoreSystem/Scheduler.antt =====
-- One pass of the scheduler: `_run_scheduler` and `_execute_process`.
pub mod Pass
pub mod Priorities
pub mod RoundRobin
use trinity_v4_ai_brain.Prelude.{
  ℕ, ◌+◌, Bool, true, false, Option, none, some, List, [], ◌∷◌, ◌++◌, nat_eq, if◌then◌else◌,
}
use trinity_v4_ai_brain.Host.{Host}
use trinity_v4_ai_brain.Dict.{get, put}
use trinity_v4_ai_brain.Process.{ProcessInfo, ProcessState, is_running}
use trinity_v4_ai_brain.CoreSystem.{System}
use trinity_v4_ai_brain.CoreSystem.Actions.{with_process}

module _ {H : Host} where
  unfoldable pub execute_process : ℕ → H.Float → System H → System H
  execute_process pid time_slice = with_process pid λ p. record p {
    runtime = H.add p.runtime time_slice;
    context_switches = p.context_switches + 1;
  }

  -- The last statement: a process that is still running goes back to the end of the queue.
  unfoldable pub requeue : ℕ → System H → System H
  requeue pid s = elim (get s.processes pid) [
    | none ↦ s
    | some p ↦
        if is_running p.state
        then record s {
          processes = put s.processes pid (record p { state = ProcessState.ready });
          ready_queue = s.ready_queue ++ pid ∷ [];
        }
        else s
  ]

  -- The turn of the process at the front of the queue, which has left it.
  unfoldable pub turn : H.Float → ℕ → Option (ProcessInfo H) → System H → System H
  turn now pid none s = s
  turn now pid (some p) s = requeue pid (
      execute_process pid p.time_slice (record s {
        processes = put s.processes pid (record p { state = ProcessState.running; last_run = now });
      }))

  unfoldable pub run_front : H.Float → List ℕ → System H → System H
  run_front now [] s = s
  run_front now (pid ∷ rest) s =
      turn now pid (get s.processes pid) (record s { ready_queue = rest })

  -- One pass at the time `now`.
  unfoldable pub run_scheduler : H.Float → System H → System H
  unfolding execute_process requeue turn run_front
  run_scheduler now s = run_front now s.ready_queue s

  -- `_scheduler_loop`, round by round: what `_stop_event` shows and the time of the pass. The list
  -- ends where the observation does. A pass raises nothing, so the `except` branch is not reached.
  unfoldable pub scheduler_loop : List (Bool × H.Float) → System H → System H
  scheduler_loop [] s = s
  scheduler_loop ((true, now) ∷ rounds) s = s
  scheduler_loop ((false, now) ∷ rounds) s = scheduler_loop rounds (run_scheduler now s)
