-- ===== src/CoreSystem/Scheduler/Pass.antt =====
-- What one pass of the scheduler does, field by field.
use trinity_v4_ai_brain.Prelude.{
  ℕ, ◌+◌, ◌≡◌, refl, ap, ◌∙◌, true, none, some, List, [], ◌∷◌, ◌++◌, nat_eq, ◌==◌, if◌then◌else◌,
  arith,
}
use trinity_v4_ai_brain.Host.{Host}
use trinity_v4_ai_brain.Dict.{Dict, get, put, adjust}
use trinity_v4_ai_brain.Dict.Laws.{dict_laws}
use trinity_v4_ai_brain.Process.{ProcessInfo, ProcessState, is_running}
use trinity_v4_ai_brain.CoreSystem.{System}
use trinity_v4_ai_brain.CoreSystem.Scheduler.{
  execute_process, requeue, turn, run_front, run_scheduler,
}

module _ {H : Host} where
  -- A process after its turn at the time `now`.
  abbrev pub after_turn : H.Float → ProcessInfo H → ProcessInfo H
  after_turn now p = record p {
    state = ProcessState.ready;
    last_run = now;
    runtime = H.add p.runtime p.time_slice;
    context_switches = p.context_switches + 1;
  }

module _ {H : Host} (now : H.Float) (s : System H) where
  pub run_scheduler-idle : s.ready_queue ≡ [] → run_scheduler now s ≡ s
  unfolding run_scheduler
  run_scheduler-idle e = ap (λ q. run_front now q s) e

  pub run_scheduler-missing :
      (pid : ℕ) (rest : List ℕ)
      → s.ready_queue ≡ pid ∷ rest
      → get s.processes pid ≡ none
      → run_scheduler now s ≡ record s { ready_queue = rest }
  unfolding run_scheduler run_front turn
  run_scheduler-missing pid rest front missing =
      ap (λ q. run_front now q s) front
      ∙ ap (λ o. turn now pid o (record s { ready_queue = rest })) missing

module _ {H : Host} where
  requeue_lem :
      (pid : ℕ) (p : ProcessInfo H) (t : System H)
      → get t.processes pid ≡ some p
      → is_running p.state ≡ true
      → requeue pid t ≡ record t {
        processes = put t.processes pid (record p { state = ProcessState.ready });
        ready_queue = t.ready_queue ++ pid ∷ [];
      }
  unfolding requeue
  requeue_lem pid p t e r = rw (e, requeue) (rw r refl)

module _ {H : Host} (now : H.Float) (pid : ℕ) (p : ProcessInfo H) (d : Dict ℕ (ProcessInfo H)) where
  -- The process table just before the process goes back to the queue.
  unfoldable pub running_table : Dict ℕ (ProcessInfo H)
  running_table =
      adjust (put d pid (record p { state = ProcessState.running; last_run = now })) pid λ q.
        record q {
          runtime = H.add q.runtime p.time_slice;
          context_switches = q.context_switches + 1;
        }

  get-running_table :
      (j : ℕ)
      → get running_table j ≡ (
          if pid == j
          then some (record (after_turn now p) { state = ProcessState.running })
          else get d j)
  unfolding running_table
  get-running_table j = simp dict_laws (ground arith)

  -- The process table after the turn.
  unfoldable pub ran : Dict ℕ (ProcessInfo H)
  ran = put running_table pid (after_turn now p)

  pub get-ran : (j : ℕ) → get ran j ≡ (if pid == j then some (after_turn now p) else get d j)
  unfolding ran
  get-ran j = simp (dict_laws, get-running_table) (ground arith)

module _ {H : Host} (now : H.Float) (pid : ℕ) (p : ProcessInfo H) where
  turn_lem :
      (s : System H)
      → turn now pid (some p) s ≡ record s {
        processes = ran now pid p s.processes;
        ready_queue = s.ready_queue ++ pid ∷ [];
      }
  unfolding turn execute_process running_table ran
  turn_lem s =
      requeue_lem pid (record (after_turn now p) { state = ProcessState.running })
        (record s { processes = running_table now pid p s.processes })
        (get-running_table now pid p s.processes pid ∙ (ground arith)) refl

  -- The process at the front runs once and goes to the end of the queue.
  pub run_scheduler-front :
      (rest : List ℕ) (s : System H)
      → s.ready_queue ≡ pid ∷ rest
      → get s.processes pid ≡ some p
      → run_scheduler now s
        ≡ record s { processes = ran now pid p s.processes; ready_queue = rest ++ pid ∷ [] }
  unfolding run_scheduler run_front
  run_scheduler-front rest s front there =
      ap (λ q. run_front now q s) front
      ∙ ap (λ o. turn now pid o (record s { ready_queue = rest })) there
      ∙ turn_lem (record s { ready_queue = rest })
