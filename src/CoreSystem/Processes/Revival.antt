-- ===== src/CoreSystem/Processes/Revival.antt =====
-- A process that has exited and makes a call all the same.
use trinity_v4_ai_brain.Prelude.{
  ℕ, ℤ, ◌≡◌, ap, ◌∙◌, true, some, [], ◌∷◌, ◌++◌, nat_eq, remove, arith,
}
use trinity_v4_ai_brain.Host.{Host}
use trinity_v4_ai_brain.Dict.{get, contains}
use trinity_v4_ai_brain.Dict.Laws.{dict_laws}
use trinity_v4_ai_brain.Process.{ProcessInfo, ProcessState}
use trinity_v4_ai_brain.CoreSystem.{System, state_of, status}
use trinity_v4_ai_brain.CoreSystem.Messages.{inbox, ipc_receive}
use trinity_v4_ai_brain.CoreSystem.Messages.Fifo.{Post, send_post}
use trinity_v4_ai_brain.CoreSystem.Messages.Wake.{ipc_receive-send_post}
use trinity_v4_ai_brain.CoreSystem.Processes.{terminate, process_exit}
use trinity_v4_ai_brain.CoreSystem.Processes.Exit.{process_exit-eq, terminated_entry}

module _ {H : Host} (pid : ℕ) (code : ℤ) (p : ProcessInfo H) (s : System H)
    (there : get s.processes pid ≡ some p) where
  no_inbox : inbox (terminate pid p code s) pid ≡ []
  unfolding terminate
  no_inbox = simp dict_laws (ground arith)

  -- A process of the table that exits is TERMINATED; if it then asks for a message it becomes
  -- BLOCKED, and a message that a process of the table sends it makes it READY and puts it at the
  -- end of the ready queue.
  pub process_exit-revival :
      (sender : ℕ) (post : Post H)
      → contains (process_exit pid code s).1.processes sender ≡ true
      → let t = (process_exit pid code s).1 in
        let s1 = (ipc_receive pid true t).1 in
        let s2 = (send_post sender pid post s1).1 in
        (state_of t pid ≡ some ProcessState.terminated)
        × (state_of s1 pid ≡ some ProcessState.blocked)
        × (state_of s2 pid ≡ some ProcessState.ready)
        × (s2.ready_queue ≡ remove pid t.ready_queue ++ pid ∷ [])
  process_exit-revival sender post from =
      let entry =
        ap (λ r. get r.1.processes pid) (process_exit-eq pid code p s there)
        ∙ (terminated_entry pid code p s there).1 in
      let empty = ap (λ r. inbox r.1 pid) (process_exit-eq pid code p s there) ∙ no_inbox in
      let all =
        ipc_receive-send_post sender pid post _ (process_exit pid code s).1 entry empty from in
      (ap status entry, all.1, all.4, all.6)
