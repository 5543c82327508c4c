-- ===== src/CoreSystem/Messages/Wake.antt =====
-- A process that waits for a message, from the wait to the delivery.
use trinity_v4_ai_brain.Prelude.{
  ℕ, ◌≡◌, refl, ◌∙◌, ap, true, none, some, [], ◌∷◌, ◌++◌, nat_eq, remove, arith,
}
use trinity_v4_ai_brain.Host.{Host}
use trinity_v4_ai_brain.Dict.{get, delete, contains}
use trinity_v4_ai_brain.Dict.Laws.{dict_laws}
use trinity_v4_ai_brain.Process.{ProcessInfo, ProcessState}
use trinity_v4_ai_brain.Syscall.{Value}
use trinity_v4_ai_brain.CoreSystem.{System, state_of, ipc_receive as waits_for_message}
use trinity_v4_ai_brain.CoreSystem.Actions.{reply, block, with_process}
use trinity_v4_ai_brain.CoreSystem.Messages.{inbox, enqueue, wake, ipc_receive}
use trinity_v4_ai_brain.CoreSystem.Messages.Fifo.{
  Post, message_of, send_post, send_post-eq, ipc_receive-front, got,
}

module _ {H : Host} where
  ipc_receive-empty :
      (pid : ℕ) (p : ProcessInfo H) (s : System H)
      → get s.processes pid ≡ some p
      → inbox s pid ≡ []
      → ipc_receive pid true s ≡ reply Value.blocked (block pid p waits_for_message s)
  unfolding ipc_receive
  ipc_receive-empty pid p s there e = rw (there, ipc_receive) (rw e refl)

  wake-eq :
      (pid : ℕ) (s : System H)
      → get s.blocked_processes pid ≡ some waits_for_message
      → wake pid s
        ≡ with_process pid
            (λ p. record p { state = ProcessState.ready })
            (record s {
              blocked_processes = delete s.blocked_processes pid;
              ready_queue = s.ready_queue ++ pid ∷ [];
            })
  unfolding wake
  wake-eq pid s e = rw (e, wake) refl

module _ {H : Host} (sender to : ℕ) (post : Post H) (p : ProcessInfo H) (s : System H) where
  waiting : System H
  waiting = block to p waits_for_message s

  sent-eq :
      get s.processes to ≡ some p
      → contains s.processes sender ≡ true
      → (send_post sender to post waiting).1
        ≡ with_process to
            (λ p. record p { state = ProcessState.ready })
            (enqueue to (message_of sender to post) (record waiting {
              blocked_processes = delete waiting.blocked_processes to;
              ready_queue = waiting.ready_queue ++ to ∷ [];
            }))
  unfolding waiting block enqueue
  sent-eq there from =
      ap (λ r. r.1)
        (send_post-eq sender to post waiting (simp dict_laws (ground (arith, from)))
          (simp dict_laws (ground arith)))
      ∙ wake-eq to _ (simp dict_laws (ground arith))

  -- A process of the table with no message that receives is BLOCKED. A message that a process of
  -- the table then sends it makes it READY, takes it from the blocked processes and puts it at
  -- the end of the ready queue, without its earlier place there. When it receives again it gets
  -- that message.
  pub ipc_receive-send_post :
      get s.processes to ≡ some p
      → inbox s to ≡ []
      → contains s.processes sender ≡ true
      → let (blocked, s1) = ipc_receive to true s in
        let (sent, s2) = send_post sender to post s1 in
        (blocked ≡ (reply Value.blocked s).0)
        × (state_of s1 to ≡ some ProcessState.blocked)
        × (s1.ready_queue ≡ remove to s.ready_queue)
        × (sent ≡ (reply (Value.message_id post.env.uuid) s).0)
        × (state_of s2 to ≡ some ProcessState.ready)
        × (get s2.blocked_processes to ≡ none)
        × (s2.ready_queue ≡ remove to s.ready_queue ++ to ∷ [])
        × ((ipc_receive to true s2).0 ≡ got (message_of sender to post))
  unfolding waiting block enqueue
  ipc_receive-send_post there empty from = rw (ipc_receive-empty to p s there empty) (
    refl,
    simp dict_laws (ground arith),
    refl,
    ap (λ r. r.0)
        (send_post-eq sender to post waiting (simp dict_laws (ground (arith, from)))
          (simp dict_laws (ground arith))),
    ap (λ t. state_of t to) (sent-eq there from) ∙ simp dict_laws (ground arith),
    ap (λ (t : System H). get t.blocked_processes to) (sent-eq there from)
        ∙ simp dict_laws (ground arith),
    ap (λ (t : System H). t.ready_queue) (sent-eq there from),
    ap (λ r. r.0)
        (ipc_receive-front to true (message_of sender to post) []
          (send_post sender to post waiting).1
          (ap (λ (t : System H). contains t.processes to) (sent-eq there from)
            ∙ simp dict_laws (ground arith))
          (ap (λ t. inbox t to) (sent-eq there from) ∙ simp dict_laws (ground (arith, empty)))),
  )
