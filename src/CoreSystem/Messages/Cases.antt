-- ===== src/CoreSystem/Messages/Cases.antt =====
-- The states in which the message calls can leave the system, one premise for each.
use trinity_v4_ai_brain.Prelude.{
  ℕ, ℤ, String, Bool, ◌≡◌, some, List, ◌∷◌, inl, inr, nat_eq, Bool-cases, Option-cases, List-cases,
}
use trinity_v4_ai_brain.Host.{Host, Env}
use trinity_v4_ai_brain.Dict.{get, put, contains}
use trinity_v4_ai_brain.Process.{ProcessInfo}
use trinity_v4_ai_brain.Ipc.{IpcMessage, message_type_of}
use trinity_v4_ai_brain.Syscall.{Target}
use trinity_v4_ai_brain.CoreSystem.{System, ipc_receive as waits_for_message}
use trinity_v4_ai_brain.CoreSystem.Actions.{block}
use trinity_v4_ai_brain.CoreSystem.Messages.{
  inbox, target_process, enqueue, wake, ipc_send, ipc_receive,
}

module _ {H : Host} (P : System H → Type 0) (s : System H) where
  pub ipc_send_cases :
      (pid : ℕ) (target : Target) (subject : String) (message_type : ℤ) (payload : H.Any)
      (timeout : H.Float) (env : Env H)
      → P s
      → ((to : ℕ) (m : IpcMessage H) → P (wake to (enqueue to m s)))
      → P (ipc_send pid target subject message_type payload timeout env s).1
  unfolding ipc_send
  ipc_send_cases pid target subject message_type payload timeout env kept sent =
      elim (Bool-cases (contains s.processes pid)) [
        | inl e ↦ elim (Option-cases (target_process s target)) [
          | inl e1 ↦ rw (e, ipc_send) (rw e1 kept)
          | inr (to, e1) ↦ elim (Option-cases (message_type_of message_type)) [
            | inl e2 ↦ rw (e, ipc_send) (rw e1 (rw e2 kept))
            | inr (kind, e2) ↦ rw (e, ipc_send) (rw e1 (rw e2 (sent to _)))
          ]
        ]
        | inr e ↦ rw (e, ipc_send) kept
      ]

  pub ipc_receive_cases :
      (pid : ℕ) (waits : Bool)
      → P s
      → ((m : IpcMessage H) (rest : List (IpcMessage H))
          → inbox s pid ≡ m ∷ rest
          → P (record s { message_queues = put s.message_queues pid rest }))
      → ((p : ProcessInfo H) → get s.processes pid ≡ some p → P (block pid p waits_for_message s))
      → P (ipc_receive pid waits s).1
  unfolding ipc_receive
  ipc_receive_cases pid waits kept taken blocks = elim (Option-cases (get s.processes pid)) [
    | inl e ↦ rw (e, ipc_receive) kept
    | inr (p, e) ↦ elim (List-cases (inbox s pid)) [
      | inl e1 ↦ elim (Bool-cases waits) [
        | inl e2 ↦ rw (e, ipc_receive) (rw e1 (rw e2 (blocks p e)))
        | inr e2 ↦ rw (e, ipc_receive) (rw e1 (rw e2 kept))
      ]
      | inr (m, rest, e1) ↦ rw (e, ipc_receive) (rw e1 (taken m rest e1))
    ]
  ]
