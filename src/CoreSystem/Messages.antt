-- ===== src/CoreSystem/Messages.antt =====
-- The calls ipc_send and ipc_receive.
pub mod Cases
pub mod Fifo
pub mod Wake
use trinity_v4_ai_brain.Prelude.{
  ℕ, ℤ, String, Bool, not, Option, none, some, List, [], ◌∷◌, ◌++◌, nat_eq, if◌then◌else◌,
}
use trinity_v4_ai_brain.Host.{Host, Env, value_error}
use trinity_v4_ai_brain.Dict
use trinity_v4_ai_brain.Dict.{get, put, delete, contains}
use trinity_v4_ai_brain.Process.{ProcessState}
use trinity_v4_ai_brain.Ipc.{IpcMessage, message_type_of}
use trinity_v4_ai_brain.Syscall.{Value, Outcome, Target}
use trinity_v4_ai_brain.CoreSystem.{System, wait, ipc_receive as waits_for_message}
use trinity_v4_ai_brain.CoreSystem.Actions.{listed, reply, refuse, raise, with_process, block}

module _ {H : Host} where
  -- The messages that wait for a process, oldest first.
  abbrev pub inbox : System H → ℕ → List (IpcMessage H)
  inbox s pid = listed (get s.message_queues pid)

  -- A region id is no key of the process table.
  abbrev pub target_process : System H → Target → Option ℕ
  target_process s (Target.region rid) = none
  target_process s (Target.process pid) = if contains s.processes pid then some pid else none

  unfoldable pub enqueue : ℕ → IpcMessage H → System H → System H
  enqueue pid m s = record s { message_queues = put s.message_queues pid (inbox s pid ++ m ∷ []) }

  -- A process that is blocked on messages becomes ready; one that waits for a process does not.
  unfoldable pub wake : ℕ → System H → System H
  wake pid s = elim (get s.blocked_processes pid) [
    | none ↦ s
    | some (wait _) ↦ s
    | some waits_for_message ↦
        with_process pid (λ p. record p { state = ProcessState.ready })
          (record s {
            blocked_processes = delete s.blocked_processes pid;
            ready_queue = s.ready_queue ++ pid ∷ [];
          })
  ]

  unfoldable pub ipc_send :
      ℕ → Target → String → ℤ → H.Any → H.Float → Env H → System H → Outcome H × System H
  ipc_send process_id target subject message_type payload timeout env s =
      if not (contains s.processes process_id)
      then refuse "Sender process does not exist" s
      else elim (target_process s target) [
        | none ↦ refuse "Target process does not exist" s
        | some target_id ↦ elim (message_type_of message_type) [
          | none ↦ raise (value_error "IPCMessageType" message_type) s
          | some kind ↦ reply (Value.message_id env.uuid) (
              wake target_id (
                enqueue target_id
                  (record {
                    message_id = env.uuid;
                    message_type = kind;
                    sender_id = process_id;
                    target_id = target_id;
                    subject = subject;
                    payload = payload;
                    timestamp = env.created 0;
                    timeout = timeout;
                    headers = Dict.empty;
                  })
                  s))
        ]
      ]

  -- The dictionary that a receiver gets.
  abbrev pub delivered : IpcMessage H → Value H
  delivered m =
      Value.message m.message_id m.message_type m.sender_id m.subject m.payload m.timestamp
        m.headers

  unfoldable pub ipc_receive : ℕ → Bool → System H → Outcome H × System H
  ipc_receive process_id waits s = elim (get s.processes process_id) [
    | none ↦ refuse "Process does not exist" s
    | some p ↦ elim (inbox s process_id) [
      | m ∷ rest ↦
          reply (delivered m) (record s { message_queues = put s.message_queues process_id rest })
      | [] ↦
          if not waits
          then reply Value.nothing s
          else reply Value.blocked (block process_id p waits_for_message s)
    ]
  ]
