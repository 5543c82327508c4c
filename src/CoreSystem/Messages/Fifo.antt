-- ===== src/CoreSystem/Messages/Fifo.antt =====
-- Messages arrive once each, in the order in which they were sent.
use mathlib.Core.Path.{ap₂}
use mathlib.Core.List.{append_assoc, append-nil}
use trinity_v4_ai_brain.Prelude.{
  ℕ, zero, suc, pos, String, Bool, true, ◌≡◌, refl, sym, ◌∙◌, ap, Option, none, some, List, [], ◌∷◌,
  ◌++◌, map, nat_eq, ◌==◌, if◌then◌else◌, length, inl, inr, Option-cases, arith,
}
use trinity_v4_ai_brain.Host.{Host, Env}
use trinity_v4_ai_brain.Dict
use trinity_v4_ai_brain.Dict.{get, put, contains}
use trinity_v4_ai_brain.Dict.Laws.{dict_laws, get-put}
use trinity_v4_ai_brain.Ipc.{IpcMessage, IpcMessageType, message_type_value, message_type_of}
use trinity_v4_ai_brain.Syscall.{Value, Outcome, Target, returned, succeed}
use trinity_v4_ai_brain.CoreSystem.{System, Reason, wait, ipc_receive as waits_for_message}
use trinity_v4_ai_brain.CoreSystem.Actions.{listed, reply}
use trinity_v4_ai_brain.CoreSystem.Messages.{inbox, enqueue, wake, ipc_send, ipc_receive, delivered}

-- One message as its sender gives it.
pub record Post (H : Host) : Type 0 where
  pub subject : String
  pub kind : IpcMessageType
  pub payload : H.Any
  pub timeout : H.Float
  pub env : Env H

-- The number of a message type is read back as that type.
message_type_of-value : (t : IpcMessageType) → message_type_of (pos (message_type_value t)) ≡ some t
message_type_of-value IpcMessageType.signal = refl
message_type_of-value _ = refl

module _ {H : Host} where
  -- The message that a post becomes.
  abbrev pub message_of : ℕ → ℕ → Post H → IpcMessage H
  message_of sender to p = record {
    message_id = p.env.uuid;
    message_type = p.kind;
    sender_id = sender;
    target_id = to;
    subject = p.subject;
    payload = p.payload;
    timestamp = p.env.created 0;
    timeout = p.timeout;
    headers = Dict.empty;
  }

  abbrev pub send_post : ℕ → ℕ → Post H → System H → Outcome H × System H
  send_post sender to p =
      ipc_send sender (Target.process to) p.subject (pos (message_type_value p.kind)) p.payload
        p.timeout p.env

  -- Sends every post, and goes on whatever becomes of one.
  unfoldable pub send_all : ℕ → ℕ → List (Post H) → System H → System H
  send_all sender to [] s = s
  send_all sender to (p ∷ ps) s = send_all sender to ps (send_post sender to p s).1

  -- The outcomes of receiving so many times.
  unfoldable pub receive_all : ℕ → ℕ → System H → List (Outcome H)
  receive_all zero pid s = []
  receive_all (suc n) pid s =
      (ipc_receive pid true s).0 ∷ receive_all n pid (ipc_receive pid true s).1

  pub send_post-eq :
      (sender to : ℕ) (p : Post H) (s : System H)
      → contains s.processes sender ≡ true
      → contains s.processes to ≡ true
      → send_post sender to p s
        ≡ reply (Value.message_id p.env.uuid) (wake to (enqueue to (message_of sender to p) s))
  unfolding ipc_send
  send_post-eq sender to p s from known =
      rw (from, ipc_send) (rw known (rw (message_type_of-value p.kind) refl))

  -- Waking changes no message queue, and no key of the process table.
  record Awake (s t : System H) : Type 0 where
    queues : t.message_queues ≡ s.message_queues
    known : (j : ℕ) → contains t.processes j ≡ contains s.processes j

  wake-Awake : (pid : ℕ) (s : System H) → Awake s (wake pid s)
  unfolding wake
  wake-Awake pid s = go (get s.blocked_processes pid) refl
    where
      go : (o : Option Reason) → get s.blocked_processes pid ≡ o → Awake s (wake pid s)
      go none e = rw (e, wake) (record { queues = refl; known = λ j. refl })
      go (some (wait w)) e = rw (e, wake) (record { queues = refl; known = λ j. refl })
      go (some waits_for_message) e =
          rw (e, wake) (record { queues = refl; known = λ j. simp dict_laws (ground arith) })

  -- A message goes to the end of its target's queue and to no other.
  pub inbox-send_post :
      (sender to : ℕ) (p : Post H) (s : System H) (j : ℕ)
      → contains s.processes sender ≡ true
      → contains s.processes to ≡ true
      → inbox (send_post sender to p s).1 j
        ≡ (if to == j then inbox s to ++ message_of sender to p ∷ [] else inbox s j)
  unfolding enqueue
  inbox-send_post sender to p s j from known =
      ap (λ r. inbox (r.1) j) (send_post-eq sender to p s from known)
      ∙ ap (λ q. listed (get q j)) (wake-Awake to (enqueue to (message_of sender to p) s)).queues
      ∙ simp get-put (ground arith)

  pub contains-send_post :
      (sender to : ℕ) (p : Post H) (s : System H) (j : ℕ)
      → contains s.processes sender ≡ true
      → contains s.processes to ≡ true
      → contains (send_post sender to p s).1.processes j ≡ contains s.processes j
  unfolding enqueue
  contains-send_post sender to p s j from known =
      ap (λ r. contains (r.1).processes j) (send_post-eq sender to p s from known)
      ∙ (wake-Awake to (enqueue to (message_of sender to p) s)).known j

  -- After the posts the target's queue is longer by their messages, in order.
  pub inbox-send_all :
      (sender to : ℕ) (ps : List (Post H)) (s : System H)
      → contains s.processes sender ≡ true
      → contains s.processes to ≡ true
      → (inbox (send_all sender to ps s) to ≡ inbox s to ++ map (message_of sender to) ps)
        × (contains (send_all sender to ps s).processes to ≡ true)
  unfolding send_all
  inbox-send_all sender to [] s from known = (sym (append-nil (inbox s to)), known)
  inbox-send_all sender to (p ∷ ps) s from known =
      let rest =
        inbox-send_all sender to ps (send_post sender to p s).1
          (contains-send_post sender to p s sender from known ∙ from)
          (contains-send_post sender to p s to from known ∙ known) in
      (
        rest.0
            ∙ ap (λ q. q ++ map (message_of sender to) ps)
                (inbox-send_post sender to p s to from known ∙ (ground arith))
            ∙ append_assoc (inbox s to) (message_of sender to p ∷ [])
                (map (message_of sender to) ps),
        rest.1,
      )

  pub ipc_receive-front :
      (pid : ℕ) (waits : Bool) (m : IpcMessage H) (rest : List (IpcMessage H)) (s : System H)
      → contains s.processes pid ≡ true
      → inbox s pid ≡ m ∷ rest
      → ipc_receive pid waits s
        ≡ reply (delivered m) (record s { message_queues = put s.message_queues pid rest })
  unfolding ipc_receive
  ipc_receive-front pid waits m rest s known front = elim (Option-cases (get s.processes pid)) [
    | inl missing ↦ cc (rw missing at known)
    | inr (p, there) ↦ rw (there, ipc_receive) (rw front refl)
  ]

  abbrev pub got : IpcMessage H → Outcome H
  got m = returned (succeed (delivered m))

  receive_all-inbox :
      (pid : ℕ) (ms : List (IpcMessage H)) (s : System H)
      → contains s.processes pid ≡ true
      → inbox s pid ≡ ms
      → receive_all (length ms) pid s ≡ map got ms
  unfolding receive_all
  receive_all-inbox pid [] s known e = refl
  receive_all-inbox pid (m ∷ ms) s known e =
      let first = ipc_receive-front pid true m ms s known e in
      ap₂ (λ (o : Outcome H) (os : List (Outcome H)). o ∷ os) (ap (λ r. r.0) first)
        (ap (λ r. receive_all (length ms) pid r.1) first
          ∙ receive_all-inbox pid ms _ known (simp get-put (ground arith)))

  -- A process that is sent any messages by a process of the table, and then receives as often as
  -- messages wait for it, gets those that waited before and then those that were sent, each once,
  -- complete and in the order of sending.
  pub receive_all-send_all :
      (sender to : ℕ) (ps : List (Post H)) (s : System H)
      → contains s.processes sender ≡ true
      → contains s.processes to ≡ true
      → let queue = inbox s to ++ map (message_of sender to) ps in
        receive_all (length queue) to (send_all sender to ps s) ≡ map got queue
  receive_all-send_all sender to ps s from known =
      let sent = inbox-send_all sender to ps s from known in
      receive_all-inbox to _ (send_all sender to ps s) sent.1 sent.0
