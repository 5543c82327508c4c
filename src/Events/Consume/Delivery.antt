-- ===== src/Events/Consume/Delivery.antt =====
-- What the event stream delivers when no operation on the connection fails, against a reference
-- that knows the broker and the clock only.
use Prim.Native.String.{◌++◌ as str_append}
use mathlib.Core.List.{append_assoc, append-nil}
use trinity_v4_ai_brain.Prelude.{
  ℕ, zero, suc, ◌+◌, String, Bool, true, false, Option, none, some, List, [], ◌∷◌, ◌++◌, ◌≡◌, refl,
  ◌∙◌, inl, inr, Bool-cases,
}
use trinity_v4_ai_brain.Json.{Json}
use trinity_v4_ai_brain.Web.{
  Web, Broker, World, Message, Frame, chunk, flush, Result, ok, raised, M, bind_result, ◌>>◌, pure,
  emit, some_or, encode_error,
}
use trinity_v4_ai_brain.Web.Calm.{
  Encodes, attempt-ok, bind-ok, emit_all-calm, emit_all-then, receive,
}
use trinity_v4_ai_brain.Events.{continue}
use trinity_v4_ai_brain.Events.Consume.{
  message_json, write_event, after_poll, stream_round, unless_done, stream_loop,
}

module _ {S A : Type 0} where
  next_delivery : Result (Option A) × S → (S → List A × S) → List A × S
  next_delivery (raised e, b) rest = ([], b)
  next_delivery (ok none, b) rest = rest b
  next_delivery (ok (some m), b) rest = (m ∷ (rest b).0, (rest b).1)

module _ {W : Web} (B : Broker W) where
  -- The messages that are polled until the time is over or a poll fails, and the broker after that.
  unfoldable pub deliveries :
      ℕ → B.Subscription → (ℕ → W.Float) → W.Float → ℕ → B.State → List (Message W.Float) × B.State
  unfolding next_delivery
  deliveries zero sub clock timeout k b = ([], b)
  deliveries (suc fuel) sub clock timeout k b = elim (W.lt (W.sub (clock k) (clock 0)) timeout) [
    | false ↦ ([], b)
    | true ↦ next_delivery (B.poll sub W.one_second b) (deliveries fuel sub clock timeout (k + 1))
  ]

-- Messages as server-sent events, with `encode` for `json.dumps`.
module _ {F : Type 0} (encode : Json F → String) where
  abbrev pub event : Message F → List Frame
  event m =
      chunk "event: message\n"
      ∷ chunk (str_append "data: " (str_append (encode (message_json m)) "\n\n"))
      ∷ flush
      ∷ []

  abbrev pub events : List (Message F) → List Frame
  events [] = []
  events (m ∷ ms) = event m ++ events ms

module _ {W : Web} {B : Broker W} (encodes : Encodes W) where
  -- The client has the messages, and the broker is as the reference has it.
  abbrev pub delivery : World B → List (Message W.Float) × B.State → World B
  delivery w d = record w { written = w.written ++ events (λ j. (encodes j).0) d.0; broker = d.1 }

  write_event-calm :
      (m : Message W.Float) (w : World B)
      → w.faults ≡ []
      → write_event m w ≡ (ok tt, receive (event (λ j. (encodes j).0) m) w)
  unfolding write_event
  write_event-calm m w calm =
      bind-ok (some_or encode_error (W.dumps (message_json m))) _ w w (encodes (message_json m)).0
        (rw ((encodes (message_json m)).1) refl)
      ∙ emit_all-then _ _ w calm
      ∙ emit_all-then _ _ _ calm
      ∙ attempt-ok (emit flush) (λ e. pure tt) _ _ tt (emit_all-calm (flush ∷ []) _ calm)
      ∙ simp (append_assoc)

  after_poll-calm :
      (m : Message W.Float) (w : World B)
      → w.faults ≡ []
      → after_poll (some m) w ≡ (ok true, receive (event (λ j. (encodes j).0) m) w)
  unfolding after_poll
  after_poll-calm m w calm =
      attempt-ok (write_event m >> pure true) (λ e. pure false) w _ true
        (bind-ok (write_event m) (λ _. pure true) w _ tt (write_event-calm m w calm))

  round-delivered :
      (x : Result (Option (Message W.Float)) × B.State) (w : World B) (loop : M (World B) Bool)
      (rest : B.State → List (Message W.Float) × B.State)
      → ((v : World B) → v.faults ≡ [] → (loop v).1 ≡ delivery v (rest v.broker))
      → w.faults ≡ []
      → (bind_result
          (continue (x.0, record w { broker = x.1 }) (λ e. pure false) after_poll)
          (λ more. unless_done more loop)).1
        ≡ delivery w (next_delivery x rest)
  unfolding next_delivery after_poll
  round-delivered (raised e, b) w loop rest h calm = rw (append-nil w.written) refl
  round-delivered (ok none, b) w loop rest h calm = h (record w { broker = b }) calm
  round-delivered (ok (some m), b) w loop rest h calm =
      rw (after_poll-calm m (record w { broker = b }) calm) (
        h (receive (event (λ j. (encodes j).0) m) (record w { broker = b })) calm
        ∙ simp (append_assoc))

  pub stream_loop-delivers :
      (fuel : ℕ) (sub : B.Subscription) (clock : ℕ → W.Float) (timeout : W.Float) (k : ℕ)
      (w : World B)
      → w.faults ≡ []
      → (stream_loop fuel sub clock timeout k w).1
        ≡ delivery w (deliveries B fuel sub clock timeout k w.broker)
  unfolding stream_loop stream_round deliveries
  stream_loop-delivers zero sub clock timeout k w calm = rw (append-nil w.written) refl
  stream_loop-delivers (suc fuel) sub clock timeout k w calm =
      elim (Bool-cases (W.lt (W.sub (clock k) (clock 0)) timeout)) [
        | inl early ↦
            rw (stream_loop, deliveries, early)
              (round-delivered (B.poll sub W.one_second w.broker) w
                (stream_loop fuel sub clock timeout (k + 1))
                (deliveries B fuel sub clock timeout (k + 1))
                (λ v. stream_loop-delivers fuel sub clock timeout (k + 1) v) calm)
        | inr now ↦ rw (stream_loop, deliveries, now, append-nil w.written) refl
      ]
