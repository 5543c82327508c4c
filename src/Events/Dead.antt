-- ===== src/Events/Dead.antt =====
-- The event routes while there is no broker.
use trinity_v4_ai_brain.Prelude.{
  ℕ, String, true, [], ◌≡◌, inl, inr, Bool-cases, string_eq, if◌then◌else◌,
}
use trinity_v4_ai_brain.Json.{Json, Fields}
use trinity_v4_ai_brain.Web.{Web, World, Fault, failed, ok, pure, ◌>>◌}
use trinity_v4_ai_brain.Web.Calm.{Encodes, receive}
use trinity_v4_ai_brain.Http.{reply_json, refusal, detailed, bad_request, internal_error}
use trinity_v4_ai_brain.Http.Sent.{json_response, reply_json-then}
use trinity_v4_ai_brain.Events.{dead_broker, lacks_topic, lacks_key, produce, acknowledge}

abbrev pub no_broker : Fault
no_broker = failed "broker unavailable"

module _ {W : Web} (encodes : Encodes W) where
  abbrev pub response : Json W.Float → ℕ → World (dead_broker W) → World (dead_broker W)
  response value code = receive (json_response code (encodes value).0)

  pub answer-sent :
      {A : Type 0} (value : Json W.Float) (code : ℕ) (a : A) (w : World (dead_broker W))
      → w.faults ≡ []
      → (reply_json value code >> pure a) w ≡ (ok a, response value code w)
  answer-sent value code a w calm =
      reply_json-then value code a w (encodes value).0 (encodes value).1 calm

  pub produce-dead :
      (sub : String) (body : Fields W.Float) (w : World (dead_broker W))
      → w.faults ≡ []
      → produce sub body w ≡ (
        ok true,
        if lacks_topic W.nonzero body
            then response (refusal "topic required") bad_request w
            else response (detailed "broker error" (W.str no_broker)) internal_error w,
      )
  unfolding produce
  produce-dead sub body w calm = elim (Bool-cases (lacks_topic W.nonzero body)) [
    | inl none_given ↦ rw (none_given) (answer-sent _ bad_request true w calm)
    | inr given ↦ rw (given) (answer-sent _ internal_error true w calm)
  ]

  pub acknowledge-dead :
      (body : Fields W.Float) (w : World (dead_broker W))
      → w.faults ≡ []
      → acknowledge body w ≡ (
        ok true,
        if lacks_key W.nonzero body
            then response (refusal "topic/group/id required") bad_request w
            else response (refusal "broker error") internal_error w,
      )
  unfolding acknowledge
  acknowledge-dead body w calm = elim (Bool-cases (lacks_key W.nonzero body)) [
    | inl none_given ↦ rw (none_given) (answer-sent _ bad_request true w calm)
    | inr given ↦ rw (given) (answer-sent _ internal_error true w calm)
  ]
