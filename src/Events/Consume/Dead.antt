-- ===== src/Events/Consume/Dead.antt =====
-- The event routes while there is no broker: the statuses of POST and of GET.
use trinity_v4_ai_brain.Prelude.{
  ℕ, String, true, [], ◌==◌, ◌≡◌, inl, inr, Bool-cases, string_eq, if◌then◌else◌,
}
use trinity_v4_ai_brain.Json.{Fields}
use trinity_v4_ai_brain.Web.{Web, World, Request, ok}
use trinity_v4_ai_brain.Web.Calm.{Encodes}
use trinity_v4_ai_brain.Http.{detailed, bad_request, internal_error, unavailable, refusal}
use trinity_v4_ai_brain.Events.{dead_broker, lacks_topic, lacks_key, produce, acknowledge}
use trinity_v4_ai_brain.Events.Dead.{
  no_broker, response, answer-sent, produce-dead, acknowledge-dead,
}
use trinity_v4_ai_brain.Events.Consume.{answered, default_to, admitted_get}

module _ {W : Web} (encodes : Encodes W) where
  admitted_get-dead :
      (fuel : ℕ) (r : Request W) (path sub : String) (w : World (dead_broker W))
      → w.faults ≡ []
      → admitted_get fuel r path (true, sub) w ≡ (
        ok answered,
        if default_to "" (r.headers "X-Topic") == ""
            then response encodes (refusal "X-Topic required") bad_request w
            else response encodes (detailed "broker unavailable" (W.str no_broker)) unavailable w,
      )
  unfolding admitted_get
  admitted_get-dead fuel r path sub w calm =
      elim (Bool-cases (default_to "" (r.headers "X-Topic") == "")) [
        | inl none_given ↦ rw (none_given) (answer-sent encodes _ bad_request answered w calm)
        | inr given ↦ rw (given) (answer-sent encodes _ unavailable answered w calm)
      ]

  -- Without a broker, if no operation on the connection fails and every JSON value can be
  -- encoded, requests that are allowed are answered as follows, each for itself: a message to
  -- publish with status 500, or 400 if it has no topic; an acknowledgement with 500, or 400 if
  -- its topic, group or id is missing; and a GET request with 503, or 400 if it names no topic.
  pub dead_broker-statuses :
      (sub : String) (message key : Fields W.Float) (fuel : ℕ) (r : Request W) (path : String)
      (w : World (dead_broker W))
      → w.faults ≡ []
      → (produce sub message w ≡ (
        ok true,
        if lacks_topic W.nonzero message
            then response encodes (refusal "topic required") bad_request w
            else response encodes (detailed "broker error" (W.str no_broker)) internal_error w,
      ))
        × ((acknowledge key w ≡ (
          ok true,
          if lacks_key W.nonzero key
              then response encodes (refusal "topic/group/id required") bad_request w
              else response encodes (refusal "broker error") internal_error w,
        ))
            × (admitted_get fuel r path (true, sub) w ≡ (
              ok answered,
              if default_to "" (r.headers "X-Topic") == ""
                  then response encodes (refusal "X-Topic required") bad_request w
                  else response encodes
                      (detailed "broker unavailable" (W.str no_broker))
                      unavailable
                      w,
            )))
  dead_broker-statuses sub message key fuel r path w calm = (
    produce-dead encodes sub message w calm,
    (acknowledge-dead encodes key w calm, admitted_get-dead fuel r path sub w calm),
  )
