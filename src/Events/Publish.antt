-- ===== src/Events/Publish.antt =====
-- A message that an authorised client publishes, from the request to the response.
use package.text.Mathlib.Text.{starts_with}
use trinity_v4_ai_brain.Prelude.{
  ℕ, String, true, false, [], ◌∷◌, ◌++◌, ◌≡◌, refl, ap, ◌∙◌, string_eq,
}
use trinity_v4_ai_brain.Json.{Json, Fields, obj, null, string, get_or}
use trinity_v4_ai_brain.Web.{
  Web, Broker, World, Request, Receipt, Fault, Result, ok, raised, producing, authorized,
}
use trinity_v4_ai_brain.Web.Calm.{Encodes, bind-ok, receive}
use trinity_v4_ai_brain.Http.{read_body, detailed, success, internal_error}
use trinity_v4_ai_brain.Http.Sent.{json_response, reply_json-then}
use trinity_v4_ai_brain.Events.{
  lacks_topic, receipt_reply, continue, publish_failure, published, produce, admitted_post,
  guarded_post, post_event, handle_events_post,
}

-- The broker's answer to the message that a body describes.
abbrev pub publish_result :
    {W : Web} (B : Broker W)
    → String
    → Fields W.Float
    → B.State
    → Result (Receipt W.Float) × B.State
publish_result B sub body =
    B.publish (get_or "topic" (string "") body) (get_or "payload" null body)
      (get_or "key" (string "") body) sub (get_or "idempotency_key" null body)

-- What the client is to be told of it.
abbrev pub publish_reply : {F : Type 0} → (Fault → String) → Result (Receipt F) → Json F × ℕ
publish_reply text (ok m) = (receipt_reply m, 200)
publish_reply text (raised e) = (detailed "broker error" (text e), 500)

module _ {W : Web} {B : Broker W} (encodes : Encodes W) where
  told :
      (x : Result (Receipt W.Float)) (w : World B)
      → w.faults ≡ []
      → continue (x, w) publish_failure published ≡ (
        ok true,
        receive (json_response (publish_reply W.str x).1 (encodes (publish_reply W.str x).0).0) w,
      )
  told (ok m) w calm = reply_json-then _ success true w _ (encodes _).1 calm
  told (raised e) w calm = reply_json-then _ internal_error true w _ (encodes _).1 calm

  produce-calm :
      (sub : String) (body : Fields W.Float) (w : World B)
      → lacks_topic W.nonzero body ≡ false
      → w.faults ≡ []
      → let (x, b) = publish_result B sub body w.broker in
        produce sub body w ≡ (
          ok true,
          receive
              (json_response (publish_reply W.str x).1 (encodes (publish_reply W.str x).0).0)
              (record w { broker = b }),
        )
  unfolding produce
  produce-calm sub body w has calm = rw (has) (
      told (publish_result B sub body w.broker).0
        (record w { broker = (publish_result B sub body w.broker).1 }) calm)

  -- If no operation on the connection fails and every JSON value can be encoded, a request of an
  -- authorised client to publish an object with a topic calls the broker once, to publish what
  -- the object says under the client's subject, and is answered with status 200 and the receipt,
  -- or with 500 and the text of the exception, as the broker succeeds or fails; nothing else
  -- changes but the rate limits.
  pub handle_events_post-publishes :
      (r : Request W) (w : World B) (sub : String) (body : Fields W.Float)
      → starts_with r.path "/events/" ≡ true
      → W.url_path r.path ≡ "/events/produce"
      → (W.authorize (r.headers "Authorization") ("events:produce" ∷ []) producing w.limits).0
        ≡ ok (true, sub)
      → read_body r ≡ obj body
      → lacks_topic W.nonzero body ≡ false
      → w.faults ≡ []
      → let (x, b) = publish_result B sub body w.broker in
        handle_events_post r w ≡ (
          ok true,
          record w {
            limits =
                (W.authorize
                  (r.headers "Authorization")
                  ("events:produce" ∷ [])
                  producing
                  w.limits).1;
            broker = b;
            written =
                w.written
                ++ json_response (publish_reply W.str x).1 (encodes (publish_reply W.str x).0).0;
          },
        )
  unfolding handle_events_post post_event guarded_post admitted_post
  handle_events_post-publishes r w sub body route path allowed given has calm =
      let asked = authorized (r.headers "Authorization") ("events:produce" ∷ []) producing in
      rw (route, path)
        (bind-ok asked (admitted_post r "/events/produce") w (asked w).1 (true, sub)
            (ap (λ x. (x, (asked w).1)) allowed)
          ∙ admitted r sub body (asked w).1 given
          ∙ produce-calm sub body (asked w).1 has calm)
    where
      admitted :
          (r : Request W) (sub : String) (body : Fields W.Float) (v : World B)
          → read_body r ≡ obj body
          → admitted_post r "/events/produce" (true, sub) v ≡ produce sub body v
      admitted r sub body v given = rw (given) refl
