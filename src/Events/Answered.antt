-- ===== src/Events/Answered.antt =====
-- What a client of the POST routes receives when no operation on the connection fails.
use package.text.Mathlib.Text.{starts_with}
use trinity_v4_ai_brain.Prelude.{
  ℕ, String, Bool, true, false, some, List, [], ◌++◌, ◌==◌, ◌≡◌, refl, ap, ◌⊎◌, inl, inr, string_eq,
  if◌then◌else◌,
}
use trinity_v4_ai_brain.Json.{Json, is_object, Fields, obj}
use trinity_v4_ai_brain.Web.{
  Web, Broker, World, Frame, Request, Result, ok, raised, M, pure, authorized, Limiter,
  attribute_error, Fault,
}
use trinity_v4_ai_brain.Web.Calm.{Encodes, Decides, bind-ok}
use trinity_v4_ai_brain.Http.{reply_json, read_body}
use trinity_v4_ai_brain.Http.Sent.{json_response, reply_json-sent}
use trinity_v4_ai_brain.Events.{
  answer, lacks_topic, lacks_key, with_fields, try_else, continue, publication, publish_failure,
  published, acknowledgement, ack_failure, acked, produce, acknowledge, admitted_post, guarded_post,
  post_event, handle_events_post,
}

module _ {W : Web} {B : Broker W} where
  -- The handler has taken the request, and the client has one whole JSON response.
  pub record Answered (before : List Frame) (outcome : Result Bool × World B) : Type 0 where
    pub code : ℕ
    pub value : Json W.Float
    pub data_text : String
    pub encoded : W.dumps value ≡ some data_text
    pub taken : outcome.0 ≡ ok true
    pub written : outcome.1.written ≡ before ++ json_response code data_text

  -- The handler ends with an `AttributeError`, and the client has nothing.
  pub record Dropped (before : List Frame) (outcome : Result Bool × World B) : Type 0 where
    pub lost : outcome.0 ≡ raised attribute_error
    pub unwritten : outcome.1.written ≡ before

module _ {W : Web} {B : Broker W} (encodes : Encodes W) where
  answer-Answered :
      (value : Json W.Float) (code : ℕ) (w : World B)
      → w.faults ≡ []
      → Answered w.written (answer value code w)
  answer-Answered value code w calm =
      let (data_text, encoded) = encodes value in
      let e =
        bind-ok (reply_json value code) (λ _. pure true) w _ tt
          (reply_json-sent value code w data_text encoded calm) in
      rw (e) (record {
        code = code;
        value = value;
        data_text = data_text;
        encoded = encoded;
        taken = refl;
        written = refl;
      })

  if-Answered :
      (before : List Frame) (b : Bool) (m n : M (World B) Bool) (w : World B)
      → Answered before (m w)
      → Answered before (n w)
      → Answered before ((if b then m else n) w)
  if-Answered before true m n w x y = x
  if-Answered before false m n w x y = y

  continue-Answered :
      {A : Type 0} (before : List Frame) (x : Result A) (w : World B)
      (handler : Fault → M (World B) Bool) (k : A → M (World B) Bool)
      → ((e : Fault) → Answered before (handler e w))
      → ((a : A) → Answered before (k a w))
      → Answered before (continue (x, w) handler k)
  continue-Answered before (ok a) w handler k h l = l a
  continue-Answered before (raised e) w handler k h l = h e

  try_else-Answered :
      {A : Type 0} (before : List Frame) (m : M (World B) A) (handler : Fault → M (World B) Bool)
      (k : A → M (World B) Bool) (w : World B)
      → ((e : Fault) → Answered before (handler e (m w).1))
      → ((a : A) → Answered before (k a (m w).1))
      → Answered before (try_else m handler k w)
  try_else-Answered before m handler k w h l =
      continue-Answered before (m w).0 (m w).1 handler k h l

  produce-Answered :
      (sub : String) (body : Fields W.Float) (w : World B)
      → w.faults ≡ []
      → Answered w.written (produce sub body w)
  unfolding produce
  produce-Answered sub body w calm =
      if-Answered w.written (lacks_topic W.nonzero body) _ _ w (answer-Answered _ _ w calm) (
        try_else-Answered w.written (publication sub body) publish_failure published w
          (λ e. answer-Answered _ _ _ calm) (λ m. answer-Answered _ _ _ calm))

  acknowledge-Answered :
      (body : Fields W.Float) (w : World B)
      → w.faults ≡ []
      → Answered w.written (acknowledge body w)
  unfolding acknowledge
  acknowledge-Answered body w calm =
      if-Answered w.written (lacks_key W.nonzero body) _ _ w (answer-Answered _ _ w calm) (
        try_else-Answered w.written (acknowledgement body) ack_failure acked w
          (λ e. answer-Answered _ _ _ calm) (λ m. answer-Answered _ _ _ calm))

  -- A request is answered, or its body is not an object.
  abbrev Settled : List Frame → Json W.Float → Result Bool × World B → Type 0
  Settled before body outcome =
      Answered before outcome ⊎ ((is_object body ≡ false) × Dropped before outcome)

  with_fields-Settled :
      (j : Json W.Float) (k : Fields W.Float → M (World B) Bool) (w : World B)
      → ((fields : Fields W.Float) → Answered w.written (k fields w))
      → Settled w.written j (with_fields j k w)
  with_fields-Settled (obj fields) k w h = inl (h fields)
  with_fields-Settled _ k w h = inr (refl, record { lost = refl; unwritten = refl })

  if-Settled :
      (before : List Frame) (j : Json W.Float) (b : Bool) (m n : M (World B) Bool) (w : World B)
      → Settled before j (m w)
      → Settled before j (n w)
      → Settled before j ((if b then m else n) w)
  if-Settled before j true m n w x y = x
  if-Settled before j false m n w x y = y

  admitted_post-Settled :
      (r : Request W) (path : String) (x : Bool × String) (w : World B)
      → w.faults ≡ []
      → Settled w.written (read_body r) (admitted_post r path x w)
  unfolding admitted_post
  admitted_post-Settled r path (false, sub) w calm = inl (answer-Answered _ _ w calm)
  admitted_post-Settled r path (true, sub) w calm =
      if-Settled w.written (read_body r) (path == "/events/produce") _ _ w
        (with_fields-Settled (read_body r) _ w (λ body. produce-Answered sub body w calm))
        (if-Settled w.written (read_body r) (path == "/events/ack") _ _ w
          (with_fields-Settled (read_body r) _ w (λ body. acknowledge-Answered body w calm))
          (inl (answer-Answered _ _ w calm)))

  guarded_post-Settled :
      (r : Request W) (path : String) (scopes : List String) (limiter : Limiter) (w : World B)
      → w.faults ≡ []
      → (sub : Bool × String) × ((W.authorize (r.headers "Authorization") scopes limiter w.limits).0
          ≡ ok sub)
      → Settled w.written (read_body r) (guarded_post r path scopes limiter w)
  unfolding guarded_post
  guarded_post-Settled r path scopes limiter w calm (sub, e) =
      let asked = authorized (r.headers "Authorization") scopes limiter in
      let first : asked w ≡ (ok sub, (asked w).1) = ap (λ x. (x, (asked w).1)) e in
      rw (bind-ok asked (admitted_post r path) w (asked w).1 sub first)
        (admitted_post-Settled r path sub (asked w).1 calm)

  post_event-Settled :
      Decides W
      → (r : Request W) (path : String) (w : World B) → w.faults ≡ []
      → Settled w.written (read_body r) (post_event r path w)
  unfolding post_event
  post_event-Settled decides r path w calm =
      if-Settled w.written (read_body r) (path == "/events/produce") _ _ w
        (guarded_post-Settled r path _ _ w calm (decides _ _ _ _))
        (if-Settled w.written (read_body r) (path == "/events/ack") _ _ w
          (guarded_post-Settled r path _ _ w calm (decides _ _ _ _))
          (inl (answer-Answered _ _ w calm)))

  -- If no operation on the connection fails, the authorisation returns, and every JSON value can
  -- be encoded, then a POST request under /events/ is taken and answered with one whole JSON
  -- response, or else its body is JSON that is not an object, and it ends with an AttributeError
  -- and no response.
  pub handle_events_post-answers :
      Decides W
      → (r : Request W) (w : World B) → starts_with r.path "/events/" ≡ true
      → w.faults ≡ []
      → Answered w.written (handle_events_post r w)
        ⊎ ((is_object (read_body r) ≡ false) × Dropped w.written (handle_events_post r w))
  unfolding handle_events_post
  handle_events_post-answers decides r w route calm =
      rw (route) (post_event-Settled decides r (W.url_path r.path) w calm)
