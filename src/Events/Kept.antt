-- ===== src/Events/Kept.antt =====
-- What the handler of the POST event routes keeps, on every path.
use package.text.Mathlib.Text.{starts_with}
use trinity_v4_ai_brain.Prelude.{ℕ, String, Bool, true, false, Option, List, ◌==◌, string_eq}
use trinity_v4_ai_brain.Json.{Json, Fields, obj}
use trinity_v4_ai_brain.Web.{
  Web, Broker, World, Request, Fault, Result, ok, raised, M, with_broker, authorized, Limiter,
}
use trinity_v4_ai_brain.Web.Kept.{Keeps, IgnoresWire, Keeps-bind, Keeps-if, Keeps-pure, Keeps-raise}
use trinity_v4_ai_brain.Http.Kept.{reply_json-Keeps}
use trinity_v4_ai_brain.Events.{
  answer, lacks_topic, lacks_key, with_fields, continue, try_else, publication, publish_failure,
  published, acknowledgement, ack_failure, acked, produce, acknowledge, admitted_post, guarded_post,
  post_event, handle_events_post,
}
use trinity_v4_ai_brain.Events.Consume.{answered, reply}

module _ {S A C : Type 0} (P : S → Type 0) where
  continue-end :
      (r : Result A × S) (handler : Fault → M S C) (k : A → M S C)
      → ((e : Fault) → Keeps P (handler e))
      → ((a : A) → Keeps P (k a))
      → P r.1
      → P (continue r handler k).1
  continue-end (ok a, s) handler k h l p = (l a).at s p
  continue-end (raised e, s) handler k h l p = (h e).at s p

  pub try_else-Keeps :
      (m : M S A) (handler : Fault → M S C) (k : A → M S C)
      → Keeps P m
      → ((e : Fault) → Keeps P (handler e))
      → ((a : A) → Keeps P (k a))
      → Keeps P (try_else m handler k)
  try_else-Keeps m handler k first h l = record {
    at = λ s p. continue-end (m s) handler k h l (first.at s p);
  }

module _ {W : Web} {B : Broker W} (P : World B → Type 0) (ignores : IgnoresWire P) where
  pub answer-Keeps : (value : Json W.Float) (code : ℕ) → Keeps P (answer value code)
  answer-Keeps value code =
      Keeps-bind P _ _ (reply_json-Keeps P ignores value code) (λ _. Keeps-pure P true)

  pub reply-Keeps : (value : Json W.Float) (code : ℕ) → Keeps P (reply value code)
  reply-Keeps value code =
      Keeps-bind P _ _ (reply_json-Keeps P ignores value code) (λ _. Keeps-pure P answered)

module _ {W : Web} {B : Broker W} (P : World B → Type 0) where
  pub with_fields-Keeps :
      {A : Type 0} (j : Json W.Float) (k : Fields W.Float → M (World B) A)
      → ((fields : Fields W.Float) → Keeps P (k fields))
      → Keeps P (with_fields j k)
  with_fields-Keeps (obj fields) k h = h fields
  with_fields-Keeps _ k h = Keeps-raise P _

-- `P` does not look at the broker, or at the rate limits.
abbrev pub IgnoresBroker : {W : Web} {B : Broker W} → (World B → Type 0) → Type 0
IgnoresBroker {B} P = (w : World B) (b : B.State) → P w → P (record w { broker = b })

abbrev pub IgnoresLimits : {W : Web} {B : Broker W} → (World B → Type 0) → Type 0
IgnoresLimits {W} {B} P = (w : World B) (l : W.Limits) → P w → P (record w { limits = l })

module _ {W : Web} {B : Broker W} (P : World B → Type 0) where
  pub Keeps-with_broker :
      {A : Type 0} (call : B.State → Result A × B.State)
      → IgnoresBroker P
      → Keeps P (with_broker call)
  Keeps-with_broker call ignores = record { at = λ w p. ignores w _ p }

  pub Keeps-authorized :
      (token : Option String) (scopes : List String) (limiter : Limiter)
      → IgnoresLimits P
      → Keeps P (authorized token scopes limiter)
  Keeps-authorized token scopes limiter ignores = record { at = λ w p. ignores w _ p }

-- A request changes nothing that `P` sees, if `P` sees neither the connection nor the rate limits
-- nor the broker.
module _ {W : Web} {B : Broker W} (P : World B → Type 0) (wire : IgnoresWire P)
    (brokers : IgnoresBroker P) (limits : IgnoresLimits P) where
  produce-Keeps : (sub : String) (body : Fields W.Float) → Keeps P (produce sub body)
  unfolding produce
  produce-Keeps sub body = Keeps-if P (lacks_topic W.nonzero body) _ _ (answer-Keeps P wire _ _) (
      try_else-Keeps P (publication sub body) publish_failure published
        (Keeps-with_broker P _ brokers) (λ e. answer-Keeps P wire _ _)
        (λ m. answer-Keeps P wire _ _))

  acknowledge-Keeps : (body : Fields W.Float) → Keeps P (acknowledge body)
  unfolding acknowledge
  acknowledge-Keeps body = Keeps-if P (lacks_key W.nonzero body) _ _ (answer-Keeps P wire _ _) (
      try_else-Keeps P (acknowledgement body) ack_failure acked (Keeps-with_broker P _ brokers)
        (λ e. answer-Keeps P wire _ _) (λ m. answer-Keeps P wire _ _))

  admitted_post-Keeps :
      (r : Request W) (path : String) (x : Bool × String) → Keeps P (admitted_post r path x)
  unfolding admitted_post
  admitted_post-Keeps r path (false, sub) = answer-Keeps P wire _ _
  admitted_post-Keeps r path (true, sub) =
      Keeps-if P (path == "/events/produce") _ _ (with_fields-Keeps P _ _ (produce-Keeps sub)) (
        Keeps-if P (path == "/events/ack") _ _ (with_fields-Keeps P _ _ acknowledge-Keeps)
          (answer-Keeps P wire _ _))

  guarded_post-Keeps :
      (r : Request W) (path : String) (scopes : List String) (limiter : Limiter)
      → Keeps P (guarded_post r path scopes limiter)
  unfolding guarded_post
  guarded_post-Keeps r path scopes limiter =
      Keeps-bind P _ _ (Keeps-authorized P _ _ _ limits) (admitted_post-Keeps r path)

  post_event-Keeps : (r : Request W) (path : String) → Keeps P (post_event r path)
  unfolding post_event
  post_event-Keeps r path =
      Keeps-if P (path == "/events/produce") _ _ (guarded_post-Keeps r path _ _) (
        Keeps-if P (path == "/events/ack") _ _ (guarded_post-Keeps r path _ _)
          (answer-Keeps P wire _ _))

  pub handle_events_post-Keeps : (r : Request W) → Keeps P (handle_events_post r)
  unfolding handle_events_post
  handle_events_post-Keeps r =
      Keeps-if P (starts_with r.path "/events/") _ _ (post_event-Keeps r (W.url_path r.path))
        (Keeps-pure P false)
