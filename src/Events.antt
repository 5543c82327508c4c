-- ===== src/Events.antt =====
-- The event handlers of trinity_comm_http.py.
pub mod Consume
pub mod Answered
pub mod Dead
pub mod Guard
pub mod Kept
pub mod Publish
use Prim.Native.String.{◌++◌ as str_append}
use text.Mathlib.Text.{starts_with}
use trinity_v4_ai_brain.Prelude.{
  ℕ, zero, suc, ◌+◌, String, Bool, true, false, not, ◌||◌, ◌&&◌, Option, none, some, List, [], ◌∷◌,
  ◌==◌, string_eq, if◌then◌else◌,
}
use trinity_v4_ai_brain.Json.{Json, Fields, null, bool, string, obj, field, end, get_or, truth}
use trinity_v4_ai_brain.Web.{
  Web, Broker, Message, Receipt, World, Request, Fault, failed, attribute_error, encode_error,
  Result, ok, raised, M, pure, raise, ◌>>=◌, ◌>>◌, attempt, some_or, emit, with_broker, authorized,
  status, header, end_headers, chunk, flush, error_page, Limiter, producing, consuming,
}
use trinity_v4_ai_brain.Http.{
  reply_json, read_body, refusal, detailed, success, bad_request, forbidden, not_found,
  internal_error, unavailable,
}

-- `_DeadBroker`: every method raises.
abbrev pub dead_broker : (W : Web) → Broker W
dead_broker W = record {
  State = Unit {0};
  Subscription = Unit {0};
  publish = λ topic payload key sender idk s. (raised (failed "broker unavailable"), s);
  ack = λ topic group mid s. (raised (failed "broker unavailable"), s);
  subscribe = λ topic group s. (raised (failed "broker unavailable"), s);
  poll = λ sub timeout s. (ok none, s);
  has_close = λ sub. false;
  has_unsubscribe = λ sub. false;
  close = λ sub s. (ok tt, s);
  unsubscribe = λ sub s. (ok tt, s);
}

-- BROKER: what `Broker()` makes, or the placeholder where it raises
abbrev pub broker_or_dead : {W : Web} → Option (Broker W) → Broker W
broker_or_dead {W} none = dead_broker W
broker_or_dead (some b) = b

module _ {S A C : Type 0} where
  abbrev pub continue : Result A × S → (Fault → M S C) → (A → M S C) → Result C × S
  continue (ok a, s) handler k = k a s
  continue (raised e, s) handler k = handler e s

  -- try: a = m, except Exception as e: return handler(e); the rest is outside of the `try`.
  abbrev pub try_else : M S A → (Fault → M S C) → (A → M S C) → M S C
  try_else m handler k s = continue (m s) handler k

-- The reply to a message that is published.
pub receipt_reply : {F : Type 0} → Receipt F → Json F
receipt_reply m = obj (field "success" (bool true) (field "id" m.id (field "ts" m.ts end)))

module _ {F : Type 0} (nonzero : F → Bool) where
  -- not topic
  abbrev lacks_topic : Fields F → Bool
  lacks_topic body = not (truth nonzero (get_or "topic" (string "") body))

  -- not (topic and group and mid)
  abbrev lacks_key : Fields F → Bool
  lacks_key body = not (
      truth nonzero (get_or "topic" (string "") body)
      && truth nonzero (get_or "group" (string "") body)
      && truth nonzero (get_or "id" (string "") body))

module _ {W : Web} {B : Broker W} where
  -- `_json(handler, …)`, then `return True`
  abbrev pub answer : Json W.Float → ℕ → M (World B) Bool
  answer value code = reply_json value code >> pure true

  -- body.get(…): only a dictionary has it.
  abbrev pub with_fields :
      {A : Type 0} → Json W.Float → (Fields W.Float → M (World B) A) → M (World B) A
  with_fields (obj fields) k = k fields
  with_fields _ k = raise attribute_error

  -- BROKER.publish(topic, payload, key=key, headers={"sub": sub}, idempotency_key=idk)
  abbrev publication : String → Fields W.Float → M (World B) (Receipt W.Float)
  publication sub body = with_broker (
      B.publish (get_or "topic" (string "") body) (get_or "payload" null body)
        (get_or "key" (string "") body) sub (get_or "idempotency_key" null body))

  -- BROKER.ack(topic, group, mid)
  abbrev acknowledgement : Fields W.Float → M (World B) Bool
  acknowledgement body = with_broker (
      B.ack (get_or "topic" (string "") body) (get_or "group" (string "") body)
        (get_or "id" (string "") body))

  abbrev publish_failure : Fault → M (World B) Bool
  publish_failure e = answer (detailed "broker error" (W.str e)) internal_error

  abbrev published : Receipt W.Float → M (World B) Bool
  published m = answer (receipt_reply m) success

  abbrev ack_failure : Fault → M (World B) Bool
  ack_failure e = answer (refusal "broker error") internal_error

  abbrev acked : Bool → M (World B) Bool
  acked done = answer (obj (field "success" (bool done) end)) success

  pub produce : String → Fields W.Float → M (World B) Bool
  produce sub body =
      if lacks_topic W.nonzero body
      then answer (refusal "topic required") bad_request
      else try_else (publication sub body) publish_failure published

  pub acknowledge : Fields W.Float → M (World B) Bool
  acknowledge body =
      if lacks_key W.nonzero body
      then answer (refusal "topic/group/id required") bad_request
      else try_else (acknowledgement body) ack_failure acked

  -- What follows the authorisation of a POST request.
  admitted_post : Request W → String → Bool × String → M (World B) Bool
  admitted_post r path (false, sub) = answer (refusal sub) forbidden
  admitted_post r path (true, sub) =
      if path == "/events/produce"
      then with_fields (read_body r) (produce sub)
      else if path == "/events/ack"
      then with_fields (read_body r) acknowledge
      else answer (refusal "not handled") not_found

  guarded_post : Request W → String → List String → Limiter → M (World B) Bool
  guarded_post r path scopes limiter =
      authorized (r.headers "Authorization") scopes limiter >>= admitted_post r path

  post_event : Request W → String → M (World B) Bool
  post_event r path =
      if path == "/events/produce"
      then guarded_post r path ("events:produce" ∷ []) producing
      else if path == "/events/ack"
      then guarded_post r path ("events:consume" ∷ []) consuming
      else answer (refusal "unknown endpoint") not_found

  -- handle_events_POST
  unfoldable pub handle_events_post : Request W → M (World B) Bool
  unfolding post_event guarded_post admitted_post produce acknowledge receipt_reply
  handle_events_post r =
      if starts_with r.path "/events/" then post_event r (W.url_path r.path) else pure false
