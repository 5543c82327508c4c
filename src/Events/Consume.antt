-- ===== src/Events/Consume.antt =====
-- `handle_events_GET` of trinity_comm_http.py: the single poll and the event stream.
pub mod Closing
pub mod Dead
pub mod Deadline
pub mod Delivery
pub mod GiveBack
pub mod Routes
pub mod Streams
pub mod Guard
use Prim.Native.String.{◌++◌ as str_append}
use trinity_v4_ai_brain.Prelude.{
  ℕ, zero, suc, ◌+◌, String, Bool, true, false, not, ◌||◌, Option, none, some, List, [], ◌∷◌, ◌==◌,
  string_eq, if◌then◌else◌,
}
use package.text.Mathlib.Text.{starts_with}
use trinity_v4_ai_brain.Json.{Json, null, bool, string, obj, field, end}
use trinity_v4_ai_brain.Web.{
  Web, Broker, Message, World, Request, Fault, encode_error, Result, ok, raised, M, pure, raise,
  ◌>>=◌, ◌>>◌, attempt, some_or, emit, send_head, with_broker, authorized, status, header,
  end_headers, chunk, flush, error_page, Limiter, consuming,
}
use trinity_v4_ai_brain.Http.{
  reply_json, refusal, detailed, success, bad_request, forbidden, not_found, unavailable,
}
use trinity_v4_ai_brain.Events.{try_else}

-- How far a GET request has come: it is of no event route, it is answered, or its stream goes on.
pub data Progress : Type 0 where
  passed answered streaming : Progress

abbrev pub message_json : {F : Type 0} → Message F → Json F
message_json m = obj (
    field "id" m.id (
      field "topic" m.topic
        (field "ts" m.ts (field "headers" m.headers (field "payload" m.payload end)))))

abbrev pub poll_reply : {F : Type 0} → Option (Message F) → Json F
poll_reply none = obj (field "success" (bool true) (field "message" null end))
poll_reply (some m) = obj (field "success" (bool true) (field "message" (message_json m) end))

abbrev pub default_to : {A : Type 0} → A → Option A → A
default_to d none = d
default_to d (some a) = a

module _ {W : Web} where
  -- float(headers.get("X-Timeout", "25") or 25.0), or 25.0 where that raises
  unfoldable pub timeout_of : Request W → W.Float
  timeout_of r = elim (r.headers "X-Timeout") [
    | none ↦ default_to W.default_timeout (W.parse_float "25")
    | some s ↦ if s == "" then W.default_timeout else default_to W.default_timeout (W.parse_float s)
  ]

module _ {W : Web} {B : Broker W} where
  abbrev pub reply : Json W.Float → ℕ → M (World B) Progress
  reply value code = reply_json value code >> pure answered

  abbrev pub quietly : M (World B) (Unit {0}) → M (World B) (Unit {0})
  quietly m = attempt m (λ e. pure tt)

  -- The `finally` clause of the poll.
  unfoldable pub close_poll : B.Subscription → M (World B) (Unit {0})
  close_poll sub = if B.has_close sub then quietly (with_broker (B.close sub)) else pure tt

  -- The `finally` clause of the stream.
  unfoldable pub close_stream : B.Subscription → M (World B) (Unit {0})
  close_stream sub = quietly (
      if B.has_close sub
      then with_broker (B.close sub)
      else if B.has_unsubscribe sub
      then with_broker (B.unsubscribe sub)
      else pure tt)

  unfoldable pub poll_once : B.Subscription → W.Float → M (World B) Progress
  poll_once sub timeout = do
    message ← attempt (with_broker (B.poll sub timeout)) (λ e. pure none)
    close_poll sub
    reply (poll_reply message) success

  -- One message as a server-sent event.
  unfoldable pub write_event : Message W.Float → M (World B) (Unit {0})
  write_event m = do
    blob ← some_or encode_error (W.dumps (message_json m))
    emit (chunk "event: message\n")
    emit (chunk (str_append "data: " (str_append blob "\n\n")))
    quietly (emit flush)

  after_poll : Option (Message W.Float) → M (World B) Bool
  after_poll none = pure true
  after_poll (some m) = attempt (write_event m >> pure true) (λ e. pure false)

  -- One round of the stream; the result says whether the loop goes on.
  unfoldable pub stream_round : B.Subscription → M (World B) Bool
  unfolding after_poll
  stream_round sub = try_else (with_broker (B.poll sub W.one_second)) (λ e. pure false) after_poll

  abbrev unless_done : Bool → M (World B) Bool → M (World B) Bool
  unless_done false rest = pure true
  unless_done true rest = rest

  -- The loop, for at most so many rounds; the result says whether it has ended. `k` counts the
  -- calls of the clock, of which the first gave the start.
  unfoldable pub stream_loop : ℕ → B.Subscription → (ℕ → W.Float) → W.Float → ℕ → M (World B) Bool
  stream_loop zero sub clock timeout k = pure false
  stream_loop (suc fuel) sub clock timeout k = elim (W.lt (W.sub (clock k) (clock 0)) timeout) [
    | false ↦ pure true
    | true ↦
        stream_round sub >>= λ more. unless_done more (stream_loop fuel sub clock timeout (k + 1))
  ]

  end_stream : B.Subscription → Bool → M (World B) Progress
  end_stream sub false = pure streaming
  end_stream sub true = close_stream sub >> pure answered

  unfoldable pub stream : ℕ → B.Subscription → (ℕ → W.Float) → W.Float → M (World B) Progress
  unfolding end_stream
  stream fuel sub clock timeout = do
    send_head success (
        header "Content-Type" "text/event-stream"
        ∷ header "Cache-Control" "no-cache"
        ∷ header "Connection" "keep-alive"
        ∷ [])
    ended ← stream_loop fuel sub clock timeout 1
    end_stream sub ended

  subscribed : ℕ → Request W → String → B.Subscription → M (World B) Progress
  subscribed fuel r path sub =
      if path == "/events/poll"
      then poll_once sub (timeout_of r)
      else stream fuel sub r.clock (timeout_of r)

  -- What follows the authorisation of a GET request.
  pub admitted_get : ℕ → Request W → String → Bool × String → M (World B) Progress
  admitted_get fuel r path (false, sub) = reply (refusal sub) forbidden
  admitted_get fuel r path (true, sub) =
      let topic = default_to "" (r.headers "X-Topic") in
      if topic == ""
      then reply (refusal "X-Topic required") bad_request
      else try_else (with_broker (B.subscribe topic (default_to sub (r.headers "X-Group"))))
          (λ e. reply (detailed "broker unavailable" (W.str e)) unavailable)
          (subscribed fuel r path)

  get_event : ℕ → Request W → String → M (World B) Progress
  get_event fuel r path =
      if not (path == "/events/consume" || path == "/events/poll")
      then emit (error_page not_found "Not found") >> pure answered
      else authorized (r.headers "Authorization") ("events:consume" ∷ []) consuming
        >>= admitted_get fuel r path

  -- handle_events_GET, with at most `fuel` rounds of the stream observed
  unfoldable pub handle_events_get : ℕ → Request W → M (World B) Progress
  unfolding get_event admitted_get subscribed
  handle_events_get fuel r =
      if starts_with r.path "/events/" then get_event fuel r (W.url_path r.path) else pure passed
