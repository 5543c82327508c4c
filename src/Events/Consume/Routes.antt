-- ===== src/Events/Consume/Routes.antt =====
-- The GET routes of an authorised client, from the request to the response.
use package.text.Mathlib.Text.{starts_with}
use trinity_v4_ai_brain.Prelude.{
  ◌<◌, ◌+◌, ◌++◌, ℕ, String, true, false, Option, none, [], ◌∷◌, ◌==◌, ◌≡◌, refl, ap, ◌∙◌,
  string_eq, ◌||◌,
}
use trinity_v4_ai_brain.Web.{
  Web, Broker, World, Request, Message, Fault, Result, ok, raised, pure, attempt, consuming,
  authorized, with_broker, recover,
}
use trinity_v4_ai_brain.Web.Calm.{Encodes, bind-ok, receive}
use trinity_v4_ai_brain.Http.{success}
use trinity_v4_ai_brain.Http.Sent.{json_response, reply_json-then}
use trinity_v4_ai_brain.Events.{continue}
use trinity_v4_ai_brain.Events.Consume.{
  answered, default_to, timeout_of, close_poll, poll_reply, poll_once, subscribed, admitted_get,
  get_event, handle_events_get,
}
use trinity_v4_ai_brain.Events.Consume.Closing.{closed, close_poll-closes}
use trinity_v4_ai_brain.Events.Consume.Streams.{stream-completes, stream_headers}
use trinity_v4_ai_brain.Events.Consume.GiveBack.{GivesBack, stream-GivesBack}
use trinity_v4_ai_brain.Events.Consume.Delivery.{deliveries, events}

-- The message that a poll gives: none if it fails.
abbrev pub message_of : {A : Type 0} → Result (Option A) → Option A
message_of (ok m) = m
message_of (raised e) = none

module _ {W : Web} {B : Broker W} where
  polling :
      (x : Result (Option (Message W.Float)) × B.State) (w : World B)
      → recover (x.0, record w { broker = x.1 }) (λ e. pure none)
        ≡ (ok (message_of x.0), record w { broker = x.1 })
  polling (ok m, b) w = refl
  polling (raised e, b) w = refl

  poll_once-calm :
      (encodes : Encodes W) (sub : B.Subscription) (timeout : W.Float) (w : World B)
      → B.has_close sub ≡ true
      → w.faults ≡ []
      → let (x, b) = B.poll sub timeout w.broker in
        poll_once sub timeout w ≡ (
          ok answered,
          receive
              (json_response 200 (encodes (poll_reply (message_of x))).0)
              (record w { broker = (B.close sub b).1 }),
        )
  unfolding poll_once
  poll_once-calm encodes sub timeout w has calm =
      let asked = record w { broker = (B.poll sub timeout w.broker).1 } in
      bind-ok (attempt (with_broker (B.poll sub timeout)) (λ e. pure none)) _ w asked _
        (polling (B.poll sub timeout w.broker) w)
      ∙ bind-ok (close_poll sub) _ asked (closed sub asked) tt (close_poll-closes sub asked has)
      ∙ reply_json-then _ success answered (closed sub asked) _ (encodes _).1 calm

-- A request of a client that may consume events, for a topic that the broker lets it subscribe.
module _ {W : Web} {B : Broker W} (fuel : ℕ) (r : Request W) (w : World B) (user : String)
    (sub : B.Subscription) (route : starts_with r.path "/events/" ≡ true)
    (allowed : (W.authorize
        (r.headers "Authorization")
        ("events:consume" ∷ [])
        consuming
        w.limits).0
      ≡ ok (true, user))
    (topic : (default_to "" (r.headers "X-Topic") == "") ≡ false)
    (made : (B.subscribe
        (default_to "" (r.headers "X-Topic"))
        (default_to user (r.headers "X-Group"))
        w.broker).0
      ≡ ok sub) where
  -- The world once the subscription is made.
  abbrev pub begun : World B
  begun = record w {
    limits = (W.authorize (r.headers "Authorization") ("events:consume" ∷ []) consuming w.limits).1;
    broker =
        (B.subscribe (default_to "" (r.headers "X-Topic")) (default_to user (r.headers "X-Group"))
          w.broker).1;
  }

  continued :
      {A C : Type 0} (x : Result A × World B) (v : World B) (a : A)
      (handler : Fault → World B → Result C × World B) (k : A → World B → Result C × World B)
      → x ≡ (ok a, v)
      → continue x handler k ≡ k a v
  continued x v a handler k e = rw (e) refl

  handle_events_get-subscribed :
      (path : String)
      → W.url_path r.path ≡ path
      → (path == "/events/consume" || path == "/events/poll") ≡ true
      → handle_events_get fuel r w ≡ subscribed fuel r path sub begun
  unfolding handle_events_get get_event admitted_get
  handle_events_get-subscribed path here known =
      let asked = authorized (r.headers "Authorization") ("events:consume" ∷ []) consuming in
      rw (route, here, known)
        (bind-ok asked (admitted_get fuel r path) w (asked w).1 (true, user)
            (ap (λ x. (x, (asked w).1)) allowed)
          ∙ rw (topic)
              (continued _ begun sub _ (subscribed fuel r path) (ap (λ x. (x, begun)) made)))

  -- If no operation on the connection fails, every JSON value can be encoded and the subscription
  -- can be closed, then a client that may consume events, for a topic that the broker lets it
  -- subscribe, is answered on /events/poll with status 200 and the message that one poll with the
  -- request's timeout gives, or null if it gives none or fails, and the subscription is closed.
  pub handle_events_get-polls :
      (encodes : Encodes W)
      → W.url_path r.path ≡ "/events/poll"
      → B.has_close sub ≡ true
      → w.faults ≡ []
      → let (x, b) = B.poll sub (timeout_of r) begun.broker in
        handle_events_get fuel r w ≡ (
          ok answered,
          receive
              (json_response 200 (encodes (poll_reply (message_of x))).0)
              (record begun { broker = (B.close sub b).1 }),
        )
  unfolding subscribed
  handle_events_get-polls encodes path has calm =
      handle_events_get-subscribed "/events/poll" path refl
      ∙ poll_once-calm encodes sub (timeout_of r) begun has calm

  -- If no operation on the connection fails, every JSON value can be encoded, the subscription
  -- can be closed, and a clock reading within the rounds observed reaches the request's timeout,
  -- then a client that may consume events, for a topic that the broker lets it subscribe,
  -- receives on /events/consume the headers of a stream and the events of exactly the messages
  -- that polling gives until the timeout or a failing poll, in their order; the stream ends, and
  -- the last call of the broker closes the subscription.
  pub handle_events_get-streams :
      (encodes : Encodes W) (j : ℕ)
      → W.url_path r.path ≡ "/events/consume"
      → B.has_close sub ≡ true
      → w.faults ≡ []
      → j < fuel
      → W.lt (W.sub (r.clock (1 + j)) (r.clock 0)) (timeout_of r) ≡ false
      → let (ms, b) = deliveries B fuel sub r.clock (timeout_of r) 1 begun.broker in
        handle_events_get fuel r w ≡ (
          ok answered,
          record begun {
            written = w.written ++ stream_headers ++ events (λ value. (encodes value).0) ms;
            broker = (B.close sub b).1;
          },
        )
  unfolding subscribed
  handle_events_get-streams encodes j path has calm less late =
      handle_events_get-subscribed "/events/consume" path refl
      ∙ stream-completes encodes fuel sub r.clock (timeout_of r) j begun calm has less late

  -- If the subscription can be closed and a clock reading within the rounds observed reaches the
  -- request's timeout, then the event stream of a client that may consume events, for a topic
  -- that the broker lets it subscribe, ends as follows, whatever else fails on the connection or
  -- in the broker: if writing the headers fails, with that exception, and the broker is as the
  -- subscription left it, neither polled nor closed; if it does not fail, as answered, and the
  -- broker has seen some polls and then the closing of the subscription.
  pub handle_events_get-GivesBack :
      (j : ℕ)
      → W.url_path r.path ≡ "/events/consume"
      → B.has_close sub ≡ true
      → j < fuel
      → W.lt (W.sub (r.clock (1 + j)) (r.clock 0)) (timeout_of r) ≡ false
      → GivesBack sub begun.broker w.faults (handle_events_get fuel r w)
  unfolding subscribed
  handle_events_get-GivesBack j path has less late =
      rw (handle_events_get-subscribed "/events/consume" path refl)
        (stream-GivesBack fuel sub r.clock (timeout_of r) j begun has less late)
