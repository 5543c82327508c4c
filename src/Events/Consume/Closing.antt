-- ===== src/Events/Consume/Closing.antt =====
-- How the GET routes close their subscriptions.
use trinity_v4_ai_brain.Prelude.{true, Option, none, ◌≡◌, refl, ◌∙◌}
use trinity_v4_ai_brain.Web.{
  Web, Broker, World, Message, Result, ok, raised, recover, attempt, with_broker, pure, ◌>>◌,
}
use trinity_v4_ai_brain.Web.Calm.{bind-ok}
use trinity_v4_ai_brain.Http.{success}
use trinity_v4_ai_brain.Events.Kept.{reply-Keeps}
use trinity_v4_ai_brain.Events.Consume.{close_poll, close_stream, poll_once, poll_reply, reply}

module _ {W : Web} {B : Broker W} where
  quiet_call :
      (x : Result (Unit {0}) × B.State) (w : World B)
      → recover (x.0, record w { broker = x.1 }) (λ e. pure tt) ≡ (ok tt, record w { broker = x.1 })
  quiet_call (ok tt, b) w = refl
  quiet_call (raised e, b) w = refl

  -- The world in which the subscription is closed.
  abbrev pub closed : B.Subscription → World B → World B
  closed sub w = record w { broker = (B.close sub w.broker).1 }

  pub close_poll-closes :
      (sub : B.Subscription) (w : World B)
      → B.has_close sub ≡ true
      → close_poll sub w ≡ (ok tt, closed sub w)
  unfolding close_poll
  close_poll-closes sub w has = rw (has) (quiet_call (B.close sub w.broker) w)

  pub close_stream-closes :
      (sub : B.Subscription) (w : World B)
      → B.has_close sub ≡ true
      → close_stream sub w ≡ (ok tt, closed sub w)
  unfolding close_stream
  close_stream-closes sub w has = rw (has) (quiet_call (B.close sub w.broker) w)

  -- What the poll gives, and the world after it.
  polled :
      (x : Result (Option (Message W.Float)) × B.State) (w : World B)
      → (m : Option (Message W.Float)) × (recover (x.0, record w { broker = x.1 }) (λ e. pure none)
          ≡ (ok m, record w { broker = x.1 }))
  polled (ok m, b) w = (m, refl)
  polled (raised e, b) w = (none, refl)

  -- A poll whose subscription can be closed closes it after the one poll, and the broker sees
  -- nothing else, whether the poll, the closing or the reply fails or not.
  pub poll_once-closes :
      (sub : B.Subscription) (timeout : W.Float) (w : World B)
      → B.has_close sub ≡ true
      → (poll_once sub timeout w).1.broker ≡ (B.close sub (B.poll sub timeout w.broker).1).1
  unfolding poll_once
  poll_once-closes sub timeout w has =
      let polling = attempt (with_broker (B.poll sub timeout)) (λ e. pure none) in
      let asked = record w { broker = (B.poll sub timeout w.broker).1 } in
      let (m, e) = polled (B.poll sub timeout w.broker) w in
      rw
        (bind-ok polling (λ message. close_poll sub >> reply (poll_reply message) success) w asked m
            e
          ∙ bind-ok (close_poll sub) _ asked (closed sub asked) tt
              (close_poll-closes sub asked has))
        ((reply-Keeps (λ v. v.broker ≡ (B.close sub (B.poll sub timeout w.broker).1).1)
            (λ v fs frames p. p) (poll_reply m) success).at
          (closed sub asked) refl)
