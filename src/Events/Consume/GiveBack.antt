-- ===== src/Events/Consume/GiveBack.antt =====
-- How the event stream of `handle_events_GET` gives its subscription back, for every fault of the
-- connection.
use trinity_v4_ai_brain.Prelude.{
  ℕ, ◌+◌, ◌<◌, true, false, Option, none, some, List, [], ◌∷◌, ◌≡◌, refl, ap, ◌∙◌,
}
use trinity_v4_ai_brain.Web.{
  Web, Broker, World, Fault, Result, ok, raised, M, pure, ◌>>=◌, bind_result,
}
use trinity_v4_ai_brain.Web.Calm.{bind-ok, emitted, emit_all-emitted}
use trinity_v4_ai_brain.Events.Consume.{
  Progress, answered, stream_loop, close_stream, end_stream, stream,
}
use trinity_v4_ai_brain.Events.Consume.Closing.{closed, close_stream-closes}
use trinity_v4_ai_brain.Events.Consume.Deadline.{polls, returned, stream_loop-Returns}
use trinity_v4_ai_brain.Events.Consume.Streams.{pair-eq, stream_headers}

module _ {W : Web} {B : Broker W} where
  -- The stream has ended, and the broker has seen polls and then the closing.
  abbrev pub Closed : B.Subscription → B.State → Result Progress × World B → Type 0
  Closed sub b x =
      (x.0 ≡ ok answered) × ((n : ℕ) × (x.1.broker ≡ (B.close sub (polls B sub n b)).1))

  -- How a stream ends from a broker in which it is subscribed, with these faults to come: if the
  -- first operation fails, with its exception and the broker as it is; if not, closed.
  abbrev pub GivesBack :
      B.Subscription → B.State → List (Option Fault) → Result Progress × World B → Type 0
  GivesBack sub b [] x = Closed sub b x
  GivesBack sub b (none ∷ faults) x = Closed sub b x
  GivesBack sub b (some e ∷ faults) x = (x.0 ≡ raised e) × (x.1.broker ≡ b)

  -- After the headers.
  loop-Closed :
      (fuel : ℕ) (sub : B.Subscription) (clock : ℕ → W.Float) (timeout : W.Float) (j : ℕ)
      (w : World B)
      → B.has_close sub ≡ true
      → j < fuel
      → W.lt (W.sub (clock (1 + j)) (clock 0)) timeout ≡ false
      → Closed sub w.broker ((stream_loop fuel sub clock timeout 1 >>= end_stream sub) w)
  unfolding end_stream
  loop-Closed fuel sub clock timeout j w has less late =
      let loop = stream_loop fuel sub clock timeout 1 in
      let v = (loop w).1 in
      let (e, (n, p)) =
        returned (λ v. (n : ℕ) × (v.broker ≡ polls B sub n w.broker)) (loop w)
          (stream_loop-Returns fuel sub clock timeout 1 j w less late) in
      rw
        (bind-ok loop (end_stream sub) w v true (pair-eq (loop w) (ok true) v e refl)
          ∙ bind-ok (close_stream sub) (λ _. pure answered) v (closed sub v) tt
              (close_stream-closes sub v has))
        (refl, (n, ap (λ b. (B.close sub b).1) p))

  pub stream-GivesBack :
      (fuel : ℕ) (sub : B.Subscription) (clock : ℕ → W.Float) (timeout : W.Float) (j : ℕ)
      (w : World B)
      → B.has_close sub ≡ true
      → j < fuel
      → W.lt (W.sub (clock (1 + j)) (clock 0)) timeout ≡ false
      → GivesBack sub w.broker w.faults (stream fuel sub clock timeout w)
  unfolding stream
  stream-GivesBack fuel sub clock timeout j w has less late =
      rw (emit_all-emitted stream_headers w) (go w.faults)
    where
      after : M (World B) Progress
      after = stream_loop fuel sub clock timeout 1 >>= end_stream sub

      go :
          (fs : List (Option Fault))
          → GivesBack sub w.broker fs (bind_result (emitted stream_headers w fs) (λ _. after))
      go [] = loop-Closed fuel sub clock timeout j _ has less late
      go (none ∷ fs) = loop-Closed fuel sub clock timeout j _ has less late
      go (some e ∷ fs) = (refl, refl)
