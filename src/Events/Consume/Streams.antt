-- ===== src/Events/Consume/Streams.antt =====
-- A whole event stream: headers, messages, the end and the clean-up.
use trinity_v4_ai_brain.Prelude.{ℕ, ◌+◌, ◌<◌, true, false, List, [], ◌∷◌, ◌++◌, ◌≡◌, refl, ◌∙◌}
use trinity_v4_ai_brain.Web.{Web, Broker, World, Frame, status, header, end_headers, ok, pure}
use trinity_v4_ai_brain.Web.Calm.{Encodes, bind-ok, emit_all-then, receive}
use trinity_v4_ai_brain.Http.{success}
use trinity_v4_ai_brain.Events.Consume.{answered, stream_loop, close_stream, end_stream, stream}
use trinity_v4_ai_brain.Events.Consume.Closing.{closed, close_stream-closes}
use trinity_v4_ai_brain.Events.Consume.Deadline.{stream_loop-ends}
use trinity_v4_ai_brain.Events.Consume.Delivery.{deliveries, events, delivery, stream_loop-delivers}

abbrev pub stream_headers : List Frame
stream_headers =
    status success
    ∷ header "Content-Type" "text/event-stream"
    ∷ header "Cache-Control" "no-cache"
    ∷ header "Connection" "keep-alive"
    ∷ end_headers
    ∷ []

pub pair-eq : {A C : Type 0} (x : A × C) (a : A) (c : C) → x.0 ≡ a → x.1 ≡ c → x ≡ (a, c)
pair-eq x a c e f = rw⁻¹ (e, f) refl

module _ {W : Web} {B : Broker W} where
  pub stream-completes :
      (encodes : Encodes W) (fuel : ℕ) (sub : B.Subscription) (clock : ℕ → W.Float)
      (timeout : W.Float) (j : ℕ) (w : World B)
      → w.faults ≡ []
      → B.has_close sub ≡ true
      → j < fuel
      → W.lt (W.sub (clock (1 + j)) (clock 0)) timeout ≡ false
      → stream fuel sub clock timeout w ≡ (
        ok answered,
        record w {
          written =
              w.written
              ++ stream_headers
              ++ events
                  (λ value. (encodes value).0)
                  (deliveries B fuel sub clock timeout 1 w.broker).0;
          broker = (B.close sub (deliveries B fuel sub clock timeout 1 w.broker).1).1;
        },
      )
  unfolding stream end_stream
  stream-completes encodes fuel sub clock timeout j w calm has less late =
      let v = receive stream_headers w in
      let d = deliveries B fuel sub clock timeout 1 w.broker in
      emit_all-then _ _ w calm
      ∙ bind-ok (stream_loop fuel sub clock timeout 1) (end_stream sub) v (delivery encodes v d)
          true
          (pair-eq _ (ok true) _ (stream_loop-ends fuel sub clock timeout 1 j v less late)
            (stream_loop-delivers encodes fuel sub clock timeout 1 v calm))
      ∙ bind-ok (close_stream sub) (λ _. pure answered) _ (closed sub (delivery encodes v d)) tt
          (close_stream-closes sub (delivery encodes v d) has)
