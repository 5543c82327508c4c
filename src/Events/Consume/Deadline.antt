-- ===== src/Events/Consume/Deadline.antt =====
-- The end of the loop of the event stream in `handle_events_GET`.
use trinity_v4_ai_brain.Prelude.{
  ℕ, zero, suc, ◌+◌, ◌<◌, Bool, true, false, Option, none, some, ◌≡◌, refl, arith, ap, ◌∙◌, inl,
  inr, Bool-cases,
}
use trinity_v4_ai_brain.Web.{
  Web, Broker, World, Message, Result, ok, raised, M, recover, with_broker, pure, encode_error,
}
use trinity_v4_ai_brain.Web.Kept.{
  Keeps, IgnoresWire, Keeps-bind, Keeps-some_or, Keeps-emit_all, Keeps-attempt, Keeps-pure,
}
use trinity_v4_ai_brain.Web.Ends.{Ends, Ends-bind}
use trinity_v4_ai_brain.Events.{continue}
use trinity_v4_ai_brain.Events.Consume.{
  stream_round, stream_loop, unless_done, after_poll, write_event, message_json,
}

module _ {S : Type 0} where
  -- The code returns a value, and `Q` of it and of the state.
  abbrev pub Returns : {A : Type 0} → (A → S → Type 0) → Result A × S → Type 0
  Returns Q = Ends Q (λ _. ⊥)

  recover-Returns :
      (P : S → Type 0) (x : Result Bool × S)
      → P x.1
      → Returns (λ _. P) (recover x (λ e. pure false))
  recover-Returns P (ok b, s) p = p
  recover-Returns P (raised e, s) p = p

  continue-Returns :
      {A : Type 0} (P : S → Type 0) (x : Result A × S) (k : A → M S Bool)
      → P x.1
      → ((a : A) (s : S) → P s → Returns (λ _. P) (k a s))
      → Returns (λ _. P) (continue x (λ e. pure false) k)
  continue-Returns P (ok a, s) k p h = h a s p
  continue-Returns P (raised e, s) k p h = p

  pub returned :
      (P : S → Type 0) (x : Result Bool × S)
      → Returns (λ b t. (b ≡ true) × P t) x
      → (x.0 ≡ ok true) × P x.1
  returned P (ok b, s) (e, p) = (ap ok e, p)
  returned P (raised e, s) h = absurd h

-- The broker after so many polls of a stream.
abbrev pub polls : {W : Web} (B : Broker W) → B.Subscription → ℕ → B.State → B.State
polls B sub zero b = b
polls {W} B sub (suc n) b = polls B sub n (B.poll sub W.one_second b).1

module _ {W : Web} {B : Broker W} where
  write_event-Keeps :
      (P : World B → Type 0) → IgnoresWire P → (m : Message W.Float) → Keeps P (write_event m)
  unfolding write_event
  write_event-Keeps P ignores m =
      Keeps-bind P _ _ (Keeps-some_or P encode_error (W.dumps (message_json m))) λ blob.
        Keeps-bind P _ _ (Keeps-emit_all P _ ignores) λ _.
          Keeps-bind P _ _ (Keeps-emit_all P _ ignores)
            λ _. Keeps-attempt P _ _ (Keeps-emit_all P _ ignores) (λ e. Keeps-pure P tt)

  -- Writing calls the broker no more.
  after_poll-Returns :
      (b : B.State) (m : Option (Message W.Float)) (w : World B)
      → w.broker ≡ b
      → Returns (λ _ v. v.broker ≡ b) (after_poll m w)
  unfolding after_poll
  after_poll-Returns b none w p = p
  after_poll-Returns b (some m) w p =
      let P : World B → Type 0 = λ v. v.broker ≡ b in
      recover-Returns P _ (
        (Keeps-bind P (write_event m) (λ _. pure true) (write_event-Keeps P (λ v fs frames q. q) m)
            (λ _. Keeps-pure P true)).at
          w p)

  stream_round-Returns :
      (sub : B.Subscription) (w : World B)
      → Returns (λ _ v. v.broker ≡ (B.poll sub W.one_second w.broker).1) (stream_round sub w)
  unfolding stream_round
  stream_round-Returns sub w =
      let b = (B.poll sub W.one_second w.broker).1 in
      continue-Returns (λ v. v.broker ≡ b) (with_broker (B.poll sub W.one_second) w) after_poll refl
        (after_poll-Returns b)

  -- The loop has ended, and the broker has seen polls and nothing else.
  abbrev pub Polled : B.Subscription → B.State → Bool → World B → Type 0
  Polled sub b ended v = (ended ≡ true) × ((n : ℕ) × (v.broker ≡ polls B sub n b))

  one_more :
      (sub : B.Subscription) (b c : B.State) (x : Result Bool × World B)
      → c ≡ (B.poll sub W.one_second b).1
      → Returns (Polled sub c) x
      → Returns (Polled sub b) x
  one_more sub b c (ok ended, v) e (t, (n, p)) = (t, (suc n, p ∙ ap (polls B sub n) e))
  one_more sub b c (raised d, v) e h = h

  -- A further round, if there is one.
  rounds-Return :
      (fuel : ℕ) (sub : B.Subscription) (clock : ℕ → W.Float) (timeout : W.Float) (k j : ℕ)
      → ((i : ℕ) (w : World B)
          → i < fuel
          → W.lt (W.sub (clock (k + 1 + i)) (clock 0)) timeout ≡ false
          → Returns (Polled sub w.broker) (stream_loop fuel sub clock timeout (k + 1) w))
      → W.lt (W.sub (clock k) (clock 0)) timeout ≡ true
      → j < suc fuel
      → W.lt (W.sub (clock (k + j)) (clock 0)) timeout ≡ false
      → (more : Bool) (w : World B)
      → Returns
          (Polled sub w.broker)
          (unless_done more (stream_loop fuel sub clock timeout (k + 1)) w)
  rounds-Return fuel sub clock timeout k j rest early less late false w = (refl, (0, refl))
  rounds-Return fuel sub clock timeout k zero rest early less late true w =
      let e : W.lt (W.sub (clock k) (clock 0)) timeout ≡ false =
        ap (λ i. W.lt (W.sub (clock i) (clock 0)) timeout) (omega arith) ∙ late in
      absurd (cc (early, e))
  rounds-Return fuel sub clock timeout k (suc j) rest early less late true w =
      rest j w (omega arith)
        (ap (λ i. W.lt (W.sub (clock i) (clock 0)) timeout) (omega arith) ∙ late)

  pub stream_loop-Returns :
      (fuel : ℕ) (sub : B.Subscription) (clock : ℕ → W.Float) (timeout : W.Float) (k j : ℕ)
      (w : World B)
      → j < fuel
      → W.lt (W.sub (clock (k + j)) (clock 0)) timeout ≡ false
      → Returns (Polled sub w.broker) (stream_loop fuel sub clock timeout k w)
  unfolding stream_loop
  stream_loop-Returns zero sub clock timeout k j w less late = absurd (omega arith)
  stream_loop-Returns (suc fuel) sub clock timeout k j w less late =
      elim (Bool-cases (W.lt (W.sub (clock k) (clock 0)) timeout)) [
        | inl early ↦ rw (early) (
            Ends-bind (λ _ v. v.broker ≡ (B.poll sub W.one_second w.broker).1) _ _
              (stream_round sub) _ w (stream_round-Returns sub w)
              λ more t e. one_more sub w.broker t.broker _ e (
                rounds-Return fuel sub clock timeout k j
                  (λ i v. stream_loop-Returns fuel sub clock timeout (k + 1) i v) early less late
                  more t))
        | inr now ↦ rw (now) (refl, (0, refl))
      ]

  -- If a clock reading within the rounds observed reaches the timeout, the loop of the event
  -- stream ends, and no exception leaves it, whatever the broker and the connection do.
  pub stream_loop-ends :
      (fuel : ℕ) (sub : B.Subscription) (clock : ℕ → W.Float) (timeout : W.Float) (k j : ℕ)
      (w : World B)
      → j < fuel
      → W.lt (W.sub (clock (k + j)) (clock 0)) timeout ≡ false
      → (stream_loop fuel sub clock timeout k w).0 ≡ ok true
  stream_loop-ends fuel sub clock timeout k j w less late =
      (returned (λ v. (n : ℕ) × (v.broker ≡ polls B sub n w.broker)) _
        (stream_loop-Returns fuel sub clock timeout k j w less late)).0
