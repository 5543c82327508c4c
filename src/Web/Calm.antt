-- ===== src/Web/Calm.antt =====
-- The connection and the files when no operation on them fails.
use trinity_v4_ai_brain.Prelude.{Bool, String, Option, none, some, List, [], ◌∷◌, ◌++◌, ◌≡◌, refl}
use trinity_v4_ai_brain.Json.{Json}
use trinity_v4_ai_brain.Web.{
  Limiter, Web, Broker, World, Frame, Fault, Result, ok, raised, M, ◌>>=◌, ◌>>◌, attempt,
  next_fault, perform_with, perform, emit_all,
}

-- Every JSON value has an encoding.
abbrev pub Encodes : Web → Type 0
Encodes W = (value : Json W.Float) → (data_text : String) × (W.dumps value ≡ some data_text)

-- The authorisation returns.
abbrev pub Decides : Web → Type 0
Decides W =
    (token : Option String) (scopes : List String) (limiter : Limiter) (l : W.Limits)
    → (sub : Bool × String) × ((W.authorize token scopes limiter l).0 ≡ ok sub)

module _ {S A C : Type 0} where
  -- The first step of a sequence is done.
  pub bind-ok :
      (m : M S A) (f : A → M S C) (s t : S) (a : A) → m s ≡ (ok a, t) → (m >>= f) s ≡ f a t
  bind-ok m f s t a e = rw (e) refl

  pub bind-raised :
      (m : M S A) (f : A → M S C) (s t : S) (e : Fault)
      → m s ≡ (raised e, t)
      → (m >>= f) s ≡ (raised e, t)
  bind-raised m f s t e first = rw (first) refl

module _ {S A : Type 0} where
  pub attempt-ok :
      (m : M S A) (handler : Fault → M S A) (s t : S) (a : A)
      → m s ≡ (ok a, t)
      → attempt m handler s ≡ (ok a, t)
  attempt-ok m handler s t a e = rw (e) refl

module _ {W : Web} {B : Broker W} where
  pub perform-calm :
      (change : World B → World B) (w : World B)
      → w.faults ≡ []
      → perform change w ≡ (ok tt, change w)
  unfolding perform next_fault perform_with
  perform-calm change w calm = rw (calm) refl

  abbrev pub receive : List Frame → World B → World B
  receive frames w = record w { written = w.written ++ frames }

  pub emit_all-calm :
      (frames : List Frame) (w : World B)
      → w.faults ≡ []
      → emit_all frames w ≡ (ok tt, receive frames w)
  unfolding emit_all
  emit_all-calm frames w calm = perform-calm (receive frames) w calm

  -- Some more frames, and then the rest.
  pub emit_all-then :
      {C : Type 0} (frames : List Frame) (k : M (World B) C) (w : World B)
      → w.faults ≡ []
      → (emit_all frames >> k) w ≡ k (receive frames w)
  emit_all-then frames k w calm =
      bind-ok (emit_all frames) (λ _. k) w _ tt (emit_all-calm frames w calm)

  -- What one operation on the connection does, for each list of faults to come.
  abbrev pub emitted : List Frame → World B → List (Option Fault) → Result (Unit {0}) × World B
  emitted frames w [] = (ok tt, receive frames (record w { faults = [] }))
  emitted frames w (none ∷ faults) = (ok tt, receive frames (record w { faults = faults }))
  emitted frames w (some e ∷ faults) = (raised e, record w { faults = faults })

  pub emit_all-emitted :
      (frames : List Frame) (w : World B) → emit_all frames w ≡ emitted frames w w.faults
  unfolding emit_all perform next_fault perform_with
  emit_all-emitted frames w = go w.faults
    where
      go :
          (fs : List (Option Fault))
          → perform_with (next_fault fs) (receive frames) w ≡ emitted frames w fs
      go [] = refl
      go (none ∷ fs) = refl
      go (some e ∷ fs) = refl
