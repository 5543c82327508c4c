-- ===== src/Web/Kept.antt =====
-- What code with exceptions keeps, on every path: the rules for its parts.
use trinity_v4_ai_brain.Prelude.{
  Bool, true, false, Option, none, some, List, [], ◌∷◌, if◌then◌else◌,
}
use trinity_v4_ai_brain.Web.{
  Web, Broker, World, Fault, Frame, Result, ok, raised, M, pure, raise, ◌>>=◌, bind_result, recover,
  attempt, some_or, of_result, next_fault, perform_with, perform, emit_all,
}

module _ {S : Type 0} (P : S → Type 0) where
  -- Every end of `m`, also an exception, has `P` if its start has.
  pub record Keeps {A : Type 0} (m : M S A) : Type 0 where
    pub at : (s : S) → P s → P (m s).1

  Keeps_end :
      {A C : Type 0} (r : Result A × S) (f : A → M S C)
      → ((a : A) → Keeps (f a))
      → P r.1
      → P (bind_result r f).1
  Keeps_end (ok a, s) f later p = (later a).at s p
  Keeps_end (raised e, s) f later p = p

  pub Keeps-bind :
      {A C : Type 0} (m : M S A) (f : A → M S C)
      → Keeps m
      → ((a : A) → Keeps (f a))
      → Keeps (m >>= f)
  Keeps-bind m f first later = record { at = λ s p. Keeps_end (m s) f later (first.at s p) }

  Keeps_recovery :
      {A : Type 0} (r : Result A × S) (handler : Fault → M S A)
      → ((e : Fault) → Keeps (handler e))
      → P r.1
      → P (recover r handler).1
  Keeps_recovery (ok a, s) handler later p = p
  Keeps_recovery (raised e, s) handler later p = (later e).at s p

  pub Keeps-attempt :
      {A : Type 0} (m : M S A) (handler : Fault → M S A)
      → Keeps m
      → ((e : Fault) → Keeps (handler e))
      → Keeps (attempt m handler)
  Keeps-attempt m handler first later = record {
    at = λ s p. Keeps_recovery (m s) handler later (first.at s p);
  }

  pub Keeps-of_result : {A : Type 0} (x : Result A) → Keeps (of_result x)
  Keeps-of_result x = record { at = λ s p. p }

  pub Keeps-some_or : {A : Type 0} (e : Fault) (o : Option A) → Keeps (some_or e o)
  Keeps-some_or e none = record { at = λ s p. p }
  Keeps-some_or e (some a) = record { at = λ s p. p }

  pub Keeps-pure : {A : Type 0} (a : A) → Keeps (pure a)
  Keeps-pure a = record { at = λ s p. p }

  pub Keeps-raise : {A : Type 0} (e : Fault) → Keeps {A = A} (raise e)
  Keeps-raise e = record { at = λ s p. p }

  pub Keeps-if :
      {A : Type 0} (b : Bool) (m n : M S A) → Keeps m → Keeps n → Keeps (if b then m else n)
  Keeps-if true m n x y = x
  Keeps-if false m n x y = y

-- `P` does not look at the connection.
abbrev pub IgnoresWire : {W : Web} {B : Broker W} → (World B → Type 0) → Type 0
IgnoresWire {B} P =
    (w : World B) (fs : List (Option Fault)) (frames : List Frame)
    → P w
    → P (record w { faults = fs; written = frames })

module _ {W : Web} {B : Broker W} (P : World B → Type 0) where
  perform-Keeps :
      (change : World B → World B)
      → ((w : World B) (fs : List (Option Fault)) → P w → P (record w { faults = fs }))
      → ((w : World B) → P w → P (change w))
      → Keeps P (perform change)
  unfolding perform next_fault perform_with
  perform-Keeps change ignores changes = record { at = λ w p. go w w.faults p }
    where
      go :
          (w : World B) (fs : List (Option Fault))
          → P w
          → P (perform_with (next_fault fs) change w).1
      go w [] p = changes _ (ignores w [] p)
      go w (none ∷ fs) p = changes _ (ignores w fs p)
      go w (some e ∷ fs) p = ignores w fs p

  pub Keeps-perform :
      (change : World B → World B)
      → IgnoresWire P
      → ((w : World B) → P w → P (change w))
      → Keeps P (perform change)
  Keeps-perform change ignores = perform-Keeps change (λ w fs p. ignores w fs w.written p)

  pub Keeps-emit_all : (frames : List Frame) → IgnoresWire P → Keeps P (emit_all frames)
  unfolding emit_all
  Keeps-emit_all frames ignores = Keeps-perform _ ignores (λ w p. ignores w w.faults _ p)
