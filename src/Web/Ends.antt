-- ===== src/Web/Ends.antt =====
-- How code with exceptions ends: with a value and `Q`, or with an exception and `R`.
use trinity_v4_ai_brain.Prelude.{Option, none, some, List, [], ◌∷◌, ◌≡◌, refl}
use trinity_v4_ai_brain.Web.{
  Web, Broker, World, Fault, Result, ok, raised, M, ◌>>=◌, bind_result, some_or, next_fault,
  perform_with, perform,
}

module _ {S : Type 0} where
  abbrev pub Ends : {A : Type 0} → (A → S → Type 0) → (S → Type 0) → Result A × S → Type 0
  Ends Q R (ok a, s) = Q a s
  Ends Q R (raised e, s) = R s

  bind_result-Ends :
      {A C : Type 0} (P : A → S → Type 0) (Q : C → S → Type 0) (R : S → Type 0) (x : Result A × S)
      (f : A → M S C)
      → Ends P R x
      → ((a : A) (s : S) → P a s → Ends Q R (f a s))
      → Ends Q R (bind_result x f)
  bind_result-Ends P Q R (ok a, s) f p later = later a s p
  bind_result-Ends P Q R (raised e, s) f p later = p

  pub Ends-bind :
      {A C : Type 0} (P : A → S → Type 0) (Q : C → S → Type 0) (R : S → Type 0) (m : M S A)
      (f : A → M S C) (s : S)
      → Ends P R (m s)
      → ((a : A) (t : S) → P a t → Ends Q R (f a t))
      → Ends Q R ((m >>= f) s)
  Ends-bind P Q R m f s = bind_result-Ends P Q R (m s) f

  pub Ends-some_or :
      {A : Type 0} (Q : A → S → Type 0) (R : S → Type 0) (e : Fault) (o : Option A) (s : S)
      → ((a : A) → o ≡ some a → Q a s)
      → R s
      → Ends Q R (some_or e o s)
  Ends-some_or Q R e none s found lost = lost
  Ends-some_or Q R e (some a) s found lost = found a refl

module _ {W : Web} {B : Broker W} where
  pub Ends-perform :
      (Q : Unit {0} → World B → Type 0) (R : World B → Type 0) (change : World B → World B)
      (w : World B)
      → ((faults : List (Option Fault)) → Q tt (change (record w { faults = faults })))
      → ((faults : List (Option Fault)) → R (record w { faults = faults }))
      → Ends Q R (perform change w)
  unfolding perform next_fault perform_with
  Ends-perform Q R change w done lost = go w.faults
    where
      go : (fs : List (Option Fault)) → Ends Q R (perform_with (next_fault fs) change w)
      go [] = done []
      go (none ∷ fs) = done fs
      go (some e ∷ fs) = lost fs
