-- ===== src/Prelude/Lists.antt =====
-- Lists: length, membership and multiplicity by a Boolean equality, removal of one occurrence.
use Prim.Native.Nat.{ℕ, suc, ◌+◌, ◌-◌, ◌<◌, ◌≤◌}
use mathlib.Core.Path.{◌≡◌, refl}
use mathlib.Core.Logic.{◌⊎◌, inl, inr}
use mathlib.Core.Bool.{Bool, true, false, ◌||◌}
use mathlib.Core.List.{List, [], ◌∷◌, ◌++◌}
use native.Mathlib.Omega.{arith}
use trinity_v4_ai_brain.Prelude.Tests.{Eq, ◌==◌, if◌then◌else◌}

module _ {ℓ} {A : Type ℓ} where
  abbrev pub length : List A → ℕ
  length [] = 0
  length (x ∷ xs) = suc (length xs)

  pub length-append : (xs ys : List A) → length (xs ++ ys) ≡ length xs + length ys
  length-append [] ys = omega arith
  length-append (x ∷ xs) ys = omega (arith, length-append xs ys)

pub List-cases {ℓ} :
    {A : Type ℓ} (xs : List A) → (xs ≡ []) ⊎ ((x : A) × (rest : List A) × (xs ≡ x ∷ rest))
List-cases [] = inl refl
List-cases (x ∷ rest) = inr (x, rest, refl)

-- One or zero, as a test holds.
abbrev pub indicator : Bool → ℕ
indicator true = 1
indicator false = 0

module _ {ℓ} {A : Type ℓ} ⦃e : Eq A⦄ where
  -- `a in xs`
  unfoldable pub member : A → List A → Bool
  member a [] = false
  member a (x ∷ xs) = x == a || member a xs

  -- `if a in xs: xs.remove(a)`: the first occurrence goes.
  unfoldable pub remove : A → List A → List A
  remove a [] = []
  remove a (x ∷ xs) = if x == a then xs else x ∷ remove a xs

  unfoldable pub count : A → List A → ℕ
  count a [] = 0
  count a (x ∷ xs) = indicator (x == a) + count a xs

  pub count-append : (a : A) (xs ys : List A) → count a (xs ++ ys) ≡ count a xs + count a ys
  unfolding count
  count-append a [] ys = omega arith
  count-append a (x ∷ xs) ys = omega (arith, count-append a xs ys)

  pub count-remove :
      (a b : A) (xs : List A) → count b (remove a xs) ≡ count b xs - indicator (a == b)
  unfolding count remove
  count-remove a b [] = omega arith
  count-remove a b (x ∷ xs) =
      ground (arith, count-remove a b xs, e.beq_iff x a, e.beq_iff x b, e.beq_iff a b)

  pub not-member-count : (a : A) (xs : List A) → member a xs ≡ false → count a xs ≡ 0
  unfolding count member
  not-member-count a [] h = refl
  not-member-count a (x ∷ xs) h = ground (arith, not-member-count a xs)

  pub member-count : (a : A) (xs : List A) → member a xs ≡ true → 0 < count a xs
  unfolding count member
  member-count a [] h = ground arith
  member-count a (x ∷ xs) h = ground (arith, member-count a xs)

  pub length-remove : (a : A) (xs : List A) → 0 < count a xs → length (remove a xs) + 1 ≡ length xs
  unfolding count remove
  length-remove a [] h = absurd (omega arith)
  length-remove a (x ∷ xs) h = ground (arith, length-remove a xs, h)

  -- A list that holds everything at most as often as another one is at most as long.
  pub length-count : (xs ys : List A) → ((a : A) → count a xs ≤ count a ys) → length xs ≤ length ys
  unfolding count
  length-count [] ys h = omega arith
  length-count (x ∷ xs) ys h =
      let same = (e.beq_iff x x).1 refl in
      let here : 0 < count x ys = ground (arith, h x, same) in
      omega (
        arith,
        length-remove x ys here,
        length-count xs (remove x ys) λ a. rw (count-remove x a ys) (ground (arith, h a)),
      )
