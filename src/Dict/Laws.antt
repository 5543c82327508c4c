-- ===== src/Dict/Laws.antt =====
-- What a lookup sees after each change of a dictionary.
use mathlib.Core.Option
use trinity_v4_ai_brain.Prelude.{
  ◌≡◌, refl, none, some, inl, inr, Option-cases, List, [], ◌∷◌, Eq, ◌==◌, if◌then◌else◌, arith, ◌<◌,
  is_some, count, map, true,
}
use trinity_v4_ai_brain.Dict.{Dict, keys, empty, find, write, without, get, put, delete, adjust}

module _ {ℓ} {K : Type 0} {V : Type ℓ} ⦃e : Eq K⦄ where
  find-write :
      (k j : K) (v : V) (r : List (K × V))
      → find j (write k v r) ≡ (if k == j then some v else find j r)
  unfolding find write
  find-write k j v [] = refl
  find-write k j v (i ∷ r) =
      ground (arith, find-write k j v r, e.beq_iff i.0 k, e.beq_iff i.0 j, e.beq_iff k j)

  find-without :
      (k j : K) (r : List (K × V)) → find j (without k r) ≡ (if k == j then none else find j r)
  unfolding find without
  find-without k j [] = ground arith
  find-without k j (i ∷ r) =
      ground (arith, find-without k j r, e.beq_iff i.0 k, e.beq_iff i.0 j, e.beq_iff k j)

  pub get-put :
      (d : Dict K V) (k j : K) (v : V) → get (put d k v) j ≡ (if k == j then some v else get d j)
  unfolding get put
  get-put d k j v = find-write k j v d.items

  pub get-delete :
      (d : Dict K V) (k j : K) → get (delete d k) j ≡ (if k == j then none else get d j)
  unfolding get delete
  get-delete d k j = find-without k j d.items

  find-keys :
      (k : K) (r : List (K × V)) → is_some (find k r) ≡ true → 0 < count k (map (λ i. i.0) r)
  unfolding find count
  find-keys k [] h = ground (arith, h)
  find-keys k (i ∷ r) h = ground (arith, find-keys k r, h)

  pub get-keys : (d : Dict K V) (k : K) → is_some (get d k) ≡ true → 0 < count k (keys d)
  unfolding get keys
  get-keys d k = find-keys k d.items

  pub get-adjust :
      (d : Dict K V) (k j : K) (f : V → V)
      → get (adjust d k f) j ≡ (if k == j then Option.map f (get d j) else get d j)
  unfolding adjust
  get-adjust d k j f = elim (Option-cases (get d k)) [
    | inl absent ↦ rw (absent, adjust) (ground (arith, e.beq_iff k j))
    | inr (v, there) ↦ rw (there, adjust) (rw get-put (ground (arith, e.beq_iff k j)))
  ]

  pub get-empty : (k : K) → get (empty {V = V}) k ≡ none
  unfolding get empty find
  get-empty k = refl

pub ruleset dict_laws = (get-empty, get-put, get-delete, get-adjust)
