-- ===== src/Dict.antt =====
-- Python's `dict`, as the list of its items in insertion order.
pub mod Laws
use trinity_v4_ai_brain.Prelude.{
  ℕ, Bool, Option, none, some, List, [], ◌∷◌, Eq, ◌==◌, if◌then◌else◌, is_some, map,
}

pub record Dict {ℓ} (K : Type 0) (V : Type ℓ) : Type ℓ where
  pub items : List (K × V)

module _ {ℓ} {K : Type 0} {V : Type ℓ} where
  unfoldable pub empty : Dict K V
  empty = record { items = [] }

  -- Iteration over a dictionary is over its keys, oldest first.
  unfoldable pub keys : Dict K V → List K
  keys d = map (λ i. i.0) d.items

  unfoldable pub values : Dict K V → List V
  values d = map (λ i. i.1) d.items

module _ {ℓ} {K : Type 0} {V : Type ℓ} ⦃e : Eq K⦄ where
  unfoldable pub find : K → List (K × V) → Option V
  find k [] = none
  find k ((j, v) ∷ r) = if j == k then some v else find k r

  -- d.get(k)
  unfoldable pub get : Dict K V → K → Option V
  unfolding find
  get d k = find k d.items

  -- k in d
  abbrev pub contains : Dict K V → K → Bool
  contains d k = is_some (get d k)

  unfoldable pub write : K → V → List (K × V) → List (K × V)
  write k v [] = (k, v) ∷ []
  write k v ((j, w) ∷ r) = if j == k then (j, v) ∷ r else (j, w) ∷ write k v r

  -- d[k] = v: a key that is there keeps its place, a new one goes to the end.
  unfoldable pub put : Dict K V → K → V → Dict K V
  unfolding write
  put d k v = record { items = write k v d.items }

  unfoldable pub without : K → List (K × V) → List (K × V)
  without k [] = []
  without k ((j, v) ∷ r) = let rest = without k r in if j == k then rest else (j, v) ∷ rest

  -- del d[k], d.pop(k, None)
  unfoldable pub delete : Dict K V → K → Dict K V
  unfolding without
  delete d k = record { items = without k d.items }

  -- `if k in d: d[k] = f(d[k])`
  unfoldable pub adjust : Dict K V → K → (V → V) → Dict K V
  adjust d k f = elim (get d k) [ none ↦ d | some v ↦ put d k (f v) ]
