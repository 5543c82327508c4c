-- ===== src/Enum.antt =====
-- `E(value)` for a class `E` of Python's `enum`: the member that has the value.
use trinity_v4_ai_brain.Prelude.{
  ℕ, ℤ, pos, negsuc, ◌≡◌, Bool, false, Option, none, some, List, [], ◌∷◌, ◌==◌, nat_eq,
  if◌then◌else◌, arith,
}

abbrev pub has_value : ℕ → ℤ → Bool
has_value n (pos m) = n == m
has_value n (negsuc m) = false

abbrev pub find_member {ℓ} : {E : Type ℓ} → (E → ℕ) → List E → ℤ → Option E
find_member value [] v = none
find_member value (m ∷ ms) v = if has_value (value m) v then some m else find_member value ms v

-- A member that is found has the value.
pub find_member_value {ℓ} :
    {E : Type ℓ} (value : E → ℕ) (ms : List E) (v : ℤ) (found : E)
    → find_member value ms v ≡ some found
    → pos (value found) ≡ v
find_member_value value [] v found h = cc
find_member_value value (m ∷ ms) (pos k) found h =
    ground (arith, find_member_value value ms (pos k) found)
find_member_value value (m ∷ ms) (negsuc k) found h = find_member_value value ms (negsuc k) found h
