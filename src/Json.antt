-- ===== src/Json.antt =====
-- JSON documents as Python holds them after `json.loads`, and the tests that the HTTP code makes of
-- them. `F` is the type of floats.
use trinity_v4_ai_brain.Prelude.{
  ℤ, String, Bool, true, false, not, Option, none, some, ◌==◌, string_eq, nat_eq, if◌then◌else◌,
}

mutual
  pub data Json (F : Type 0) : Type 0 where
    null : Json F
    bool : Bool → Json F
    int : ℤ → Json F
    float : F → Json F
    string : String → Json F
    arr : Items F → Json F
    obj : Fields F → Json F

  pub data Items (F : Type 0) : Type 0 where
    nil : Items F
    cons : Json F → Items F → Items F

  pub data Fields (F : Type 0) : Type 0 where
    end : Fields F
    field : String → Json F → Fields F → Fields F

abbrev pub is_zero : ℤ → Bool
is_zero (ℤ.pos n) = n == 0
is_zero (ℤ.negsuc n) = false

module _ {F : Type 0} where
  -- `d.get(key)` of a dictionary
  abbrev pub find : String → Fields F → Option (Json F)
  find key end = none
  find key (field k v rest) = if k == key then some v else find key rest

  -- `d.get(key, default)`
  abbrev pub get_or : String → Json F → Fields F → Json F
  get_or key d fields = elim (find key fields) [ none ↦ d | some v ↦ v ]

  -- `bool(value)`; `nonzero` says which floats are true.
  abbrev pub truth : (F → Bool) → Json F → Bool
  truth nonzero null = false
  truth nonzero (bool b) = b
  truth nonzero (int n) = not (is_zero n)
  truth nonzero (float x) = nonzero x
  truth nonzero (string s) = not (s == "")
  truth nonzero (arr nil) = false
  truth nonzero (arr (cons _ _)) = true
  truth nonzero (obj end) = false
  truth nonzero (obj (field _ _ _)) = true

  -- isinstance(value, dict)
  abbrev pub is_object : Json F → Bool
  is_object (obj fields) = true
  is_object _ = false
