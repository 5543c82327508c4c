-- ===== src/Api/Paths.antt =====
-- The paths of the operations on the kernel, and what a request for one needs and does.
use trinity_v4_ai_brain.Prelude.{
  Bool, true, false, Option, none, some, String, List, [], ◌∷◌, ◌==◌, string_eq, if◌then◌else◌, ◌≡◌,
  ◌⊎◌, inl, inr, Bool-cases,
}
use trinity_v4_ai_brain.Web.{Limiter, system}

-- The paths of the operations on the kernel.
pub data KernelPath : String → Type 0 where
  to_reload : KernelPath "/system/reload"
  to_drain : KernelPath "/system/drain"
  to_undrain : KernelPath "/system/undrain"

beq-path : (x y : String) → (x == y) ≡ true → x ≡ y
beq-path x y e = (string_eq.beq_iff x y).0 e

pub KernelPath-cases :
    (path : String)
    → ((p : String) × (KernelPath p × (path ≡ p)))
      ⊎ (((path == "/system/reload") ≡ false)
          × (((path == "/system/drain") ≡ false) × ((path == "/system/undrain") ≡ false)))
KernelPath-cases path = elim (Bool-cases (path == "/system/reload")) [
  | inl e ↦ inl (_, (to_reload, beq-path path _ e))
  | inr a ↦ elim (Bool-cases (path == "/system/drain")) [
    | inl e ↦ inl (_, (to_drain, beq-path path _ e))
    | inr c ↦ elim (Bool-cases (path == "/system/undrain")) [
      | inl e ↦ inl (_, (to_undrain, beq-path path _ e))
      | inr d ↦ inr (a, (c, d))
    ]
  ]
]

-- What a request, if it is allowed, makes of the flag.
abbrev pub next_ready : String → Bool → Bool
next_ready path b =
    if path == "/system/reload"
    then b
    else if path == "/system/drain"
    then false
    else if path == "/system/undrain"
    then true
    else b

-- What a request to the kernel needs.
abbrev pub system_demand : String → Option (List String × Limiter)
system_demand path =
    if path == "/system/reload"
    then some ("system:reload" ∷ [], system)
    else if path == "/system/drain"
    then some ("system:drain" ∷ [], system)
    else if path == "/system/undrain"
    then some ("system:drain" ∷ [], system)
    else none
