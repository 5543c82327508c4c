-- ===== src/CoreSystem/Regions/Placement.antt =====
-- Where memory_allocate puts a region.
use trinity_v4_ai_brain.Prelude.{
  ℕ, ◌+◌, ◌≤◌, ℤ, pos, pos_part, ltb, ltb_ℤ, ◌+ℤ◌, ◌≡◌, Option, none, refl, ◌∙◌, ap, true, some,
  List, [], ◌∷◌, nat_eq, nat_beq_iff, ◌==◌, if◌then◌else◌, member, member-count, not-member-count,
  inl, inr, Bool-cases, Option-cases, arith,
}
use trinity_v4_ai_brain.Host.{Host, Env}
use trinity_v4_ai_brain.Dict.{Dict, get, contains}
use trinity_v4_ai_brain.Dict.Laws.{dict_laws}
use trinity_v4_ai_brain.Memory.{
  MemoryRegion, MemoryType, MemoryPermission, RegionId, new_region, permission_of, region_id_eq,
  region_id_beq_iff,
}
use trinity_v4_ai_brain.Syscall.{Value, returned, succeed}
use trinity_v4_ai_brain.CoreSystem.{System}
use trinity_v4_ai_brain.CoreSystem.Actions.{with_process, reply}
use trinity_v4_ai_brain.CoreSystem.Regions.{highest_end, register, memory_allocate}
use trinity_v4_ai_brain.CoreSystem.Accounting.{IsAccounted, holdings}

abbrev pub user_base : ℕ
user_base = 0x20000000

module _ {H : Host} (regions : Dict RegionId (MemoryRegion H)) where
  -- Where every listed id is there, the loop ends, at or above its start.
  pub highest_end_total :
      (rids : List RegionId) (start : ℕ)
      → ((rid : RegionId)
          → member rid rids ≡ true
          → (r : MemoryRegion H) × (get regions rid ≡ some r))
      → (top : ℕ) × (highest_end regions rids start ≡ some top)
  unfolding highest_end member
  highest_end_total [] start h = (start, refl)
  highest_end_total (x ∷ xs) start h =
      let (r, e) = h x (ground (arith, region_id_beq_iff x x)) in
      let (top, rest) =
        highest_end_total xs (if ltb start (r.start + r.size) then r.start + r.size else start)
          (λ rid m. h rid (ground (arith, m))) in
      (top, rw (e, highest_end) rest)

  highest_end-le :
      (rids : List RegionId) (start top : ℕ)
      → highest_end regions rids start ≡ some top
      → start ≤ top
  unfolding highest_end
  highest_end-le [] start top e = ground arith
  highest_end-le (x ∷ xs) start top e = elim (Option-cases (get regions x)) [
    | inl missing ↦ absurd (cc (rw (missing, highest_end) at e))
    | inr (r, there) ↦ ground (
      arith,
      highest_end-le xs (if ltb start (r.start + r.size) then r.start + r.size else start) top
          (rw (there, highest_end) at e),
    )
  ]

  -- Every listed region ends at or below the result.
  highest_end_bounds :
      (rids : List RegionId) (start top : ℕ) (rid : RegionId) (r : MemoryRegion H)
      → highest_end regions rids start ≡ some top
      → member rid rids ≡ true
      → get regions rid ≡ some r
      → r.start + r.size ≤ top
  unfolding highest_end member
  highest_end_bounds [] start top rid r e m g = cc
  highest_end_bounds (x ∷ xs) start top rid r e m g = elim (Option-cases (get regions x)) [
    | inl missing ↦ absurd (cc (rw (missing, highest_end) at e))
    | inr (q, there) ↦
        let next = if ltb start (q.start + q.size) then q.start + q.size else start in
        let rest = rw (there, highest_end) at e in
        elim (Bool-cases (x == rid)) [
          | inl same ↦
              ground
                (arith, highest_end-le xs next top rest, (region_id_beq_iff x rid).0 same, there, g)
          | inr differs ↦ highest_end_bounds xs next top rid r rest (ground (arith, m, differs)) g
        ]
  ]

-- The end of a region that the process owns, or else 0.
abbrev pub owned_end : {H : Host} → ℕ → Option (MemoryRegion H) → ℕ
owned_end pid none = 0
owned_end pid (some r) = if r.owner_pid == pid then r.start + r.size else 0

module _ {H : Host} (s : System H) (h : IsAccounted s) where
  -- Under the invariant a listed id is there, so memory_allocate never reads an absent region.
  pub held_is_there :
      (pid : ℕ) (rid : RegionId)
      → member rid (holdings s pid) ≡ true
      → (r : MemoryRegion H) × (get s.memory_regions rid ≡ some r)
  held_is_there pid rid m = elim (Option-cases (get s.memory_regions rid)) [
    | inl missing ↦
        absurd (ground (arith, h.held pid rid, missing, member-count rid (holdings s pid) m))
    | inr there ↦ there
  ]

  owned_is_held :
      (pid : ℕ) (rid : RegionId) (r : MemoryRegion H)
      → get s.memory_regions rid ≡ some r
      → r.owner_pid ≡ pid
      → member rid (holdings s pid) ≡ true
  owned_is_held pid rid r there mine = elim (Bool-cases (member rid (holdings s pid))) [
    | inl m ↦ m
    | inr m ↦
        absurd
          (ground (arith, h.held pid rid, there, mine, not-member-count rid (holdings s pid) m))
  ]

  owned_end-highest_end :
      (pid : ℕ) (rid : RegionId) (top : ℕ)
      → highest_end s.memory_regions (holdings s pid) user_base ≡ some top
      → owned_end pid (get s.memory_regions rid) ≤ top
  owned_end-highest_end pid rid top e = elim (Option-cases (get s.memory_regions rid)) [
    | inl missing ↦ ground (arith, missing)
    | inr (r, there) ↦ elim (Bool-cases (r.owner_pid == pid)) [
      | inl mine ↦
          let own = (nat_beq_iff r.owner_pid pid).0 mine in
          let bound =
            highest_end_bounds s.memory_regions (holdings s pid) user_base top rid r e
              (owned_is_held pid rid r there own) there in
          rw there (rw mine bound)
      | inr others ↦ rw there (rw others (ground arith))
    ]
  ]

module _ {H : Host} (pid : ℕ) (size permissions : ℤ) (env : Env H) (s : System H) where
  -- The region that a successful call makes.
  abbrev pub allocated : ℕ → MemoryPermission → MemoryRegion H
  allocated start access =
      new_region (RegionId.uuid env.uuid) start (pos_part size) pid MemoryType.normal access ""
        (env.created 0)

  pub memory_allocate-eq :
      (start : ℕ) (access : MemoryPermission)
      → contains s.processes pid ≡ true
      → ltb_ℤ (pos 0) size ≡ true
      → highest_end s.memory_regions (holdings s pid) user_base ≡ some start
      → permission_of permissions ≡ some access
      → memory_allocate pid size permissions env s
        ≡ reply (Value.region (RegionId.uuid env.uuid) start (pos_part size)) (
            with_process pid
              (λ p. record p { memory_usage = p.memory_usage +ℤ size })
              (register (allocated start access) s))
  unfolding memory_allocate
  memory_allocate-eq start access known positive top valid =
      rw (known, memory_allocate) (rw positive (rw top (rw valid refl)))

  -- With the memory tables consistent, memory_allocate by a process of the table with a positive
  -- size and a valid permission number succeeds; the new region is in the table with the address
  -- and size that it returns, at or above the start of user space, and every region that the
  -- process owned before ends at or below it.
  pub memory_allocate_disjoint :
      (access : MemoryPermission)
      → IsAccounted s
      → contains s.processes pid ≡ true
      → ltb_ℤ (pos 0) size ≡ true
      → permission_of permissions ≡ some access
      → let (outcome, t) = memory_allocate pid size permissions env s in
        (start : ℕ) × (outcome
          ≡ returned (succeed (Value.region (RegionId.uuid env.uuid) start (pos_part size))))
        × (get t.memory_regions (RegionId.uuid env.uuid) ≡ some (allocated start access))
        × (user_base ≤ start)
        × ((rid : RegionId) → owned_end pid (get s.memory_regions rid) ≤ start)
  unfolding register
  memory_allocate_disjoint access h known positive valid =
      let (start, top) =
        highest_end_total s.memory_regions (holdings s pid) user_base (held_is_there s h pid) in
      let done = memory_allocate-eq start access known positive top valid in
      (
        start,
        ap (λ r. r.0) done,
        ap (λ r. get (r.1).memory_regions (RegionId.uuid env.uuid)) done
            ∙ simp dict_laws (ground arith),
        highest_end-le s.memory_regions (holdings s pid) user_base start top,
        λ rid. owned_end-highest_end s h pid rid start top,
      )
