-- ===== src/CoreSystem/Regions/Cases.antt =====
-- The states in which the memory calls can leave the system, one premise for each.
use trinity_v4_ai_brain.Prelude.{
  ℕ, ℤ, pos, pos_part, ◌+ℤ◌, ltb_ℤ, ◌≡◌, not, ◌&&◌, some, inl, inr, ◌==◌, nat_eq, string_eq,
  nat_beq_iff, Bool-cases, Option-cases,
}
use trinity_v4_ai_brain.Host.{Host, Env}
use trinity_v4_ai_brain.Dict
use trinity_v4_ai_brain.Dict.{get, put, contains}
use trinity_v4_ai_brain.Memory.{
  MemoryRegion, MemoryType, MemoryPermission, RegionId, new_region, region_id_eq, permission_of,
  is_shared,
}
use trinity_v4_ai_brain.Syscall.{Target}
use trinity_v4_ai_brain.CoreSystem.{System}
use trinity_v4_ai_brain.CoreSystem.Actions.{listed, with_process}
use trinity_v4_ai_brain.CoreSystem.Regions.{
  highest_end, register, discard, target_region, memory_allocate, memory_free, memory_map,
}

module _ {H : Host} (P : System H → Type 0) (s : System H) where
  pub memory_allocate_cases :
      (pid : ℕ) (size permissions : ℤ) (env : Env H)
      → P s
      → ((start : ℕ) (access : MemoryPermission)
          → highest_end s.memory_regions (listed (get s.process_memory pid)) 0x20000000 ≡ some start
          → P (
              with_process pid
                (λ p. record p { memory_usage = p.memory_usage +ℤ size })
                (register
                  (new_region
                    (RegionId.uuid env.uuid)
                    start
                    (pos_part size)
                    pid
                    MemoryType.normal
                    access
                    ""
                    (env.created 0))
                  s)))
      → P (memory_allocate pid size permissions env s).1
  unfolding memory_allocate
  memory_allocate_cases pid size permissions env kept done =
      elim (Bool-cases (contains s.processes pid)) [
        | inl e ↦ elim (Bool-cases (ltb_ℤ (pos 0) size)) [
          | inl e1 ↦
              elim (Option-cases
                (highest_end s.memory_regions (listed (get s.process_memory pid)) 0x20000000)) [
                  | inl e2 ↦ rw (e, memory_allocate) (rw e1 (rw e2 kept))
                  | inr (start, e2) ↦ elim (Option-cases (permission_of permissions)) [
                    | inl e3 ↦ rw (e, memory_allocate) (rw e1 (rw e2 (rw e3 kept)))
                    | inr (access, e3) ↦
                        rw (e, memory_allocate) (rw e1 (rw e2 (rw e3 (done start access e2))))
                  ]
                ]
          | inr e1 ↦ rw (e, memory_allocate) (rw e1 kept)
        ]
        | inr e ↦ rw (e, memory_allocate) kept
      ]

  pub memory_free_cases :
      (pid : ℕ) (rid : RegionId)
      → P s
      → ((r : MemoryRegion H)
          → get s.memory_regions rid ≡ some r
          → r.owner_pid ≡ pid
          → P (discard pid (record r { id = rid }) s))
      → P (memory_free pid rid s).1
  unfolding memory_free
  memory_free_cases pid rid kept done = elim (Option-cases (get s.memory_regions rid)) [
    | inl e ↦ rw (e, memory_free) kept
    | inr (r, e) ↦ elim (Bool-cases (r.owner_pid == pid)) [
      | inl mine ↦ rw (e, memory_free) (rw mine (done r e ((nat_beq_iff r.owner_pid pid).0 mine)))
      | inr others ↦ rw (e, memory_free) (rw others kept)
    ]
  ]

  pub memory_map_cases :
      (pid : ℕ) (target : Target) (local_address permissions : ℤ) (env : Env H)
      → P s
      → ((rid : RegionId) (t : MemoryRegion H) (start : ℕ) (access : MemoryPermission)
          → P (
              register
                (record (new_region
                  (RegionId.uuid env.uuid)
                  start
                  t.size
                  pid
                  MemoryType.shared
                  access
                  ""
                  (env.created 0)) { metadata = put Dict.empty "mapped_from" rid })
                s))
      → P (memory_map pid target local_address permissions env s).1
  unfolding memory_map
  memory_map_cases pid target address permissions env kept done =
      elim (Option-cases (target_region s target)) [
        | inl e ↦ rw (e, memory_map) kept
        | inr ((rid, t), e) ↦
            elim (Bool-cases (not (is_shared t.memory_type) && not (t.owner_pid == pid))) [
              | inl e1 ↦ rw (e, memory_map) (rw e1 kept)
              | inr e1 ↦ elim (Option-cases (permission_of permissions)) [
                | inl e2 ↦ rw (e, memory_map) (rw e1 (rw e2 kept))
                | inr (access, e2) ↦ rw (e, memory_map) (rw e1 (rw e2 (done rid t _ access)))
              ]
            ]
      ]
