-- ===== src/CoreSystem/Regions.antt =====
-- The memory methods of `CoreSystem`: `_init_process_memory`, `_free_process_memory` and the calls
-- memory_allocate, memory_free and memory_map.
pub mod Cases
pub mod Placement
pub mod Release
use trinity_v4_ai_brain.Prelude.{
  ℕ, ◌+◌, ◌*◌, ℤ, pos, pos_part, ◌+ℤ◌, ◌-ℤ◌, ltb, ltb_ℤ, not, ◌&&◌, Option, none, some, List, [],
  ◌∷◌, ◌++◌, ◌==◌, nat_eq, string_eq, remove, if◌then◌else◌,
}
use trinity_v4_ai_brain.Host.{Host, Env, value_error, region_key_error}
use trinity_v4_ai_brain.Dict
use trinity_v4_ai_brain.Dict.{Dict, get, put, delete, adjust, contains}
use trinity_v4_ai_brain.Memory.{
  MemoryRegion, MemoryType, MemoryPermission, RegionId, new_region, permission_of, is_shared,
  region_id_eq,
}
use trinity_v4_ai_brain.Syscall.{Value, Outcome, Target}
use trinity_v4_ai_brain.CoreSystem.{System}
use trinity_v4_ai_brain.CoreSystem.Actions.{listed, reply, refuse, raise, with_process}

abbrev mebibyte : ℕ
mebibyte = 1024 * 1024

module _ {H : Host} where
  -- self._init_process_memory(pid); the three regions are created at `now 1` to `now 3`.
  unfoldable pub init_process_memory : ℕ → (ℕ → H.Float) → System H → System H
  init_process_memory pid now s =
      with_process pid (λ p. record p { memory_usage = pos (7 * mebibyte) })
        (record s {
          memory_regions =
              put
                (put
                  (put s.memory_regions (RegionId.code_segment pid) (
                    new_region (RegionId.code_segment pid) 0x20000000 (1 * mebibyte) pid
                      MemoryType.normal MemoryPermission.read_execute "code" (now 1)))
                  (RegionId.data_segment pid)
                  (new_region (RegionId.data_segment pid) 0x21000000 (4 * mebibyte) pid
                    MemoryType.normal MemoryPermission.read_write "data" (now 2)))
                (RegionId.stack_segment pid)
                (new_region (RegionId.stack_segment pid) 0x22000000 (2 * mebibyte) pid
                  MemoryType.normal MemoryPermission.read_write "stack" (now 3));
          process_memory = put s.process_memory pid (
              RegionId.code_segment pid
              ∷ RegionId.data_segment pid
              ∷ RegionId.stack_segment pid
              ∷ []);
        })

  -- `for region_id in region_ids: if region_id in self.memory_regions: del …`
  unfoldable pub delete_all :
      List RegionId → Dict RegionId (MemoryRegion H) → Dict RegionId (MemoryRegion H)
  delete_all [] d = d
  delete_all (rid ∷ rids) d = delete_all rids (delete d rid)

  unfoldable pub free_process_memory : ℕ → System H → System H
  free_process_memory pid s = elim (get s.process_memory pid) [
    | none ↦ s
    | some rids ↦
        with_process pid (λ p. record p { memory_usage = pos 0 })
          (record s {
            memory_regions = delete_all rids s.memory_regions;
            process_memory = delete s.process_memory pid;
          })
  ]

  -- The loop that looks for the highest end address, from `start` up; `none` is the KeyError of a
  -- region id that is listed and not there.
  unfoldable pub highest_end : Dict RegionId (MemoryRegion H) → List RegionId → ℕ → Option ℕ
  highest_end regions [] start = some start
  highest_end regions (rid ∷ rids) start = elim (get regions rid) [
    | none ↦ none
    | some r ↦
        highest_end regions rids (if ltb start (r.start + r.size) then r.start + r.size else start)
  ]

  -- Register a region under its id and list it under its owner.
  unfoldable pub register : MemoryRegion H → System H → System H
  register r s = record s {
    memory_regions = put s.memory_regions r.id r;
    process_memory =
        put s.process_memory r.owner_pid (listed (get s.process_memory r.owner_pid) ++ r.id ∷ []);
  }

  unfoldable pub memory_allocate : ℕ → ℤ → ℤ → Env H → System H → Outcome H × System H
  memory_allocate process_id size permissions env s =
      if not (contains s.processes process_id)
      then refuse "Process does not exist" s
      else if not (ltb_ℤ (pos 0) size)
      then refuse "Invalid memory size" s
      else elim (highest_end s.memory_regions (listed (get s.process_memory process_id))
          0x20000000) [
            | none ↦ raise region_key_error s
            | some start ↦ elim (permission_of permissions) [
              | none ↦ raise (value_error "MemoryPermission" permissions) s
              | some access ↦ reply (Value.region (RegionId.uuid env.uuid) start (pos_part size)) (
                  with_process process_id (λ p. record p { memory_usage = p.memory_usage +ℤ size })
                    (register
                      (new_region (RegionId.uuid env.uuid) start (pos_part size) process_id
                        MemoryType.normal access "" (env.created 0))
                      s))
            ]
          ]

  -- The region `r` goes from the table and from its owner's list.
  unfoldable pub discard : ℕ → MemoryRegion H → System H → System H
  discard process_id r s =
      with_process process_id (λ p. record p { memory_usage = p.memory_usage -ℤ pos r.size })
        (record s {
          memory_regions = delete s.memory_regions r.id;
          process_memory = adjust s.process_memory process_id (remove r.id);
        })

  unfoldable pub memory_free : ℕ → RegionId → System H → Outcome H × System H
  memory_free process_id region_id s = elim (get s.memory_regions region_id) [
    | none ↦ refuse "Memory region does not exist" s
    | some r ↦
        if not (r.owner_pid == process_id)
        then refuse "Permission denied" s
        else reply Value.nothing (discard process_id (record r { id = region_id }) s)
  ]

  -- A process id is no key of the regions' dictionary.
  abbrev pub target_region : System H → Target → Option (RegionId × MemoryRegion H)
  target_region s (Target.process pid) = none
  target_region s (Target.region rid) = elim (get s.memory_regions rid) [
    | none ↦ none
    | some r ↦ some (rid, r)
  ]

  unfoldable pub memory_map : ℕ → Target → ℤ → ℤ → Env H → System H → Outcome H × System H
  memory_map process_id target local_address permissions env s = elim (target_region s target) [
    | none ↦ refuse "Target memory region does not exist" s
    | some (target_id, t) ↦
        if not (is_shared t.memory_type) && not (t.owner_pid == process_id)
        then refuse "Permission denied" s
        else let start =
            if ltb_ℤ (pos 0) local_address then pos_part local_address else 0x30000000 in
          elim (permission_of permissions) [
            | none ↦ raise (value_error "MemoryPermission" permissions) s
            | some access ↦ reply (Value.region (RegionId.uuid env.uuid) start t.size) (
                register
                  (record (new_region (RegionId.uuid env.uuid) start t.size process_id
                    MemoryType.shared access "" (env.created 0)) {
                      metadata = put Dict.empty "mapped_from" target_id;
                    })
                  s)
          ]
  ]
