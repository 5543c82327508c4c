-- ===== src/CoreSystem/Accounting/Steps.antt =====
-- The steps of the handlers keep the regions and the lists in agreement.
use trinity_v4_ai_brain.Prelude.{
  ℕ, ◌+◌, ◌<◌, ◌≡◌, refl, ◌⊎◌, true, none, List, [], ◌∷◌, inl, inr, Bool-cases, nat_eq, ◌==◌,
  indicator, member-count, not-member-count, string_eq, member, count, count-remove, count-append,
  Option-cases, arith,
}
use trinity_v4_ai_brain.Host.{Host}
use trinity_v4_ai_brain.Dict.{Dict, get, put}
use trinity_v4_ai_brain.Dict.Laws.{dict_laws, get-put}
use trinity_v4_ai_brain.Process.{ProcessInfo}
use trinity_v4_ai_brain.Memory.{MemoryRegion, RegionId, region_id_eq, region_id_beq_iff}
use trinity_v4_ai_brain.CoreSystem.{System}
use trinity_v4_ai_brain.CoreSystem.Regions.{
  init_process_memory, free_process_memory, register, discard, delete_all,
}
use trinity_v4_ai_brain.CoreSystem.Processes.{launch}
use trinity_v4_ai_brain.CoreSystem.Accounting.{IsAccounted, HasId, owned_by, holdings}
use trinity_v4_ai_brain.CoreSystem.Accounting.Deletion.{get-delete_all}

ruleset region_laws = (dict_laws, count-remove, count-append, get-delete_all)

module _ {H : Host} where
  pub HasId-put :
      (r : MemoryRegion H) (d : Dict RegionId (MemoryRegion H)) (rid : RegionId)
      → HasId rid (get d rid)
      → HasId rid (get (put d r.id r) rid)
  HasId-put r d rid h = elim (Bool-cases (r.id == rid)) [
    | inl e ↦ rw (get-put, e) ((region_id_beq_iff r.id rid).0 e)
    | inr e ↦ rw (get-put, e) h
  ]

  HasId-delete_all :
      (rids : List RegionId) (d : Dict RegionId (MemoryRegion H)) (rid : RegionId)
      → HasId rid (get d rid)
      → HasId rid (get (delete_all rids d) rid)
  HasId-delete_all rids d rid h = elim (Bool-cases (member rid rids)) [
    | inl e ↦ rw (get-delete_all, e) tt
    | inr e ↦ rw (get-delete_all, e) h
  ]

  -- A fresh region of a process whose id has been given out.
  pub register-IsAccounted :
      (r : MemoryRegion H) (n : ℕ) (s : System H)
      → r.id ≡ RegionId.uuid n
      → get s.memory_regions (RegionId.uuid n) ≡ none
      → r.owner_pid < s.next_pid
      → IsAccounted s
      → IsAccounted (register r s)
  unfolding register count
  register-IsAccounted r n s e new lt h = record {
    held = λ pid rid. simp region_laws (
        ground (
          arith,
          h.held pid rid,
          h.held r.owner_pid rid,
          new,
          region_id_beq_iff r.id rid,
          count-append rid (holdings s r.owner_pid) (r.id ∷ []),
        ));
    ids = λ rid. HasId-put r s.memory_regions rid (h.ids rid);
    future = λ pid rid le. simp region_laws (ground (arith, h.future pid rid le));
    no_code = λ pid le. simp region_laws (ground (arith, h.no_code pid le));
    no_data = λ pid le. simp region_laws (ground (arith, h.no_data pid le));
    no_stack = λ pid le. simp region_laws (ground (arith, h.no_stack pid le));
    no_kernel = λ b. simp region_laws (ground (arith, h.no_kernel b));
    no_shared = λ b. simp region_laws (ground (arith, h.no_shared b));
  }

  -- A region goes, and its owner is listed with it no longer.
  pub discard-IsAccounted :
      (pid : ℕ) (r : MemoryRegion H) (s : System H)
      → owned_by pid (get s.memory_regions r.id) ≡ true
      → IsAccounted s
      → IsAccounted (discard pid r s)
  unfolding discard count delete_all
  discard-IsAccounted pid r s mine h = record {
    held = λ q rid. simp region_laws (
        ground (
          arith,
          h.held q rid,
          h.held pid rid,
          region_id_beq_iff r.id rid,
          count-remove r.id rid (holdings s q),
        ));
    ids = λ rid. HasId-delete_all (r.id ∷ []) s.memory_regions rid (h.ids rid);
    future = λ q rid le. simp region_laws (ground (arith, h.future q rid le));
    no_code = λ q le. simp region_laws (ground (arith, h.no_code q le));
    no_data = λ q le. simp region_laws (ground (arith, h.no_data q le));
    no_stack = λ q le. simp region_laws (ground (arith, h.no_stack q le));
    no_kernel = λ b. simp region_laws (ground (arith, h.no_kernel b));
    no_shared = λ b. simp region_laws (ground (arith, h.no_shared b));
  }

  -- The caller of process_exit ends without a region.
  pub free_process_memory-held :
      (pid q : ℕ) (rid : RegionId) (s : System H)
      → IsAccounted s
      → count rid (holdings (free_process_memory pid s) q)
        ≡ indicator (owned_by q (get (free_process_memory pid s).memory_regions rid))
  unfolding free_process_memory count
  free_process_memory-held pid q rid s h = elim (Option-cases (get s.process_memory pid)) [
    | inl e ↦ rw (e, free_process_memory) (h.held q rid)
    | inr (rids, e) ↦
        rw (e, free_process_memory)
          (simp region_laws (
            ground (
              arith,
              h.held q rid,
              h.held pid rid,
              e,
              member-count rid rids,
              not-member-count rid rids,
            )))
  ]

  pub free_process_memory-regions :
      (pid : ℕ) (rid : RegionId) (s : System H)
      → let after = get (free_process_memory pid s).memory_regions rid in
        (after ≡ none) ⊎ (after ≡ get s.memory_regions rid)
  unfolding free_process_memory
  free_process_memory-regions pid rid s = elim (Option-cases (get s.process_memory pid)) [
    | inl e ↦ inr (rw (e, free_process_memory) refl)
    | inr (rids, e) ↦ rw (e, free_process_memory) (simp get-delete_all (ground arith))
  ]

  free_process_memory-rest :
      (pid : ℕ) (s : System H)
      → ((free_process_memory pid s).next_pid ≡ s.next_pid)
        × ((free_process_memory pid s).initialized ≡ s.initialized)
  unfolding free_process_memory
  free_process_memory-rest pid s = ground arith

  pub free_process_memory-IsAccounted :
      (pid : ℕ) (s : System H) → IsAccounted s → IsAccounted (free_process_memory pid s)
  free_process_memory-IsAccounted pid s h =
      let rest = free_process_memory-rest pid s in
      let shrunk = λ (rid : RegionId). free_process_memory-regions pid rid s in
      record {
        held = λ q rid. free_process_memory-held pid q rid s h;
        ids = λ rid. elim (shrunk rid) [ inl e ↦ rw e tt | inr e ↦ rw e (h.ids rid) ];
        future = λ q rid le. ground (arith, shrunk rid, rest, h.future q rid (rw rest.0 at le));
        no_code =
            λ q le. ground (arith, shrunk (RegionId.code_segment q), h.no_code q (rw rest.0 at le));
        no_data =
            λ q le. ground (arith, shrunk (RegionId.data_segment q), h.no_data q (rw rest.0 at le));
        no_stack = λ q le.
            ground (arith, shrunk (RegionId.stack_segment q), h.no_stack q (rw rest.0 at le));
        no_kernel = λ b. ground (arith, shrunk RegionId.kernel_main, h.no_kernel (rw rest.1 at b));
        no_shared =
            λ b. ground (arith, shrunk RegionId.system_shared, h.no_shared (rw rest.1 at b));
      }

  -- The segments of a new process, whose id is the next one.
  pub launch-IsAccounted :
      (p : ProcessInfo H) (now : ℕ → H.Float) (s : System H)
      → IsAccounted s
      → IsAccounted (launch s.next_pid p now (record s { next_pid = s.next_pid + 1 }))
  unfolding launch init_process_memory count
  launch-IsAccounted p now s h = record {
    held = λ q rid. simp region_laws (
        ground (
          arith,
          h.held q rid,
          h.future s.next_pid rid (omega arith),
          h.no_code s.next_pid (omega arith),
          h.no_data s.next_pid (omega arith),
          h.no_stack s.next_pid (omega arith),
          region_id_beq_iff (RegionId.code_segment s.next_pid) rid,
          region_id_beq_iff (RegionId.data_segment s.next_pid) rid,
          region_id_beq_iff (RegionId.stack_segment s.next_pid) rid,
        ));
    ids = λ rid. HasId-put _ _ rid (HasId-put _ _ rid (HasId-put _ _ rid (h.ids rid)));
    future = λ q rid le. simp region_laws (ground (arith, h.future q rid (omega arith)));
    no_code = λ q le. simp region_laws (ground (arith, h.no_code q (omega arith)));
    no_data = λ q le. simp region_laws (ground (arith, h.no_data q (omega arith)));
    no_stack = λ q le. simp region_laws (ground (arith, h.no_stack q (omega arith)));
    no_kernel = λ b. simp region_laws (ground (arith, h.no_kernel b));
    no_shared = λ b. simp region_laws (ground (arith, h.no_shared b));
  }
