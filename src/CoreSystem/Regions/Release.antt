-- ===== src/CoreSystem/Regions/Release.antt =====
-- memory_free after memory_allocate, and after memory_map.
use mathlib.Core.Option
use trinity_v4_ai_brain.Prelude.{
  ℕ, ℤ, pos, pos_part, ◌+ℤ◌, ◌-ℤ◌, add_sub_ℤ, ltb_ℤ, Bool, not, ◌&&◌, ◌||◌, ◌≡◌, refl, ap, ◌∙◌,
  true, false, Option, none, some, List, [], ◌∷◌, ◌++◌, nat_eq, nat_beq_iff, string_eq, ◌==◌,
  if◌then◌else◌, remove, count, Option-cases, arith,
}
use trinity_v4_ai_brain.Host.{Host, Env}
use trinity_v4_ai_brain.Dict
use trinity_v4_ai_brain.Dict.{get, put, contains}
use trinity_v4_ai_brain.Dict.Laws.{dict_laws}
use trinity_v4_ai_brain.Process.{ProcessInfo}
use trinity_v4_ai_brain.Memory.{
  MemoryRegion, MemoryType, MemoryPermission, RegionId, new_region, permission_of, is_shared,
  region_id_eq, region_id_beq_iff,
}
use trinity_v4_ai_brain.Syscall.{Target, Value, returned, succeed}
use trinity_v4_ai_brain.CoreSystem.{System}
use trinity_v4_ai_brain.CoreSystem.Actions.{with_process, reply}
use trinity_v4_ai_brain.CoreSystem.Regions.{
  register, discard, memory_allocate, memory_free, memory_map,
}
use trinity_v4_ai_brain.CoreSystem.Regions.Placement.{
  allocated, memory_allocate-eq, highest_end_total, held_is_there, user_base,
}
use trinity_v4_ai_brain.CoreSystem.Accounting.{IsAccounted, holdings}
use trinity_v4_ai_brain.CoreSystem.Dispatch.Kept.{IsFresh}

-- What was put at the end and is nowhere else is what removal takes.
remove-append : (a : RegionId) (xs : List RegionId) → count a xs ≡ 0 → remove a (xs ++ a ∷ []) ≡ xs
unfolding remove count
remove-append a [] h = ground (arith, region_id_beq_iff a a)
remove-append a (x ∷ xs) h = ground (arith, h, remove-append a xs)

not_both : (a b : Bool) → (a || b) ≡ true → (not a && not b) ≡ false
not_both a b h = ground (arith, h)

module _ {H : Host} where
  memory_free-own :
      (pid : ℕ) (rid : RegionId) (r : MemoryRegion H) (s : System H)
      → get s.memory_regions rid ≡ some r
      → r.owner_pid ≡ pid
      → memory_free pid rid s ≡ reply Value.nothing (discard pid (record r { id = rid }) s)
  unfolding memory_free
  memory_free-own pid rid r s there mine =
      let own = (nat_beq_iff r.owner_pid pid).1 mine in rw (there, memory_free) (rw own refl)

  -- Registering a region with a new id and discarding it puts tables back.
  record Restored (s t : System H) : Type 0 where
    regions : (rid : RegionId) → get t.memory_regions rid ≡ get s.memory_regions rid
    lists : (j : ℕ) → holdings t j ≡ holdings s j

  discard-register :
      (pid : ℕ) (r : MemoryRegion H) (f : ProcessInfo H → ProcessInfo H) (s : System H)
      → r.owner_pid ≡ pid
      → get s.memory_regions r.id ≡ none
      → IsAccounted s
      → Restored s (discard pid r (with_process pid f (register r s)))
  unfolding discard register
  discard-register pid r f s mine new h = record {
    regions = λ rid. simp dict_laws (ground (arith, new, region_id_beq_iff r.id rid));
    lists = λ j. simp dict_laws (
        ground (
          arith,
          mine,
          new,
          h.held pid r.id,
          remove-append r.id (holdings s pid),
          Option-cases (get s.process_memory pid),
        ));
  }

  -- What the owner's record shows after a region is registered and discarded.
  discard-register-usage :
      (pid : ℕ) (r : MemoryRegion H) (f : ProcessInfo H → ProcessInfo H) (s : System H) (j : ℕ)
      → get (discard pid r (with_process pid f (register r s))).processes j ≡ (
          if pid == j
          then Option.map
              (λ p. record (f p) { memory_usage = (f p).memory_usage -ℤ pos r.size })
              (get s.processes j)
          else get s.processes j)
  unfolding discard register
  discard-register-usage pid r f s j = simp dict_laws (ground arith)

  get-register :
      (r : MemoryRegion H) (s : System H) → get (register r s).memory_regions r.id ≡ some r
  unfolding register
  get-register r s = simp dict_laws (ground (arith, region_id_beq_iff r.id r.id))

  unchanged :
      (pid j : ℕ) (o : Option (ProcessInfo H)) (size : ℤ)
      → ltb_ℤ (pos 0) size ≡ true
      → (if pid == j
          then Option.map
              (λ (p : ProcessInfo H). record p {
                memory_usage = p.memory_usage +ℤ size -ℤ pos (pos_part size);
              })
              o
          else o)
        ≡ o
  unchanged pid j none size h = ground arith
  unchanged pid j (some p) size h = rw (add_sub_ℤ p.memory_usage size h) (ground arith)

  -- With the memory tables consistent, memory that a process of the table allocates with a new
  -- uuid, a positive size and a valid permission number, and then frees, leaves no trace: the
  -- free succeeds, and every region, every list of regions and every process is as before.
  pub memory_free-memory_allocate :
      (pid : ℕ) (size permissions : ℤ) (env : Env H) (access : MemoryPermission) (s : System H)
      → IsAccounted s
      → IsFresh env s
      → contains s.processes pid ≡ true
      → ltb_ℤ (pos 0) size ≡ true
      → permission_of permissions ≡ some access
      → let t = (memory_allocate pid size permissions env s).1 in
        let (freed, u) = memory_free pid (RegionId.uuid env.uuid) t in
        (freed ≡ returned (succeed Value.nothing))
        × ((rid : RegionId) → get u.memory_regions rid ≡ get s.memory_regions rid)
        × ((j : ℕ) → holdings u j ≡ holdings s j)
        × ((j : ℕ) → get u.processes j ≡ get s.processes j)
  memory_free-memory_allocate pid size permissions env access s h new known positive valid =
      let (start, top) =
        highest_end_total s.memory_regions (holdings s pid) user_base (held_is_there s h pid) in
      let r = allocated pid size permissions env s start access in
      let f = λ (p : ProcessInfo H). record p { memory_usage = p.memory_usage +ℤ size } in
      let done =
        ap (λ t. memory_free pid (RegionId.uuid env.uuid) (t.1))
          (memory_allocate-eq pid size permissions env s start access known positive top valid)
        ∙ memory_free-own pid (RegionId.uuid env.uuid) r (with_process pid f (register r s))
            (get-register r s) refl in
      let back = discard-register pid r f s refl new h in
      (
        ap (λ t. t.0) done,
        λ rid. ap (λ t. get (t.1).memory_regions rid) done ∙ back.regions rid,
        λ j. ap (λ t. holdings (t.1) j) done ∙ back.lists j,
        λ j.
            ap (λ t. get (t.1).processes j) done
            ∙ discard-register-usage pid r f s j
            ∙ unchanged pid j (get s.processes j) size positive,
      )

  -- The region that memory_map makes of the region `t`.
  abbrev mapped : ℕ → RegionId → ℤ → Env H → MemoryRegion H → MemoryPermission → MemoryRegion H
  mapped pid rid address env t access =
      record (new_region (RegionId.uuid env.uuid)
        (if ltb_ℤ (pos 0) address then pos_part address else 0x30000000) t.size pid
        MemoryType.shared access "" (env.created 0)) { metadata = put Dict.empty "mapped_from" rid }

  discard-mapped :
      (pid : ℕ) (r : MemoryRegion H) (s : System H)
      → r.owner_pid ≡ pid
      → get s.memory_regions r.id ≡ none
      → IsAccounted s
      → Restored s (discard pid r (register r s))
  unfolding discard register
  discard-mapped pid r s mine new h = record {
    regions = (discard-register pid r (λ p. p) s mine new h).regions;
    lists = (discard-register pid r (λ p. p) s mine new h).lists;
  }

  discard-usage :
      (pid : ℕ) (r : MemoryRegion H) (s : System H)
      → get (discard pid r (register r s)).processes pid
        ≡ Option.map
            (λ (p : ProcessInfo H). record p { memory_usage = p.memory_usage -ℤ pos r.size })
            (get s.processes pid)
  unfolding discard register
  discard-usage pid r s = simp dict_laws (ground arith)

  memory_map-eq :
      (pid : ℕ) (rid : RegionId) (address permissions : ℤ) (env : Env H) (t : MemoryRegion H)
      (access : MemoryPermission) (s : System H)
      → get s.memory_regions rid ≡ some t
      → (is_shared t.memory_type || t.owner_pid == pid) ≡ true
      → permission_of permissions ≡ some access
      → let r = mapped pid rid address env t access in
        memory_map pid (Target.region rid) address permissions env s
        ≡ reply (Value.region r.id r.start r.size) (register r s)
  unfolding memory_map
  memory_map-eq pid rid address permissions env t access s there may valid =
      let guard = not_both (is_shared t.memory_type) (t.owner_pid == pid) may in
      rw (there, memory_map) (rw guard (rw valid refl))

  -- With the memory tables consistent, mapping a region that is shared or the caller's own, under
  -- a new uuid and with a valid permission number, and freeing the mapping leaves every region
  -- and every list of regions as before, yet it lowers the memory usage that the process shows by
  -- the size of the region.
  pub memory_free-memory_map :
      (pid : ℕ) (rid : RegionId) (address permissions : ℤ) (env : Env H) (t : MemoryRegion H)
      (access : MemoryPermission) (s : System H)
      → IsAccounted s
      → IsFresh env s
      → get s.memory_regions rid ≡ some t
      → (is_shared t.memory_type || t.owner_pid == pid) ≡ true
      → permission_of permissions ≡ some access
      → let u = (memory_map pid (Target.region rid) address permissions env s).1 in
        let (freed, v) = memory_free pid (RegionId.uuid env.uuid) u in
        (freed ≡ returned (succeed Value.nothing))
        × ((j : RegionId) → get v.memory_regions j ≡ get s.memory_regions j)
        × ((j : ℕ) → holdings v j ≡ holdings s j)
        × (get v.processes pid
            ≡ Option.map
                (λ (p : ProcessInfo H). record p { memory_usage = p.memory_usage -ℤ pos t.size })
                (get s.processes pid))
  memory_free-memory_map pid rid address permissions env t access s h new there may valid =
      let r = mapped pid rid address env t access in
      let done =
        ap (λ u. memory_free pid (RegionId.uuid env.uuid) (u.1))
          (memory_map-eq pid rid address permissions env t access s there may valid)
        ∙ memory_free-own pid (RegionId.uuid env.uuid) r (register r s) (get-register r s) refl in
      let back = discard-mapped pid r s refl new h in
      (
        ap (λ u. u.0) done,
        λ j. ap (λ u. get (u.1).memory_regions j) done ∙ back.regions j,
        λ j. ap (λ u. holdings (u.1) j) done ∙ back.lists j,
        ap (λ u. get (u.1).processes pid) done ∙ discard-usage pid r s,
      )
