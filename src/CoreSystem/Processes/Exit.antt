-- ===== src/CoreSystem/Processes/Exit.antt =====
-- process_exit, and process_wait after it.
use trinity_v4_ai_brain.Prelude.{
  ℕ, ℤ, pos, ◌≡◌, Option, if◌then◌else◌, ◌==◌, ◌≢◌, refl, ap, none, some, [], nat_eq, string_eq,
  count, remove, count-remove, member-count, inl, inr, Option-cases, arith,
}
use trinity_v4_ai_brain.Host.{Host}
use trinity_v4_ai_brain.Dict.{get, put, delete}
use trinity_v4_ai_brain.Dict.Laws.{dict_laws}
use trinity_v4_ai_brain.Process.{ProcessInfo, ProcessState}
use trinity_v4_ai_brain.Memory.{MemoryRegion, RegionId, region_id_eq}
use trinity_v4_ai_brain.Syscall.{Value, returned, succeed}
use trinity_v4_ai_brain.CoreSystem.{System, state_of, status}
use trinity_v4_ai_brain.CoreSystem.Actions.{reply}
use trinity_v4_ai_brain.CoreSystem.Regions.{free_process_memory}
use trinity_v4_ai_brain.CoreSystem.Processes.{terminate, process_exit, process_wait}
use trinity_v4_ai_brain.CoreSystem.Scheduling.{IsScheduled}
use trinity_v4_ai_brain.CoreSystem.Scheduling.Steps.{free_process_memory-SameSchedule}
use trinity_v4_ai_brain.CoreSystem.Accounting.{IsAccounted, holdings}
use trinity_v4_ai_brain.CoreSystem.Accounting.Steps.{
  free_process_memory-IsAccounted, free_process_memory-regions,
}
use trinity_v4_ai_brain.CoreSystem.Accounting.Kept.{SameMemory-IsAccounted}
use trinity_v4_ai_brain.CoreSystem.Accounting.Deletion.{get-delete_all}

module _ {H : Host} (pid : ℕ) (s : System H) where
  free_process_memory-holdings : holdings (free_process_memory pid s) pid ≡ []
  unfolding free_process_memory
  free_process_memory-holdings = elim (Option-cases (get s.process_memory pid)) [
    | inl e ↦ rw (e, free_process_memory) (rw e refl)
    | inr (rids, e) ↦ rw (e, free_process_memory) (simp dict_laws (ground arith))
  ]

  -- The regions of other processes stay.
  pub free_process_memory-others :
      (rid : RegionId) (r : MemoryRegion H)
      → IsAccounted s
      → get s.memory_regions rid ≡ some r
      → r.owner_pid ≢ pid
      → get (free_process_memory pid s).memory_regions rid ≡ some r
  unfolding free_process_memory
  free_process_memory-others rid r h there other = elim (Option-cases (get s.process_memory pid)) [
    | inl e ↦ rw (e, free_process_memory) there
    | inr (rids, e) ↦
        rw (e, free_process_memory)
          (rw get-delete_all (ground (arith, h.held pid rid, e, there, member-count rid rids)))
  ]

  -- The entry of a process is the same but for its memory usage.
  free_process_memory-entry :
      (p : ProcessInfo H)
      → get s.processes pid ≡ some p
      → (usage : ℤ) × (get (free_process_memory pid s).processes pid
          ≡ some (record p { memory_usage = usage }))
  unfolding free_process_memory
  free_process_memory-entry p there = elim (Option-cases (get s.process_memory pid)) [
    | inl e ↦ (p.memory_usage, rw (e, free_process_memory) there)
    | inr (rids, e) ↦ (pos 0, rw (e, free_process_memory) (simp dict_laws (ground (arith, there))))
  ]

  free_process_memory-tables :
      ((free_process_memory pid s).blocked_processes ≡ s.blocked_processes)
      × ((free_process_memory pid s).ready_queue ≡ s.ready_queue)
  free_process_memory-tables =
      let same = free_process_memory-SameSchedule pid s in (same.reasons, same.queue)

module _ {H : Host} where
  -- A region that the process does not own.
  abbrev pub unless_owned : ℕ → Option (MemoryRegion H) → Option (MemoryRegion H)
  unless_owned pid none = none
  unless_owned pid (some r) = if r.owner_pid == pid then none else some r

  free_process_memory-unless :
      (pid : ℕ) (s : System H) (rid : RegionId)
      → IsAccounted s
      → get (free_process_memory pid s).memory_regions rid
        ≡ unless_owned pid (get s.memory_regions rid)
  unfolding count
  free_process_memory-unless pid s rid h =
      let freed = free_process_memory-IsAccounted pid s h in
      let shrinks = free_process_memory-regions pid rid s in
      let nothing = free_process_memory-holdings pid s in
      elim (Option-cases (get s.memory_regions rid)) [
        | inl missing ↦ ground (arith, shrinks, missing)
        | inr (r, there) ↦ ground (
          arith,
          shrinks,
          there,
          freed.held pid rid,
          nothing,
          free_process_memory-others pid s rid r h there,
        )
      ]

module _ {H : Host} (pid : ℕ) (code : ℤ) (p : ProcessInfo H) (s : System H)
    (there : get s.processes pid ≡ some p) where
  pub process_exit-eq : process_exit pid code s ≡ reply Value.nothing (terminate pid p code s)
  unfolding process_exit
  process_exit-eq = rw (there, process_exit) refl

  abbrev ended : System H
  ended = record s {
    processes =
        put s.processes pid (record p {
          state = ProcessState.terminated;
          metadata = put p.metadata "exit_code" code;
        });
    ready_queue = remove pid s.ready_queue;
    blocked_processes = delete s.blocked_processes pid;
  }

  ended_entry :
      get ended.processes pid
      ≡ some
          (record p { state = ProcessState.terminated; metadata = put p.metadata "exit_code" code })
  ended_entry = simp dict_laws (ground arith)

  pub terminated_entry :
      (usage : ℤ) × (get (terminate pid p code s).processes pid
        ≡ some (record p {
          state = ProcessState.terminated;
          metadata = put p.metadata "exit_code" code;
          memory_usage = usage;
        }))
  unfolding terminate
  terminated_entry = free_process_memory-entry pid ended _ ended_entry

  -- In a consistent state, a process of the table that exits is TERMINATED, stands neither in the
  -- ready queue nor among the blocked processes, has no message queue and owns no region; the
  -- regions of the others stay.
  pub process_exit_cleans :
      IsScheduled s
      → IsAccounted s
      → let (outcome, t) = process_exit pid code s in
        (outcome ≡ returned (succeed Value.nothing))
        × (state_of t pid ≡ some ProcessState.terminated)
        × (count pid t.ready_queue ≡ 0)
        × (get t.blocked_processes pid ≡ none)
        × (get t.message_queues pid ≡ none)
        × ((rid : RegionId)
            → get t.memory_regions rid ≡ unless_owned pid (get s.memory_regions rid))
  unfolding terminate count
  process_exit_cleans g h =
      let accounted =
        SameMemory-IsAccounted s ended
          (record { regions = refl; lists = refl; next = refl; booted = refl }) h in
      rw process_exit-eq (
        refl,
        ap status terminated_entry.1,
        rw (free_process_memory-tables pid ended).1
            (simp count-remove (ground (arith, g.queued pid))),
        rw (free_process_memory-tables pid ended).0 (simp dict_laws (ground arith)),
        simp dict_laws (ground arith),
        λ rid. free_process_memory-unless pid ended rid accounted,
      )

  -- After a process of the table has exited, whoever waits for it gets its exit code at once, and
  -- nothing changes.
  pub process_wait-process_exit :
      (waiter : ℕ)
      → let t = (process_exit pid code s).1 in
        process_wait waiter pid t ≡ reply (Value.exit_code code) t
  unfolding process_wait
  process_wait-process_exit waiter =
      rw process_exit-eq (rw (terminated_entry.1, process_wait) (simp dict_laws (ground arith)))
