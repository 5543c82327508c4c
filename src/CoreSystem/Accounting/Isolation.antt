-- ===== src/CoreSystem/Accounting/Isolation.antt =====
-- No system call of one process touches a region of another.
use trinity_v4_ai_brain.Prelude.{
  ℕ, ◌<◌, ℤ, ◌+◌, ◌≡◌, ◌≢◌, refl, none, some, nat_eq, string_eq, remove, arith,
}
use trinity_v4_ai_brain.Host.{Host, Env}
use trinity_v4_ai_brain.Dict.{get, put, delete}
use trinity_v4_ai_brain.Dict.Laws.{dict_laws}
use trinity_v4_ai_brain.Process.{ProcessInfo, ProcessState}
use trinity_v4_ai_brain.Memory.{MemoryRegion, RegionId, region_id_eq, region_id_beq_iff}
use trinity_v4_ai_brain.Syscall.{Kwargs}
use trinity_v4_ai_brain.CoreSystem.{System}
use trinity_v4_ai_brain.CoreSystem.Regions.{init_process_memory, register, discard}
use trinity_v4_ai_brain.CoreSystem.Processes.{launch, terminate}
use trinity_v4_ai_brain.CoreSystem.Processes.Cases.{
  process_create_cases, process_exit_cases, process_wait_cases,
}
use trinity_v4_ai_brain.CoreSystem.Processes.Exit.{free_process_memory-others}
use trinity_v4_ai_brain.CoreSystem.Regions.Cases.{
  memory_allocate_cases, memory_free_cases, memory_map_cases,
}
use trinity_v4_ai_brain.CoreSystem.Messages.Cases.{ipc_send_cases, ipc_receive_cases}
use trinity_v4_ai_brain.CoreSystem.Messages.{enqueue}
use trinity_v4_ai_brain.CoreSystem.Dispatch.{invoke_syscall}
use trinity_v4_ai_brain.CoreSystem.Dispatch.Kept.{
  KeptByHandlers, KeptByCounts, IsFresh, invoke_syscall-kept,
}
use trinity_v4_ai_brain.CoreSystem.Accounting.{IsAccounted}
use trinity_v4_ai_brain.CoreSystem.Accounting.Kept.{
  SameMemory-IsAccounted, IsAccounted-KeptByHandlers, IsAccounted-KeptByCounts, wake-SameMemory,
  block-SameMemory,
}

module _ {H : Host} (j : RegionId) (r : MemoryRegion H) where
  -- The region is in the table, in a consistent state.
  abbrev Holds : System H → Type 0
  Holds s = IsAccounted s × (get s.memory_regions j ≡ some r)

  -- The caller is another process than the owner.
  abbrev IsOther : ℕ → System H → Type 0
  IsOther pid s = (r.owner_pid ≢ pid) × (pid < s.next_pid)

  launch-keeps :
      (p : ProcessInfo H) (now : ℕ → H.Float) (s : System H)
      → Holds s
      → get (launch s.next_pid p now (record s { next_pid = s.next_pid + 1 })).memory_regions j
        ≡ some r
  unfolding launch init_process_memory
  launch-keeps p now s (h, there) = simp dict_laws (
      ground (
        arith,
        there,
        h.no_code s.next_pid (omega arith),
        h.no_data s.next_pid (omega arith),
        h.no_stack s.next_pid (omega arith),
        region_id_beq_iff (RegionId.code_segment s.next_pid) j,
        region_id_beq_iff (RegionId.data_segment s.next_pid) j,
        region_id_beq_iff (RegionId.stack_segment s.next_pid) j,
      ))

  terminate-keeps :
      (pid : ℕ) (p : ProcessInfo H) (code : ℤ) (s : System H)
      → r.owner_pid ≢ pid
      → Holds s
      → get (terminate pid p code s).memory_regions j ≡ some r
  unfolding terminate
  terminate-keeps pid p code s other (h, there) =
      free_process_memory-others pid _ j r
        (SameMemory-IsAccounted s
          (record s {
            processes = put s.processes pid (record p {
              state = ProcessState.terminated;
              metadata = put p.metadata "exit_code" code;
            });
            ready_queue = remove pid s.ready_queue;
            blocked_processes = delete s.blocked_processes pid;
          })
          (record { regions = refl; lists = refl; next = refl; booted = refl }) h)
        there other

  register-keeps :
      (n : ℕ) (new : MemoryRegion H) (s : System H)
      → new.id ≡ RegionId.uuid n
      → get s.memory_regions (RegionId.uuid n) ≡ none
      → get s.memory_regions j ≡ some r
      → get (register new s).memory_regions j ≡ some r
  unfolding register
  register-keeps n new s e fresh there =
      simp dict_laws (ground (arith, there, fresh, e, region_id_beq_iff new.id j))

  discard-keeps :
      (pid : ℕ) (gone old : MemoryRegion H) (s : System H)
      → old.owner_pid ≡ pid
      → get s.memory_regions gone.id ≡ some old
      → r.owner_pid ≢ pid
      → get s.memory_regions j ≡ some r
      → get (discard pid gone s).memory_regions j ≡ some r
  unfolding discard
  discard-keeps pid gone old s mine found other there =
      simp dict_laws (ground (arith, there, found, region_id_beq_iff gone.id j))

  Stays : System H → Type 0
  Stays s = get s.memory_regions j ≡ some r

  Holds-KeptByHandlers : KeptByHandlers IsOther Holds
  unfolding Stays register enqueue
  Holds-KeptByHandlers = record {
    creates = λ pid name priority policy env s q h. (
      IsAccounted-KeptByHandlers.creates pid name priority policy env s q.1 h.0,
      process_create_cases Stays s pid name priority policy env h.1 h.1
          (λ level rule. launch-keeps _ env.created s h),
    );
    exits = λ pid code s q h. (
      IsAccounted-KeptByHandlers.exits pid code s q.1 h.0,
      process_exit_cases Stays s pid code h.1 (λ p e. terminate-keeps pid p code s q.0 h),
    );
    waits = λ pid w s q h. (
      IsAccounted-KeptByHandlers.waits pid w s q.1 h.0,
      process_wait_cases Stays s pid w h.1 (λ e. h.1)
          (λ p e. rw (block-SameMemory pid p _ s).regions h.1),
    );
    allocates = λ pid size permissions env s new q h. (
      IsAccounted-KeptByHandlers.allocates pid size permissions env s new q.1 h.0,
      memory_allocate_cases Stays s pid size permissions env h.1
          (λ start access e. register-keeps env.uuid _ s refl new h.1),
    );
    frees = λ pid rid s q h. (
      IsAccounted-KeptByHandlers.frees pid rid s q.1 h.0,
      memory_free_cases Stays s pid rid h.1
          (λ old e mine. discard-keeps pid _ old s mine e q.0 h.1),
    );
    maps = λ pid target address permissions env s new q h. (
      IsAccounted-KeptByHandlers.maps pid target address permissions env s new q.1 h.0,
      memory_map_cases Stays s pid target address permissions env h.1
          (λ rid t start access. register-keeps env.uuid _ s refl new h.1),
    );
    sends = λ pid target subject kind payload timeout env s q h. (
      IsAccounted-KeptByHandlers.sends pid target subject kind payload timeout env s q.1 h.0,
      ipc_send_cases Stays s pid target subject kind payload timeout env h.1
          (λ to m. rw (wake-SameMemory to m s).regions h.1),
    );
    receives = λ pid wait s q h. (
      IsAccounted-KeptByHandlers.receives pid wait s q.1 h.0,
      ipc_receive_cases Stays s pid wait h.1 (λ m rest e. h.1)
          (λ p e. rw (block-SameMemory pid p _ s).regions h.1),
    );
  }

  Holds-KeptByCounts : KeptByCounts IsOther Holds
  Holds-KeptByCounts = record {
    callers = λ pid stats s q. q;
    counts = λ stats s h. (IsAccounted-KeptByCounts.counts stats s h.0, h.1);
  }

  -- With the memory tables consistent, a system call with a new uuid by a process whose id has
  -- been given out leaves every region of every other process exactly as it is, whatever its
  -- number, arguments and outcome.
  pub invoke_syscall_isolates :
      (pid number : ℕ) (k : Kwargs H) (env : Env H) (s : System H)
      → IsFresh env s
      → IsAccounted s
      → pid < s.next_pid
      → r.owner_pid ≢ pid
      → get s.memory_regions j ≡ some r
      → get (invoke_syscall pid number k env s).1.memory_regions j ≡ some r
  invoke_syscall_isolates pid number k env s new h lt other there =
      (invoke_syscall-kept Holds-KeptByHandlers Holds-KeptByCounts env pid number k s new
        (other, lt) (h, there)).1
