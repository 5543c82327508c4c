-- ===== src/CoreSystem/Accounting/Kept.antt =====
-- Every system call keeps the regions and the lists in agreement.
use trinity_v4_ai_brain.Prelude.{
  ℕ, ◌+◌, ◌<◌, ℤ, ◌+ℤ◌, ◌≡◌, refl, Option, none, some, inl, inr, remove, List-cases, Option-cases,
  nat_eq, string_eq, arith,
}
use trinity_v4_ai_brain.Host.{Host, Env}
use trinity_v4_ai_brain.Dict.{get, put, delete}
use trinity_v4_ai_brain.Process.{ProcessInfo, ProcessState}
use trinity_v4_ai_brain.Memory.{MemoryRegion, RegionId, region_id_eq}
use trinity_v4_ai_brain.Ipc.{IpcMessage}
use trinity_v4_ai_brain.Syscall.{Kwargs}
use trinity_v4_ai_brain.CoreSystem.{System, Reason, wait, ipc_receive}
use trinity_v4_ai_brain.CoreSystem.Actions.{with_process, block}
use trinity_v4_ai_brain.CoreSystem.Regions.{register}
use trinity_v4_ai_brain.CoreSystem.Processes.{terminate}
use trinity_v4_ai_brain.CoreSystem.Messages.{enqueue, wake}
use trinity_v4_ai_brain.CoreSystem.Processes.Cases.{
  process_create_cases, process_exit_cases, process_wait_cases,
}
use trinity_v4_ai_brain.CoreSystem.Regions.Cases.{
  memory_allocate_cases, memory_free_cases, memory_map_cases,
}
use trinity_v4_ai_brain.CoreSystem.Messages.Cases.{ipc_send_cases, ipc_receive_cases}
use trinity_v4_ai_brain.CoreSystem.Dispatch.{invoke_syscall}
use trinity_v4_ai_brain.CoreSystem.Dispatch.Kept.{
  KeptByHandlers, KeptByCounts, IsFresh, invoke_syscall-kept,
}
use trinity_v4_ai_brain.CoreSystem.Scheduler.{run_scheduler}
use trinity_v4_ai_brain.CoreSystem.Scheduler.Pass.{
  run_scheduler-idle, run_scheduler-missing, run_scheduler-front,
}
use trinity_v4_ai_brain.CoreSystem.Accounting.{IsAccounted}
use trinity_v4_ai_brain.CoreSystem.Accounting.Steps.{
  register-IsAccounted, discard-IsAccounted, free_process_memory-IsAccounted, launch-IsAccounted,
}

-- The memory side of the system is the same.
pub record SameMemory {H : Host} (s t : System H) : Type 0 where
  pub regions : t.memory_regions ≡ s.memory_regions
  pub lists : t.process_memory ≡ s.process_memory
  pub next : t.next_pid ≡ s.next_pid
  pub booted : t.initialized ≡ s.initialized

module _ {H : Host} where
  pub SameMemory-IsAccounted : (s t : System H) → SameMemory s t → IsAccounted s → IsAccounted t
  SameMemory-IsAccounted s t e h = record {
    held = λ pid rid. rw (e.regions, e.lists) (h.held pid rid);
    ids = λ rid. rw e.regions (h.ids rid);
    future = λ pid rid le. rw e.regions (h.future pid rid (rw e.next at le));
    no_code = λ pid le. rw e.regions (h.no_code pid (rw e.next at le));
    no_data = λ pid le. rw e.regions (h.no_data pid (rw e.next at le));
    no_stack = λ pid le. rw e.regions (h.no_stack pid (rw e.next at le));
    no_kernel = λ b. rw e.regions (h.no_kernel (rw e.booted at b));
    no_shared = λ b. rw e.regions (h.no_shared (rw e.booted at b));
  }

  pub block-SameMemory :
      (pid : ℕ) (p : ProcessInfo H) (r : Reason) (s : System H) → SameMemory s (block pid p r s)
  unfolding block
  block-SameMemory pid p r s = record { regions = refl; lists = refl; next = refl; booted = refl }

  pub wake-SameMemory :
      (pid : ℕ) (m : IpcMessage H) (s : System H) → SameMemory s (wake pid (enqueue pid m s))
  unfolding wake enqueue
  wake-SameMemory pid m s = go (get s.blocked_processes pid) refl
    where
      go :
          (o : Option Reason)
          → get s.blocked_processes pid ≡ o
          → SameMemory s (wake pid (enqueue pid m s))
      go none e = rw (e, wake) (record { regions = refl; lists = refl; next = refl; booted = refl })
      go (some (wait w)) e =
          rw (e, wake) (record { regions = refl; lists = refl; next = refl; booted = refl })
      go (some ipc_receive) e =
          rw (e, wake) (record { regions = refl; lists = refl; next = refl; booted = refl })

  run_scheduler-SameMemory : (now : H.Float) (s : System H) → SameMemory s (run_scheduler now s)
  run_scheduler-SameMemory now s = elim (List-cases s.ready_queue) [
    | inl e ↦
        rw (run_scheduler-idle now s e)
          (record { regions = refl; lists = refl; next = refl; booted = refl })
    | inr (pid, rest, e) ↦ elim (Option-cases (get s.processes pid)) [
      | inl missing ↦
          rw (run_scheduler-missing now s pid rest e missing)
            (record { regions = refl; lists = refl; next = refl; booted = refl })
      | inr (p, there) ↦
          rw (run_scheduler-front now pid p rest s e there)
            (record { regions = refl; lists = refl; next = refl; booted = refl })
    ]
  ]

  pub run_scheduler-IsAccounted :
      (now : H.Float) (s : System H) → IsAccounted s → IsAccounted (run_scheduler now s)
  run_scheduler-IsAccounted now s =
      SameMemory-IsAccounted s (run_scheduler now s) (run_scheduler-SameMemory now s)

  numbered-IsAccounted :
      (s : System H) → IsAccounted s → IsAccounted (record s { next_pid = s.next_pid + 1 })
  numbered-IsAccounted s h = record {
    held = h.held;
    ids = h.ids;
    future = λ pid rid le. h.future pid rid (omega arith);
    no_code = λ pid le. h.no_code pid (omega arith);
    no_data = λ pid le. h.no_data pid (omega arith);
    no_stack = λ pid le. h.no_stack pid (omega arith);
    no_kernel = h.no_kernel;
    no_shared = h.no_shared;
  }

  allocated-IsAccounted :
      (pid n : ℕ) (size : ℤ) (r : MemoryRegion H) (s : System H)
      → r.id ≡ RegionId.uuid n
      → get s.memory_regions (RegionId.uuid n) ≡ none
      → r.owner_pid < s.next_pid
      → IsAccounted s
      → IsAccounted (
          with_process pid (λ p. record p { memory_usage = p.memory_usage +ℤ size }) (register r s))
  allocated-IsAccounted pid n size r s e new lt h =
      SameMemory-IsAccounted (register r s) _
        (record { regions = refl; lists = refl; next = refl; booted = refl })
        (register-IsAccounted r n s e new lt h)

  pub terminate-IsAccounted :
      (pid : ℕ) (p : ProcessInfo H) (code : ℤ) (s : System H)
      → IsAccounted s
      → IsAccounted (terminate pid p code s)
  unfolding terminate
  terminate-IsAccounted pid p code s h =
      SameMemory-IsAccounted _ _
        (record { regions = refl; lists = refl; next = refl; booted = refl })
        (free_process_memory-IsAccounted pid
          (record s {
            processes = put s.processes pid (record p {
              state = ProcessState.terminated;
              metadata = put p.metadata "exit_code" code;
            });
            ready_queue = remove pid s.ready_queue;
            blocked_processes = delete s.blocked_processes pid;
          })
          (SameMemory-IsAccounted s _
            (record { regions = refl; lists = refl; next = refl; booted = refl }) h))

  pub IsAccounted-KeptByHandlers : KeptByHandlers {H = H} (λ pid s. pid < s.next_pid) IsAccounted
  IsAccounted-KeptByHandlers = record {
    creates = λ pid name priority policy env s q h.
        process_create_cases IsAccounted s pid name priority policy env h (numbered-IsAccounted s h)
          (λ level rule. launch-IsAccounted _ env.created s h);
    exits = λ pid code s q h.
        process_exit_cases IsAccounted s pid code h (λ p e. terminate-IsAccounted pid p code s h);
    waits = λ pid w s q h.
        process_wait_cases IsAccounted s pid w h
          (λ e.
            SameMemory-IsAccounted s _
              (record { regions = refl; lists = refl; next = refl; booted = refl }) h)
          (λ p e. SameMemory-IsAccounted s _ (block-SameMemory pid p _ s) h);
    allocates = λ pid size permissions env s new lt h.
        memory_allocate_cases IsAccounted s pid size permissions env h
          (λ start access e. allocated-IsAccounted pid env.uuid size _ s refl new lt h);
    frees = λ pid rid s q h.
        memory_free_cases IsAccounted s pid rid h
          (λ r e mine. discard-IsAccounted pid (record r { id = rid }) s (ground (arith, e)) h);
    maps = λ pid target address permissions env s new lt h.
        memory_map_cases IsAccounted s pid target address permissions env h
          (λ rid t start access. register-IsAccounted _ env.uuid s refl new lt h);
    sends = λ pid target subject kind payload timeout env s q h.
        ipc_send_cases IsAccounted s pid target subject kind payload timeout env h
          (λ to m. SameMemory-IsAccounted s _ (wake-SameMemory to m s) h);
    receives = λ pid wait s q h.
        ipc_receive_cases IsAccounted s pid wait h
          (λ m rest e.
            SameMemory-IsAccounted s _
              (record { regions = refl; lists = refl; next = refl; booted = refl }) h)
          (λ p e. SameMemory-IsAccounted s _ (block-SameMemory pid p _ s) h);
  }

  pub IsAccounted-KeptByCounts : KeptByCounts {H = H} (λ pid s. pid < s.next_pid) IsAccounted
  IsAccounted-KeptByCounts = record {
    callers = λ pid stats s lt. lt;
    counts = λ stats s h.
        SameMemory-IsAccounted s _
          (record { regions = refl; lists = refl; next = refl; booted = refl }) h;
  }

  -- Every system call that draws a new uuid, by a process whose id has been given out, keeps each
  -- process listed with exactly the regions that it owns.
  pub invoke_syscall-IsAccounted :
      (pid number : ℕ) (k : Kwargs H) (env : Env H) (s : System H)
      → IsFresh env s
      → pid < s.next_pid
      → IsAccounted s
      → IsAccounted (invoke_syscall pid number k env s).1
  invoke_syscall-IsAccounted pid number k env s =
      invoke_syscall-kept IsAccounted-KeptByHandlers IsAccounted-KeptByCounts env pid number k s
