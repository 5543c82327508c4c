-- ===== src/CoreSystem/Scheduling/Kept.antt =====
-- Every call and every pass of the scheduler keeps the schedule consistent.
use trinity_v4_ai_brain.Prelude.{
  ℕ, ◌+◌, ℤ, ◌+ℤ◌, ◌≡◌, refl, ap, none, nat_eq, string_eq, inl, inr, remove, count, count-remove,
  count-append, List-cases, Option-cases, arith,
}
use trinity_v4_ai_brain.Host.{Host, Env}
use trinity_v4_ai_brain.Dict.{get}
use trinity_v4_ai_brain.Syscall.{Kwargs}
use trinity_v4_ai_brain.CoreSystem.{System}
use trinity_v4_ai_brain.Memory.{MemoryRegion}
use trinity_v4_ai_brain.CoreSystem.Actions.{with_process}
use trinity_v4_ai_brain.CoreSystem.Processes.Cases.{
  process_create_cases, process_exit_cases, process_wait_cases,
}
use trinity_v4_ai_brain.CoreSystem.Regions.{register}
use trinity_v4_ai_brain.CoreSystem.Messages.{enqueue}
use trinity_v4_ai_brain.CoreSystem.Regions.Cases.{
  memory_allocate_cases, memory_free_cases, memory_map_cases,
}
use trinity_v4_ai_brain.CoreSystem.Messages.Cases.{ipc_send_cases, ipc_receive_cases}
use trinity_v4_ai_brain.CoreSystem.Dispatch.{invoke_syscall}
use trinity_v4_ai_brain.CoreSystem.Dispatch.Kept.{
  KeptByHandlers, KeptByCounts, IsFresh, invoke_syscall-kept,
}
use trinity_v4_ai_brain.CoreSystem.Scheduler.{run_scheduler}
use trinity_v4_ai_brain.CoreSystem.Scheduler.Pass.{run_scheduler-idle, run_scheduler-front, get-ran}
use trinity_v4_ai_brain.CoreSystem.Scheduling.{IsScheduled}
use trinity_v4_ai_brain.CoreSystem.Scheduling.Steps.{
  SameSchedule-IsScheduled, block-IsScheduled, launch-IsScheduled, terminate-IsScheduled,
  wake-IsScheduled, discard-SameSchedule, register-SameSchedule, with_process-SameSchedule,
}

module _ {H : Host} where
  numbered : (s : System H) → IsScheduled s → IsScheduled (record s { next_pid = s.next_pid + 1 })
  numbered s h = record {
    queued = h.queued;
    reasons = h.reasons;
    fresh = λ j le. h.fresh j (omega arith);
    kernel_ids = omega arith;
    unbooted = h.unbooted;
  }

  -- The queue never held an id that is not in the table.
  dequeue-IsScheduled :
      (pid : ℕ) (s : System H)
      → get s.processes pid ≡ none
      → IsScheduled s
      → IsScheduled (record s { ready_queue = remove pid s.ready_queue })
  dequeue-IsScheduled pid s e h = record {
    queued = λ j. simp count-remove (ground (arith, h.queued j));
    reasons = h.reasons;
    fresh = h.fresh;
    kernel_ids = h.kernel_ids;
    unbooted = h.unbooted;
  }

  allocated-IsScheduled :
      (pid : ℕ) (size : ℤ) (r : MemoryRegion H) (s : System H)
      → IsScheduled s
      → IsScheduled (
          with_process pid (λ p. record p { memory_usage = p.memory_usage +ℤ size }) (register r s))
  allocated-IsScheduled pid size r s h =
      SameSchedule-IsScheduled (register r s) _
        (with_process-SameSchedule pid (λ p. record p { memory_usage = p.memory_usage +ℤ size })
          (register r s) (λ p. refl))
        (SameSchedule-IsScheduled s _ (register-SameSchedule r s) h)

  -- A pass of the scheduler keeps the ready queue equal to the set of READY processes.
  pub run_scheduler-IsScheduled :
      (now : H.Float) (s : System H) → IsScheduled s → IsScheduled (run_scheduler now s)
  unfolding count
  run_scheduler-IsScheduled now s h = elim (List-cases s.ready_queue) [
    | inl e ↦ rw (run_scheduler-idle now s e) h
    | inr (pid, rest, e) ↦ elim (Option-cases (get s.processes pid)) [
      | inl missing ↦ absurd (ground (arith, h.queued pid, ap (count pid) e))
      | inr (p, there) ↦ rw (run_scheduler-front now pid p rest s e there) (record {
        queued = λ j. simp (count-append, get-ran) (ground (arith, h.queued j, ap (count j) e));
        reasons = λ j. simp get-ran (ground (arith, h.reasons j, h.queued j, ap (count j) e));
        fresh = λ j le. simp get-ran (ground (arith, h.fresh j le));
        kernel_ids = h.kernel_ids;
        unbooted = λ b j lt. simp get-ran (ground (arith, h.unbooted b j lt));
      })
    ]
  ]

  IsScheduled-KeptByHandlers : KeptByHandlers {H = H} (λ pid s. Unit {0}) IsScheduled
  unfolding register enqueue
  IsScheduled-KeptByHandlers = record {
    creates = λ pid name priority policy env s q h.
        process_create_cases IsScheduled s pid name priority policy env h (numbered s h)
          (λ level rule.
            launch-IsScheduled s.next_pid _ env.created _ refl (h.fresh s.next_pid (omega arith))
              h.kernel_ids (numbered s h));
    exits = λ pid code s q h.
        process_exit_cases IsScheduled s pid code h (λ p e. terminate-IsScheduled pid p code s e h);
    waits = λ pid w s q h.
        process_wait_cases IsScheduled s pid w h (λ e. dequeue-IsScheduled pid s e h)
          (λ p e. block-IsScheduled pid p _ s e h);
    allocates = λ pid size permissions env s new q h.
        memory_allocate_cases IsScheduled s pid size permissions env h
          (λ start access e. allocated-IsScheduled pid size _ s h);
    frees = λ pid rid s q h.
        memory_free_cases IsScheduled s pid rid h
          (λ r e mine. SameSchedule-IsScheduled s _ (discard-SameSchedule pid _ s) h);
    maps = λ pid target address permissions env s new q h.
        memory_map_cases IsScheduled s pid target address permissions env h
          (λ rid t start access. SameSchedule-IsScheduled s _ (register-SameSchedule _ s) h);
    sends = λ pid target subject kind payload timeout env s q h.
        ipc_send_cases IsScheduled s pid target subject kind payload timeout env h (λ to m.
          wake-IsScheduled to _ (record {
            queued = h.queued;
            reasons = h.reasons;
            fresh = h.fresh;
            kernel_ids = h.kernel_ids;
            unbooted = h.unbooted;
          }));
    receives = λ pid wait s q h.
        ipc_receive_cases IsScheduled s pid wait h
          (λ m rest e. (record {
            queued = h.queued;
            reasons = h.reasons;
            fresh = h.fresh;
            kernel_ids = h.kernel_ids;
            unbooted = h.unbooted;
          }))
          (λ p e. block-IsScheduled pid p _ s e h);
  }

  IsScheduled-KeptByCounts : KeptByCounts {H = H} (λ pid s. Unit {0}) IsScheduled
  IsScheduled-KeptByCounts = record {
    callers = λ pid stats s q. q;
    counts = λ stats s h. record {
      queued = h.queued;
      reasons = h.reasons;
      fresh = h.fresh;
      kernel_ids = h.kernel_ids;
      unbooted = h.unbooted;
    };
  }

  -- Every system call that draws a new uuid keeps the ready queue equal to the READY processes
  -- and the blocked table to the BLOCKED ones, whatever its number and arguments, also when its
  -- handler raises.
  pub invoke_syscall-IsScheduled :
      (pid number : ℕ) (k : Kwargs H) (env : Env H) (s : System H)
      → IsFresh env s
      → IsScheduled s
      → IsScheduled (invoke_syscall pid number k env s).1
  invoke_syscall-IsScheduled pid number k env s new =
      invoke_syscall-kept IsScheduled-KeptByHandlers IsScheduled-KeptByCounts env pid number k s new
        tt
