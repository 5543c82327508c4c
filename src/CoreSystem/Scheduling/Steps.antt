-- ===== src/CoreSystem/Scheduling/Steps.antt =====
-- The steps of the handlers and of the scheduler keep the schedule consistent.
use trinity_v4_ai_brain.Prelude.{
  ℕ, ◌+◌, ◌≤◌, ℤ, ◌≡◌, refl, Option, none, some, [], ◌∷◌, ◌++◌, inl, inr, nat_eq, string_eq, count,
  remove, count-remove, count-append, Option-cases, arith,
}
use trinity_v4_ai_brain.Host.{Host}
use trinity_v4_ai_brain.Dict.{get, put, delete}
use trinity_v4_ai_brain.Dict.Laws.{dict_laws}
use trinity_v4_ai_brain.Process.{ProcessInfo, ProcessState}
use trinity_v4_ai_brain.Memory.{MemoryRegion}
use trinity_v4_ai_brain.CoreSystem.{System, Reason, wait, ipc_receive, state_of}
use trinity_v4_ai_brain.CoreSystem.Actions.{block, with_process}
use trinity_v4_ai_brain.CoreSystem.Regions.{
  init_process_memory, free_process_memory, register, discard,
}
use trinity_v4_ai_brain.CoreSystem.Processes.{launch, terminate}
use trinity_v4_ai_brain.CoreSystem.Messages.{wake}
use trinity_v4_ai_brain.CoreSystem.Scheduling.{IsScheduled}

ruleset table_laws = (dict_laws, count-remove, count-append)

-- What the scheduler sees of the system is the same.
pub record SameSchedule {H : Host} (s t : System H) : Type 0 where
  pub states : (pid : ℕ) → state_of t pid ≡ state_of s pid
  pub queue : t.ready_queue ≡ s.ready_queue
  pub reasons : t.blocked_processes ≡ s.blocked_processes
  pub next : t.next_pid ≡ s.next_pid
  pub booted : t.initialized ≡ s.initialized

module _ {H : Host} where
  pub SameSchedule-IsScheduled : (s t : System H) → SameSchedule s t → IsScheduled s → IsScheduled t
  SameSchedule-IsScheduled s t e h = record {
    queued = λ j. rw (e.queue, e.states j) (h.queued j);
    reasons = λ j. rw (e.reasons, e.states j) (h.reasons j);
    fresh = λ j le. rw (e.states j) (h.fresh j (rw e.next at le));
    kernel_ids = rw e.next h.kernel_ids;
    unbooted = λ b j lt. rw (e.states j) (h.unbooted (rw e.booted at b) j lt);
  }

  -- Changing a process and keeping its state is no change of the schedule.
  pub with_process-SameSchedule :
      (pid : ℕ) (f : ProcessInfo H → ProcessInfo H) (s : System H)
      → ((p : ProcessInfo H) → (f p).state ≡ p.state)
      → SameSchedule s (with_process pid f s)
  with_process-SameSchedule pid f s same = record {
    states = λ j. simp dict_laws (grind (arith, same));
    queue = refl;
    reasons = refl;
    next = refl;
    booted = refl;
  }

  pub block-IsScheduled :
      (pid : ℕ) (p : ProcessInfo H) (r : Reason) (s : System H)
      → get s.processes pid ≡ some p
      → IsScheduled s
      → IsScheduled (block pid p r s)
  unfolding block
  block-IsScheduled pid p r s e h = record {
    queued = λ j. simp table_laws (ground (arith, h.queued j));
    reasons = λ j. simp table_laws (ground (arith, h.reasons j));
    fresh = λ j over. simp table_laws (ground (arith, h.fresh j over));
    kernel_ids = h.kernel_ids;
    unbooted = λ b j lt. simp table_laws (ground (arith, h.unbooted b j lt));
  }

  init_process_memory-SameSchedule :
      (pid : ℕ) (now : ℕ → H.Float) (s : System H) → SameSchedule s (init_process_memory pid now s)
  unfolding init_process_memory
  init_process_memory-SameSchedule pid now s = record {
    states = (with_process-SameSchedule pid _ s (λ p. refl)).states;
    queue = refl;
    reasons = refl;
    next = refl;
    booted = refl;
  }

  pub free_process_memory-SameSchedule :
      (pid : ℕ) (s : System H) → SameSchedule s (free_process_memory pid s)
  unfolding free_process_memory
  free_process_memory-SameSchedule pid s = elim (Option-cases (get s.process_memory pid)) [
    | inl e ↦
        rw (e, free_process_memory)
          (record { states = λ j. refl; queue = refl; reasons = refl; next = refl; booted = refl })
    | inr (rids, e) ↦
        rw (e, free_process_memory)
          (record {
            states = (with_process-SameSchedule pid _ s (λ p. refl)).states;
            queue = refl;
            reasons = refl;
            next = refl;
            booted = refl;
          })
  ]

  -- A new process enters the table READY, at the end of the queue.
  pub launch-IsScheduled :
      (pid : ℕ) (p : ProcessInfo H) (now : ℕ → H.Float) (s : System H)
      → s.next_pid ≡ pid + 1
      → state_of s pid ≡ none
      → 1000 ≤ pid
      → IsScheduled s
      → IsScheduled (launch pid p now s)
  unfolding launch count
  launch-IsScheduled pid p now s e new le h =
      SameSchedule-IsScheduled _ _
        (record {
          states = (init_process_memory-SameSchedule pid now _).states;
          queue = (init_process_memory-SameSchedule pid now _).queue;
          reasons = (init_process_memory-SameSchedule pid now _).reasons;
          next = (init_process_memory-SameSchedule pid now _).next;
          booted = (init_process_memory-SameSchedule pid now _).booted;
        })
        entered
    where
      entered : IsScheduled (record s {
        processes = put s.processes pid (record p { state = ProcessState.ready });
        ready_queue = s.ready_queue ++ pid ∷ [];
      })
      entered = record {
        queued = λ j. simp table_laws (ground (arith, h.queued j));
        reasons = λ j. simp table_laws (ground (arith, h.reasons j));
        fresh = λ j over. simp table_laws (ground (arith, h.fresh j over));
        kernel_ids = h.kernel_ids;
        unbooted = λ b j lt. simp table_laws (ground (arith, h.unbooted b j lt));
      }

  pub terminate-IsScheduled :
      (pid : ℕ) (p : ProcessInfo H) (code : ℤ) (s : System H)
      → get s.processes pid ≡ some p
      → IsScheduled s
      → IsScheduled (terminate pid p code s)
  unfolding terminate
  terminate-IsScheduled pid p code s e h =
      SameSchedule-IsScheduled _ _
        (record {
          states = (free_process_memory-SameSchedule pid _).states;
          queue = (free_process_memory-SameSchedule pid _).queue;
          reasons = (free_process_memory-SameSchedule pid _).reasons;
          next = (free_process_memory-SameSchedule pid _).next;
          booted = (free_process_memory-SameSchedule pid _).booted;
        })
        ended
    where
      ended : IsScheduled (record s {
        processes = put s.processes pid (record p {
          state = ProcessState.terminated;
          metadata = put p.metadata "exit_code" code;
        });
        ready_queue = remove pid s.ready_queue;
        blocked_processes = delete s.blocked_processes pid;
      })
      ended = record {
        queued = λ j. simp table_laws (ground (arith, h.queued j));
        reasons = λ j. simp table_laws (ground (arith, h.reasons j));
        fresh = λ j over. simp table_laws (ground (arith, h.fresh j over));
        kernel_ids = h.kernel_ids;
        unbooted = λ b j lt. simp table_laws (ground (arith, h.unbooted b j lt));
      }

  pub discard-SameSchedule :
      (pid : ℕ) (r : MemoryRegion H) (s : System H) → SameSchedule s (discard pid r s)
  unfolding discard
  discard-SameSchedule pid r s = record {
    states = (with_process-SameSchedule pid _ s (λ p. refl)).states;
    queue = refl;
    reasons = refl;
    next = refl;
    booted = refl;
  }

  pub register-SameSchedule : (r : MemoryRegion H) (s : System H) → SameSchedule s (register r s)
  unfolding register
  register-SameSchedule r s = record {
    states = λ j. refl;
    queue = refl;
    reasons = refl;
    next = refl;
    booted = refl;
  }

  pub wake-IsScheduled : (pid : ℕ) (s : System H) → IsScheduled s → IsScheduled (wake pid s)
  unfolding wake count
  wake-IsScheduled pid s h = go (get s.blocked_processes pid) refl
    where
      go : (o : Option Reason) → get s.blocked_processes pid ≡ o → IsScheduled (wake pid s)
      go none e = rw (e, wake) h
      go (some (wait w)) e = rw (e, wake) h
      go (some ipc_receive) e =
          rw (e, wake)
            (record {
              queued = λ j. simp table_laws (ground (arith, h.queued j, h.reasons j));
              reasons = λ j. simp table_laws (ground (arith, h.reasons j));
              fresh = λ j over. simp table_laws (ground (arith, h.fresh j over));
              kernel_ids = h.kernel_ids;
              unbooted = λ b j lt. simp table_laws (ground (arith, h.unbooted b j lt));
            })
