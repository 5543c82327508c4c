-- ===== src/CoreSystem/Reach/Waiting.antt =====
-- What becomes of a process that waits for another one.
use trinity_v4_ai_brain.Prelude.{
  ℕ, ℤ, ◌≡◌, ◌≢◌, refl, ap, ◌∙◌, Option, none, some, nat_eq, string_eq, inl, inr, List-cases,
  Option-cases, count, arith,
}
use trinity_v4_ai_brain.Host.{Host}
use trinity_v4_ai_brain.Dict.{get}
use trinity_v4_ai_brain.Dict.Laws.{dict_laws}
use trinity_v4_ai_brain.Process.{ProcessInfo, ProcessState}
use trinity_v4_ai_brain.CoreSystem.{
  System, init, Reason, wait, ipc_receive as waits_for_message, state_of,
}
use trinity_v4_ai_brain.CoreSystem.Actions.{block}
use trinity_v4_ai_brain.CoreSystem.Regions.{init_process_memory, register, discard}
use trinity_v4_ai_brain.CoreSystem.Processes.{launch, terminate}
use trinity_v4_ai_brain.CoreSystem.Processes.Cases.{
  process_create_cases, process_exit_cases, process_wait_cases,
}
use trinity_v4_ai_brain.CoreSystem.Regions.Cases.{
  memory_allocate_cases, memory_free_cases, memory_map_cases,
}
use trinity_v4_ai_brain.CoreSystem.Messages.{enqueue, wake}
use trinity_v4_ai_brain.CoreSystem.Messages.Cases.{ipc_send_cases, ipc_receive_cases}
use trinity_v4_ai_brain.CoreSystem.Dispatch.Kept.{KeptByHandlers, KeptByCounts, invoke_syscall-kept}
use trinity_v4_ai_brain.CoreSystem.Scheduler.{run_scheduler}
use trinity_v4_ai_brain.CoreSystem.Scheduler.Pass.{
  run_scheduler-idle, run_scheduler-missing, run_scheduler-front,
}
use trinity_v4_ai_brain.CoreSystem.Scheduling.Steps.{free_process_memory-SameSchedule}
use trinity_v4_ai_brain.CoreSystem.Boot.{Probe, boot, initialize, init_memory}
use trinity_v4_ai_brain.CoreSystem.Boot.Cases.{initialize_cases, start_cases, stop_cases}
use trinity_v4_ai_brain.CoreSystem.Reach.{
  Step, Reach, calls, schedules, initializes, starts, stops, here, next,
}
use trinity_v4_ai_brain.CoreSystem.Reach.Invariant.{Reach-IsSound, reach-IsSound}

module _ {H : Host} (waiter : ℕ) where
  -- The step is no call of the waiting process.
  abbrev IsOthers : {s t : System H} → Step s t → Type 0
  IsOthers (calls pid number k env s new lt) = waiter ≢ pid
  IsOthers _ = Unit {0}

  -- The waiting process makes no call in the history.
  abbrev pub AllOthers : {s t : System H} → Reach s t → Type 0
  AllOthers here = Unit {0}
  AllOthers (next r st) = AllOthers r × IsOthers st

module _ {H : Host} (waiter awaited : ℕ) where
  -- The entry of the blocked table.
  Waits : System H → Type 0
  Waits s = get s.blocked_processes waiter ≡ some (wait awaited)

  launch-Waits :
      (pid : ℕ) (p : ProcessInfo H) (now : ℕ → H.Float) (s : System H)
      → Waits s
      → Waits (launch pid p now s)
  unfolding Waits launch init_process_memory
  launch-Waits pid p now s w = w

  terminate-Waits :
      (pid : ℕ) (p : ProcessInfo H) (code : ℤ) (s : System H)
      → waiter ≢ pid
      → Waits s
      → Waits (terminate pid p code s)
  unfolding Waits terminate
  terminate-Waits pid p code s other w =
      ap (λ d. get d waiter) (free_process_memory-SameSchedule pid _).reasons
      ∙ simp dict_laws (ground (arith, w))

  block-Waits :
      (pid : ℕ) (p : ProcessInfo H) (r : Reason) (s : System H)
      → waiter ≢ pid
      → Waits s
      → Waits (block pid p r s)
  unfolding Waits block
  block-Waits pid p r s other w = simp dict_laws (ground (arith, w))

  wake-Waits : (pid : ℕ) (s : System H) → Waits s → Waits (wake pid s)
  unfolding Waits wake
  wake-Waits pid s w = go (get s.blocked_processes pid) refl
    where
      go : (o : Option Reason) → get s.blocked_processes pid ≡ o → Waits (wake pid s)
      go none e = rw (e, wake) w
      go (some (wait x)) e = rw (e, wake) w
      go (some waits_for_message) e = rw (e, wake) (simp dict_laws (ground (arith, e, w)))

  Waits-KeptByHandlers : KeptByHandlers {H = H} (λ pid s. waiter ≢ pid) Waits
  unfolding Waits register discard enqueue
  Waits-KeptByHandlers = record {
    creates = λ pid name priority policy env s q w.
        process_create_cases Waits s pid name priority policy env w w
          (λ level rule. launch-Waits _ _ _ _ w);
    exits = λ pid code s q w.
        process_exit_cases Waits s pid code w (λ p e. terminate-Waits pid p code s q w);
    waits = λ pid x s q w.
        process_wait_cases Waits s pid x w (λ e. w) (λ p e. block-Waits pid p _ s q w);
    allocates = λ pid size permissions env s new q w.
        memory_allocate_cases Waits s pid size permissions env w (λ start access e. w);
    frees = λ pid rid s q w. memory_free_cases Waits s pid rid w (λ r e mine. w);
    maps = λ pid target address permissions env s new q w.
        memory_map_cases Waits s pid target address permissions env w (λ rid t start access. w);
    sends = λ pid target subject kind payload timeout env s q w.
        ipc_send_cases Waits s pid target subject kind payload timeout env w
          (λ to m. wake-Waits to _ w);
    receives = λ pid b s q w.
        ipc_receive_cases Waits s pid b w (λ m rest e. w) (λ p e. block-Waits pid p _ s q w);
  }

  Waits-KeptByCounts : KeptByCounts {H = H} (λ pid s. waiter ≢ pid) Waits
  unfolding Waits
  Waits-KeptByCounts = record { callers = λ pid stats s q. q; counts = λ stats s w. w }

  initialize-Waits :
      (probe : Probe) (now : ℕ → H.Float) (s : System H)
      → Waits s
      → Waits (initialize probe now s).1
  unfolding Waits boot init_memory register
  initialize-Waits probe now s w = initialize_cases Waits probe now s w (λ b total available. w)

  run_scheduler-Waits : (now : H.Float) (s : System H) → Waits s → Waits (run_scheduler now s)
  unfolding Waits
  run_scheduler-Waits now s w = elim (List-cases s.ready_queue) [
    | inl e ↦ rw (run_scheduler-idle now s e) w
    | inr (pid, rest, e) ↦ elim (Option-cases (get s.processes pid)) [
      | inl missing ↦ rw (run_scheduler-missing now s pid rest e missing) w
      | inr (p, there) ↦ rw (run_scheduler-front now pid p rest s e there) w
    ]
  ]

  Step-Waits : {s t : System H} (st : Step s t) → IsOthers waiter st → Waits s → Waits t
  unfolding Waits
  Step-Waits (calls pid number k env s new lt) other w =
      invoke_syscall-kept Waits-KeptByHandlers Waits-KeptByCounts env pid number k s new other w
  Step-Waits (schedules now s) _ w = run_scheduler-Waits now s w
  Step-Waits (initializes probe now s) _ w = initialize-Waits probe now s w
  Step-Waits (starts begun probe now s) _ w =
      start_cases Waits begun probe now s (initialize-Waits probe now s w) (λ t b c d v. v)
  Step-Waits (stops s) _ w = stop_cases Waits s w (λ t b c d v. v)

  reach-Waits : {s t : System H} (r : Reach s t) → AllOthers waiter r → Waits s → Waits t
  reach-Waits here _ w = w
  reach-Waits (next r st) (os, o) w = Step-Waits st o (reach-Waits r os w)

  -- A process that is blocked in process_wait, in a state that a new system reaches, stays
  -- BLOCKED and out of the ready queue in every later history in which it makes no call itself,
  -- also when the process that it waits for exits.
  pub waits_forever :
      (s t : System H)
      → Reach init s
      → get s.blocked_processes waiter ≡ some (wait awaited)
      → (r : Reach s t) → AllOthers waiter r
      → (state_of t waiter ≡ some ProcessState.blocked) × (count waiter t.ready_queue ≡ 0)
  unfolding Waits
  waits_forever s t past w r others =
      let sound = Reach-IsSound (reach-IsSound s past) r in
      let stays = reach-Waits r others w in
      (
        ground (arith, sound.scheduled.reasons waiter, stays),
        ground (arith, sound.scheduled.reasons waiter, sound.scheduled.queued waiter, stays),
      )
