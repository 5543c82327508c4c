-- ===== src/CoreSystem/Reach/Invariant.antt =====
-- The invariants hold in every state that a new system can reach.
use trinity_v4_ai_brain.Prelude.{
  ℕ, ◌≡◌, refl, Bool, false, nat_eq, string_eq, count, count-append, [], ◌∷◌, ◌++◌, arith,
}
use trinity_v4_ai_brain.Host.{Host}
use trinity_v4_ai_brain.Dict.Laws.{dict_laws}
use trinity_v4_ai_brain.Memory.{RegionId, region_id_eq, region_id_beq_iff}
use trinity_v4_ai_brain.CoreSystem.{System, init}
use trinity_v4_ai_brain.CoreSystem.Regions.{register}
use trinity_v4_ai_brain.CoreSystem.Boot.{Probe, init_memory, boot, initialize}
use trinity_v4_ai_brain.CoreSystem.Boot.Cases.{initialize_cases, start_cases, stop_cases}
use trinity_v4_ai_brain.CoreSystem.Scheduling.{IsScheduled}
use trinity_v4_ai_brain.CoreSystem.Scheduling.Kept.{
  run_scheduler-IsScheduled, invoke_syscall-IsScheduled,
}
use trinity_v4_ai_brain.CoreSystem.Accounting.{IsAccounted, holdings}
use trinity_v4_ai_brain.CoreSystem.Accounting.Steps.{HasId-put}
use trinity_v4_ai_brain.CoreSystem.Accounting.Kept.{
  SameMemory-IsAccounted, run_scheduler-IsAccounted, invoke_syscall-IsAccounted,
}
use trinity_v4_ai_brain.CoreSystem.Reach.{
  Step, Reach, calls, schedules, initializes, starts, stops, here, next,
}

ruleset boot_laws = (dict_laws, count-append)

pub record IsSound {H : Host} (s : System H) : Type 0 where
  pub scheduled : IsScheduled s
  pub accounted : IsAccounted s

module _ {H : Host} where
  init-IsScheduled : IsScheduled (init {H = H})
  unfolding init count
  init-IsScheduled = record {
    queued = λ j. simp dict_laws;
    reasons = λ j. simp dict_laws;
    fresh = λ j le. simp dict_laws;
    kernel_ids = omega arith;
    unbooted = λ b j lt. simp dict_laws;
  }

  init-IsAccounted : IsAccounted (init {H = H})
  unfolding init count
  init-IsAccounted = record {
    held = λ pid rid. simp dict_laws;
    ids = λ rid. simp dict_laws tt;
    future = λ pid rid le. simp dict_laws;
    no_code = λ pid le. simp dict_laws;
    no_data = λ pid le. simp dict_laws;
    no_stack = λ pid le. simp dict_laws;
    no_kernel = λ b. simp dict_laws;
    no_shared = λ b. simp dict_laws;
  }

  boot-IsScheduled :
      (total available : ℕ) (now : ℕ → H.Float) (s : System H)
      → s.initialized ≡ false
      → IsScheduled s
      → IsScheduled (boot total available now s)
  unfolding boot init_memory register count
  boot-IsScheduled total available now s b h = record {
    queued = λ j.
        simp boot_laws
          (ground (arith, h.queued j, h.unbooted b 0 (omega arith), h.unbooted b 1 (omega arith)));
    reasons = λ j.
        simp boot_laws
          (ground (arith, h.reasons j, h.unbooted b 0 (omega arith), h.unbooted b 1 (omega arith)));
    fresh = λ j le. simp boot_laws (ground (arith, h.fresh j le, h.kernel_ids));
    kernel_ids = h.kernel_ids;
    unbooted = λ b' j lt. cc;
  }

  boot-IsAccounted :
      (total available : ℕ) (now : ℕ → H.Float) (s : System H)
      → s.initialized ≡ false
      → IsScheduled s
      → IsAccounted s
      → IsAccounted (boot total available now s)
  unfolding boot init_memory register count
  boot-IsAccounted total available now s b g h = record {
    held = λ pid rid. simp boot_laws (
        ground (
          arith,
          h.held 0 rid,
          h.held pid rid,
          h.no_kernel b,
          h.no_shared b,
          region_id_beq_iff RegionId.kernel_main rid,
          region_id_beq_iff RegionId.system_shared rid,
          count-append rid (holdings s 0) (RegionId.kernel_main ∷ []),
          count-append rid (holdings s 0 ++ RegionId.kernel_main ∷ [])
              (RegionId.system_shared ∷ []),
        ));
    ids = λ rid. HasId-put _ _ rid (HasId-put _ _ rid (h.ids rid));
    future = λ pid rid le. simp boot_laws (ground (arith, h.future pid rid le, g.kernel_ids));
    no_code = λ pid le. simp boot_laws (ground (arith, h.no_code pid le));
    no_data = λ pid le. simp boot_laws (ground (arith, h.no_data pid le));
    no_stack = λ pid le. simp boot_laws (ground (arith, h.no_stack pid le));
    no_kernel = λ b'. cc;
    no_shared = λ b'. cc;
  }

  initialize-IsSound :
      (probe : Probe) (now : ℕ → H.Float) (s : System H)
      → IsSound s
      → IsSound (initialize probe now s).1
  initialize-IsSound probe now s h = initialize_cases IsSound probe now s h λ b total available.
      record {
        scheduled = boot-IsScheduled total available now s b h.scheduled;
        accounted = boot-IsAccounted total available now s b h.scheduled h.accounted;
      }

  flags-IsSound :
      (s : System H) (b c d : Bool)
      → IsSound s
      → IsSound (record s { stop_requested = b; scheduler_thread = c; running = d })
  flags-IsSound s b c d h = record {
    scheduled = record {
      queued = h.scheduled.queued;
      reasons = h.scheduled.reasons;
      fresh = h.scheduled.fresh;
      kernel_ids = h.scheduled.kernel_ids;
      unbooted = h.scheduled.unbooted;
    };
    accounted =
        SameMemory-IsAccounted s _
          (record { regions = refl; lists = refl; next = refl; booted = refl }) h.accounted;
  }

  pub Step-IsSound : {s t : System H} → Step s t → IsSound s → IsSound t
  Step-IsSound (calls pid number k env s new lt) h = record {
    scheduled = invoke_syscall-IsScheduled pid number k env s new h.scheduled;
    accounted = invoke_syscall-IsAccounted pid number k env s new lt h.accounted;
  }
  Step-IsSound (schedules now s) h = record {
    scheduled = run_scheduler-IsScheduled now s h.scheduled;
    accounted = run_scheduler-IsAccounted now s h.accounted;
  }
  Step-IsSound (initializes probe now s) h = initialize-IsSound probe now s h
  Step-IsSound (starts begun probe now s) h =
      start_cases IsSound begun probe now s (initialize-IsSound probe now s h) flags-IsSound
  Step-IsSound (stops s) h = stop_cases IsSound s h flags-IsSound

  pub Reach-IsSound : {s t : System H} → IsSound s → Reach s t → IsSound t
  Reach-IsSound h here = h
  Reach-IsSound h (next r st) = Step-IsSound st (Reach-IsSound h r)

  -- In every state that a new CoreSystem reaches by system calls (drawing new uuids, by callers
  -- whose ids have been given out), scheduler passes, initialize, start and stop in any order,
  -- the ready queue holds each READY process once and nothing else, the blocked table holds
  -- exactly the BLOCKED processes, and each process is listed with exactly the regions that it
  -- owns.
  pub reach-IsSound : (t : System H) → Reach init t → IsSound t
  reach-IsSound t r =
      Reach-IsSound (record { scheduled = init-IsScheduled; accounted = init-IsAccounted }) r
