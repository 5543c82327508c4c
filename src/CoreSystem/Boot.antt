-- ===== src/CoreSystem/Boot.antt =====
-- `initialize`, `start`, `stop`, `_detect_capabilities` and `_init_memory`.
pub mod Cases
pub mod Lifecycle
use trinity_v4_ai_brain.Prelude.{
  ℕ, ◌*◌, ◌/◌, Bool, true, false, [], ◌∷◌, ◌++◌, nat_eq, if◌then◌else◌,
}
use trinity_v4_ai_brain.Host.{Host}
use trinity_v4_ai_brain.Dict.{put}
use trinity_v4_ai_brain.Process.{ProcessState, ProcessPriority, SchedulingPolicy, new_process}
use trinity_v4_ai_brain.Memory.{MemoryType, MemoryPermission, RegionId, new_region}
use trinity_v4_ai_brain.CoreSystem.{System}
use trinity_v4_ai_brain.CoreSystem.Regions.{register}

-- What `psutil` answers: its figures, that it is not installed, or another exception.
pub data Probe : Type 0 where
  found : ℕ → ℕ → Probe
  not_installed : Probe
  failed : Probe

module _ {H : Host} where
  -- self._init_memory(), with the clock at the two regions
  unfoldable pub init_memory : H.Float → H.Float → System H → System H
  init_memory kernel_time shared_time s =
      register
        (new_region RegionId.system_shared 0x10000000 (32 * 1024 * 1024) 0 MemoryType.shared
          MemoryPermission.read_write "" shared_time)
        (register
          (new_region RegionId.kernel_main 0x1000 (64 * 1024 * 1024) 0 MemoryType.locked
            MemoryPermission.read_write_execute "" kernel_time)
          s)

  -- The `try` block of `initialize` after `_detect_capabilities`; the clock is read four times.
  unfoldable pub boot : ℕ → ℕ → (ℕ → H.Float) → System H → System H
  boot total available now s =
      let filled = init_memory (now 2) (now 3) (record s {
        physical_memory_size = total;
        available_memory = available;
        processes =
            put
              (put s.processes 0 (
                new_process 0 0 "kernel" ProcessState.running ProcessPriority.system
                  SchedulingPolicy.fifo (now 0)))
              1
              (new_process 1 0 "init" ProcessState.ready ProcessPriority.system
                SchedulingPolicy.fifo (now 1));
        ready_queue = s.ready_queue ++ 1 ∷ [];
      }) in
      record filled { initialized = true }

  unfoldable pub boot_from : Probe → (ℕ → H.Float) → System H → Bool × System H
  boot_from (found total available) now s = (true, boot total available now s)
  boot_from not_installed now s = (true, boot (1024 * 1024 * 1024) (1024 * 1024 * 1024 / 2) now s)
  boot_from failed now s = (false, s)

  unfoldable pub initialize : Probe → (ℕ → H.Float) → System H → Bool × System H
  unfolding boot_from
  initialize probe now s = if s.initialized then (true, s) else boot_from probe now s

  -- `begun` says whether the scheduler's thread could be started.
  unfoldable pub run_thread : Bool → Bool × System H → Bool × System H
  run_thread begun (false, s) = (false, s)
  run_thread begun (true, s) =
      if s.running
      then (true, s)
      else (begun, record s { stop_requested = false; scheduler_thread = true; running = begun })

  unfoldable pub start : Bool → Probe → (ℕ → H.Float) → System H → Bool × System H
  unfolding run_thread
  start begun probe now s = run_thread begun (initialize probe now s)

  -- `join` returns after three seconds at most, and the thread is let go either way.
  unfoldable pub stop : System H → Bool × System H
  stop s =
      if s.running
      then (true, record s { stop_requested = true; scheduler_thread = false; running = false })
      else (true, s)
