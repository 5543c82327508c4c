-- ===== src/CoreSystem.antt =====
-- The state of the class `CoreSystem` of core_system.py, and its construction.
pub mod Actions
pub mod Regions
pub mod Processes
pub mod Messages
pub mod Scheduler
pub mod Dispatch
pub mod Scheduling
pub mod Accounting
pub mod Boot
pub mod Queries
pub mod Reach
mod Tests
use trinity_v4_ai_brain.Prelude.{ℕ, String, Bool, false, Option, none, some, List, [], ◌∷◌, nat_eq}
use trinity_v4_ai_brain.Host.{Host}
use trinity_v4_ai_brain.Dict
use trinity_v4_ai_brain.Dict.{Dict, put, get}
use trinity_v4_ai_brain.Process.{ProcessInfo, ProcessState}
use trinity_v4_ai_brain.Memory.{MemoryRegion, RegionId}
use trinity_v4_ai_brain.Ipc.{IpcMessage}
use trinity_v4_ai_brain.Syscall.{Syscall, SyscallStats, Handler, SyscallCategory}

-- f"wait:{pid}" and "ipc_receive", the reasons in `blocked_processes`
pub data Reason : Type 0 where
  wait : ℕ → Reason
  ipc_receive : Reason

pub record System (H : Host) : Type 0 where
  pub running : Bool
  pub initialized : Bool
  pub processes : Dict ℕ (ProcessInfo H)
  pub next_pid : ℕ
  pub ready_queue : List ℕ
  pub blocked_processes : Dict ℕ Reason
  pub memory_regions : Dict RegionId (MemoryRegion H)
  pub process_memory : Dict ℕ (List RegionId)
  pub physical_memory_size : ℕ
  pub available_memory : ℕ
  pub syscalls : Dict ℕ Syscall
  pub syscall_stats : Dict ℕ (SyscallStats H)
  pub message_queues : Dict ℕ (List (IpcMessage H))
  -- whether `_scheduler_thread` holds a thread
  pub scheduler_thread : Bool
  -- `_stop_event`
  pub stop_requested : Bool

abbrev entry : ℕ → String → Handler → SyscallCategory → Dict ℕ Syscall → Dict ℕ Syscall
entry n text h c d = put d n (record { number = n; name = text; handler = h; category = c })

-- The table that `_register_syscalls` fills.
unfoldable pub builtin_syscalls : Dict ℕ Syscall
builtin_syscalls = entry 21 "ipc_receive" Handler.ipc_receive SyscallCategory.ipc (
    entry 20 "ipc_send" Handler.ipc_send SyscallCategory.ipc (
      entry 12 "memory_map" Handler.memory_map SyscallCategory.memory (
        entry 11 "memory_free" Handler.memory_free SyscallCategory.memory (
          entry 10 "memory_allocate" Handler.memory_allocate SyscallCategory.memory (
            entry 3 "process_wait" Handler.process_wait SyscallCategory.process (
              entry 2 "process_exit" Handler.process_exit SyscallCategory.process (
                entry 1 "process_create" Handler.process_create SyscallCategory.process
                  Dict.empty)))))))

module _ {H : Host} where
  -- `for num in self.syscalls: self.syscall_stats[num] = {"calls": 0, "errors": 0, …}`
  unfoldable pub reset_stats : List ℕ → Dict ℕ (SyscallStats H) → Dict ℕ (SyscallStats H)
  reset_stats [] d = d
  reset_stats (n ∷ ns) d =
      reset_stats ns (put d n (record { calls = 0; errors = 0; total_time = H.zero_seconds }))

  -- CoreSystem.__init__
  unfoldable pub init : System H
  unfolding reset_stats builtin_syscalls
  init = record {
    running = false;
    initialized = false;
    processes = Dict.empty;
    next_pid = 1000;
    ready_queue = [];
    blocked_processes = Dict.empty;
    memory_regions = Dict.empty;
    process_memory = Dict.empty;
    physical_memory_size = 0;
    available_memory = 0;
    syscalls = builtin_syscalls;
    syscall_stats = reset_stats (Dict.keys builtin_syscalls) Dict.empty;
    message_queues = Dict.empty;
    scheduler_thread = false;
    stop_requested = false;
  }

  abbrev pub status : Option (ProcessInfo H) → Option ProcessState
  status none = none
  status (some p) = some p.state

  -- The state of a process, as the process table has it.
  abbrev pub state_of : System H → ℕ → Option ProcessState
  state_of s pid = status (get s.processes pid)
