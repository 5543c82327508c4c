-- ===== src/CoreSystem/Tests.antt =====
-- A small history of a system, run at concrete values, and the theorems at its states.
mod Witnesses
mod Ranks
mod Waiting
use trinity_v4_ai_brain.Prelude.{
  ℕ, ◌+◌, ◌-◌, ◌/◌, ℤ, pos, String, ◌≡◌, refl, Bool, true, false, Option, none, some, List, [], ◌∷◌,
  member, remove, count, nat_eq, arith,
}
use trinity_v4_ai_brain.Host.{Host, Env}
use trinity_v4_ai_brain.Dict.{empty, keys, find, get, write, put, without, delete, adjust, contains}
use trinity_v4_ai_brain.Process.{
  ProcessInfo, ProcessState, ProcessPriority, SchedulingPolicy, new_process,
}
use trinity_v4_ai_brain.Memory.{
  MemoryRegion, MemoryType, MemoryPermission, RegionId, new_region, region_id_eq,
}
use trinity_v4_ai_brain.CoreSystem.Messages.{inbox}
use trinity_v4_ai_brain.Syscall.{Kwargs, all_in, takes_only}
use trinity_v4_ai_brain.CoreSystem.{System, builtin_syscalls, reset_stats, init}
use trinity_v4_ai_brain.CoreSystem.Boot.{Probe, found, boot_from, boot, init_memory, initialize}
use trinity_v4_ai_brain.CoreSystem.Regions.{
  register, init_process_memory, free_process_memory, delete_all,
}
use trinity_v4_ai_brain.CoreSystem.Processes.{launch, process_create, process_exit, terminate}
use trinity_v4_ai_brain.CoreSystem.Dispatch.{bind, run_bound, call, tally, finish, invoke_syscall}
use trinity_v4_ai_brain.CoreSystem.Dispatch.Kept.{IsFresh}
use trinity_v4_ai_brain.CoreSystem.Reach.{Step, Reach, here, next, initializes, calls}
use trinity_v4_ai_brain.CoreSystem.Reach.Invariant.{IsSound, reach-IsSound}

-- Times are numbers of microseconds, and payloads are texts.
abbrev pub test_host : Host
test_host = record {
  Float = ℕ;
  zero_seconds = 0;
  default_time_slice = 10000;
  default_weight = 1000000;
  add = λ a b. a + b;
  sub = λ a b. a - b;
  div = λ a n. a / n;
  Any = String;
  nothing = "None";
  decimal = λ n. "a number";
  str = λ e. "an exception";
}

abbrev pub at : ℕ → ℕ → Env test_host
at now n = record { started = now; finished = now + 3; created = λ i. now + i; uuid = n }

abbrev pub no_arguments : Kwargs test_host
no_arguments = record {
  name = none;
  priority = none;
  policy = none;
  exit_code = none;
  wait_pid = none;
  size = none;
  permissions = none;
  region_id = none;
  target_id = none;
  local_address = none;
  subject = none;
  message_type = none;
  payload = none;
  timeout = none;
  wait = none;
  others = [];
}

abbrev booted : System test_host
booted = (initialize (found 4096 2048) (λ i. i) init).1

-- The process 1000, a child of `init`, which is process 1.
abbrev create_worker : Kwargs test_host
create_worker = record no_arguments { name = some "worker"; policy = some (pos 2) }

abbrev with_worker : System test_host
with_worker = (invoke_syscall 1 1 create_worker (at 100 1) booted).1

abbrev create_server : Kwargs test_host
create_server = record no_arguments {
  name = some "server";
  priority = some (pos 30);
  policy = some (pos 1);
}

-- The process 1001.
abbrev pub with_server : System test_host
with_server = (invoke_syscall 1 1 create_server (at 200 2) with_worker).1

-- The history of these states, and what their tables show.
boot-IsFresh : IsFresh (at 100 1) booted
unfolding init initialize boot_from boot init_memory register empty get find put write
boot-IsFresh = refl

boot_next : booted.next_pid ≡ 1000
unfolding init initialize boot_from boot init_memory register
boot_next = refl

worker-IsFresh : IsFresh (at 200 2) with_worker
unfolding init initialize boot_from boot init_memory register empty get find put write keys adjust
    reset_stats builtin_syscalls invoke_syscall tally finish call bind run_bound takes_only all_in
    member process_create launch init_process_memory
worker-IsFresh = refl

worker_next : with_worker.next_pid ≡ 1001
unfolding init initialize boot_from boot init_memory register empty get find put write keys adjust
    reset_stats builtin_syscalls invoke_syscall tally finish call bind run_bound takes_only all_in
    member process_create launch init_process_memory
worker_next = refl

pub server_next : with_server.next_pid ≡ 1002
unfolding init initialize boot_from boot init_memory register empty get find put write keys adjust
    reset_stats builtin_syscalls invoke_syscall tally finish call bind run_bound takes_only all_in
    member process_create launch init_process_memory
server_next = refl

pub server_queue : with_server.ready_queue ≡ 1 ∷ 1000 ∷ 1001 ∷ []
unfolding init initialize boot_from boot init_memory register empty get find put write keys adjust
    reset_stats builtin_syscalls invoke_syscall tally finish call bind run_bound takes_only all_in
    member process_create launch init_process_memory
server_queue = refl

pub history : Reach init with_server
history =
    next
      (next (next here (initializes (found 4096 2048) (λ i. i) init))
        (calls 1 1 create_worker (at 100 1) booted boot-IsFresh (ground (arith, boot_next))))
      (calls 1 1 create_server (at 200 2) with_worker worker-IsFresh (ground (arith, worker_next)))

pub sound : IsSound with_server
sound = reach-IsSound with_server history

-- The first process as the table has it, and the code segment of the second.
abbrev pub worker : ProcessInfo test_host
worker =
    record (new_process 1000 1 "worker" ProcessState.ready ProcessPriority.normal
      SchedulingPolicy.fifo 100) { memory_usage = pos 7340032 }

abbrev pub server_code : MemoryRegion test_host
server_code =
    new_region (RegionId.code_segment 1001) 0x20000000 1048576 1001 MemoryType.normal
      MemoryPermission.read_execute "code" 201

pub worker_there : get with_server.processes 1000 ≡ some worker
unfolding init initialize boot_from boot init_memory register empty get find put write keys adjust
    reset_stats builtin_syscalls invoke_syscall tally finish call bind run_bound takes_only all_in
    member process_create launch init_process_memory
worker_there = refl

pub server_there : contains with_server.processes 1001 ≡ true
unfolding init initialize boot_from boot init_memory register empty get find put write keys adjust
    reset_stats builtin_syscalls invoke_syscall tally finish call bind run_bound takes_only all_in
    member process_create launch init_process_memory
server_there = refl

pub server_code_there :
    get with_server.memory_regions (RegionId.code_segment 1001) ≡ some server_code
unfolding init initialize boot_from boot init_memory register empty get find put write keys adjust
    reset_stats builtin_syscalls invoke_syscall tally finish call bind run_bound takes_only all_in
    member process_create launch init_process_memory
server_code_there = refl

pub server-IsFresh : IsFresh (at 300 3) with_server
unfolding init initialize boot_from boot init_memory register empty get find put write keys adjust
    reset_stats builtin_syscalls invoke_syscall tally finish call bind run_bound takes_only all_in
    member process_create launch init_process_memory
server-IsFresh = refl

pub no_messages : inbox with_server 1000 ≡ []
unfolding init initialize boot_from boot init_memory register empty get find put write keys adjust
    reset_stats builtin_syscalls invoke_syscall tally finish call bind run_bound takes_only all_in
    member process_create launch init_process_memory
no_messages = refl

abbrev pub after_exit : System test_host
after_exit = (process_exit 1000 (pos 7) with_server).1

pub after_exit-knows : contains after_exit.processes 1001 ≡ true
unfolding init initialize boot_from boot init_memory register empty get find put write keys adjust
    reset_stats builtin_syscalls invoke_syscall tally finish call bind run_bound takes_only all_in
    member process_create launch init_process_memory process_exit terminate free_process_memory
    delete without remove
after_exit-knows = refl
