-- ===== src/CoreSystem/Tests/Waiting.antt =====
-- The small history goes on: the worker waits for the server, and the server exits. More theorems
-- at these states stand at the end.
use trinity_v4_ai_brain.Prelude.{
  ◌<◌, ◌≡◌, refl, some, count, member, remove, nat_eq, ◌==◌, if◌then◌else◌, indicator, arith,
}
use trinity_v4_ai_brain.Dict.{empty, keys, find, get, write, put, adjust}
use trinity_v4_ai_brain.Memory.{region_id_eq}
use trinity_v4_ai_brain.Process.{ProcessState}
use trinity_v4_ai_brain.Syscall.{Kwargs, all_in, takes_only}
use trinity_v4_ai_brain.CoreSystem.{System, wait, builtin_syscalls, reset_stats, init, state_of}
use trinity_v4_ai_brain.CoreSystem.Actions.{block}
use trinity_v4_ai_brain.CoreSystem.Boot.{boot_from, boot, init_memory, initialize}
use trinity_v4_ai_brain.CoreSystem.Regions.{register, init_process_memory}
use trinity_v4_ai_brain.CoreSystem.Processes.{launch, process_create, process_wait}
use trinity_v4_ai_brain.CoreSystem.Scheduler.{run_scheduler}
use trinity_v4_ai_brain.CoreSystem.Scheduling.{IsScheduled}
use trinity_v4_ai_brain.CoreSystem.Scheduling.Kept.{invoke_syscall-IsScheduled}
use trinity_v4_ai_brain.CoreSystem.Accounting.{IsAccounted}
use trinity_v4_ai_brain.CoreSystem.Accounting.Kept.{invoke_syscall-IsAccounted}
use trinity_v4_ai_brain.CoreSystem.Dispatch.{bind, run_bound, call, tally, finish, invoke_syscall}
use trinity_v4_ai_brain.CoreSystem.Dispatch.Kept.{IsFresh}
use trinity_v4_ai_brain.Prelude.{ℕ, ◌+◌, true, false, ◌==◌, if◌then◌else◌, indicator}
use trinity_v4_ai_brain.Memory.{RegionId}
use trinity_v4_ai_brain.Syscall.{Handler, Syscall, SyscallStats, SyscallCategory, Outcome}
use trinity_v4_ai_brain.CoreSystem.Boot.{not_installed, failed, run_thread, start, stop}
use trinity_v4_ai_brain.CoreSystem.Boot.Lifecycle.{start_stop_start}
use trinity_v4_ai_brain.CoreSystem.Accounting.{owned_by}
use trinity_v4_ai_brain.CoreSystem.Dispatch.Statistics.{
  counted, entered, answer, invoke_syscall_counts,
}
use trinity_v4_ai_brain.CoreSystem.Queries.{get_memory_map}
use trinity_v4_ai_brain.CoreSystem.Queries.Totals.{
  all_states, all_types, get_system_info, get_system_info_totals,
}
use trinity_v4_ai_brain.CoreSystem.Queries.MemoryMap.{
  IsSorted, IsAccurate, ids_of, get_memory_map_complete,
}
use trinity_v4_ai_brain.CoreSystem.Reach.{Reach, here, next, calls, schedules}
use trinity_v4_ai_brain.CoreSystem.Reach.Waiting.{AllOthers, waits_forever}
use trinity_v4_ai_brain.CoreSystem.Tests.{
  test_host, at, no_arguments, with_server, history, sound, server_next, server-IsFresh,
}

-- The worker calls process_wait.
abbrev wait_for_server : Kwargs test_host
wait_for_server = record no_arguments { wait_pid = some 1001 }

abbrev waiting : System test_host
waiting = (invoke_syscall 1000 3 wait_for_server (at 300 3) with_server).1

-- The server exits, and the scheduler makes a pass.
abbrev server_gone : System test_host
server_gone = (invoke_syscall 1001 2 no_arguments (at 400 4) waiting).1

abbrev later : System test_host
later = run_scheduler 500 server_gone

worker_known : 1000 < with_server.next_pid
worker_known = ground (arith, server_next)

waiting_reason : get waiting.blocked_processes 1000 ≡ some (wait 1001)
unfolding init initialize boot_from boot init_memory register empty get find put write keys adjust
    reset_stats builtin_syscalls invoke_syscall tally finish call bind run_bound takes_only all_in
    member process_create launch init_process_memory process_wait block remove
waiting_reason = refl

waiting-IsFresh : IsFresh (at 400 4) waiting
unfolding init initialize boot_from boot init_memory register empty get find put write keys adjust
    reset_stats builtin_syscalls invoke_syscall tally finish call bind run_bound takes_only all_in
    member process_create launch init_process_memory process_wait block remove
waiting-IsFresh = refl

waiting_next : waiting.next_pid ≡ 1002
unfolding init initialize boot_from boot init_memory register empty get find put write keys adjust
    reset_stats builtin_syscalls invoke_syscall tally finish call bind run_bound takes_only all_in
    member process_create launch init_process_memory process_wait block remove
waiting_next = refl

waiting_known : 1001 < waiting.next_pid
waiting_known = ground (arith, waiting_next)

to_waiting : Reach init waiting
to_waiting =
    next history (calls 1000 3 wait_for_server (at 300 3) with_server server-IsFresh worker_known)

abbrev to_later : Reach waiting later
to_later =
    next (next here (calls 1001 2 no_arguments (at 400 4) waiting waiting-IsFresh waiting_known))
      (schedules 500 server_gone)

not_the_worker : AllOthers 1000 to_later
not_the_worker = ((tt, λ e. omega (arith, e)), tt)

waits_forever_example :
    (state_of later 1000 ≡ some ProcessState.blocked) × (count 1000 later.ready_queue ≡ 0)
waits_forever_example =
    waits_forever 1000 1001 waiting later to_waiting waiting_reason to_later not_the_worker

invoke_syscall-IsScheduled_example : IsScheduled waiting
invoke_syscall-IsScheduled_example =
    invoke_syscall-IsScheduled 1000 3 wait_for_server (at 300 3) with_server server-IsFresh
      sound.scheduled

invoke_syscall-IsAccounted_example : IsAccounted waiting
invoke_syscall-IsAccounted_example =
    invoke_syscall-IsAccounted 1000 3 wait_for_server (at 300 3) with_server server-IsFresh
      worker_known sound.accounted

get_memory_map_complete_example :
    IsSorted (get_memory_map (some 1001) with_server)
    × IsAccurate with_server (get_memory_map (some 1001) with_server)
    × ((rid : RegionId)
        → count rid (ids_of (get_memory_map (some 1001) with_server))
          ≡ indicator (owned_by 1001 (get with_server.memory_regions rid)))
get_memory_map_complete_example = get_memory_map_complete with_server sound.accounted 1001

abbrev wait_entry : Syscall
wait_entry = record {
  number = 3;
  name = "process_wait";
  handler = Handler.process_wait;
  category = SyscallCategory.process;
}

abbrev no_calls : SyscallStats test_host
no_calls = record { calls = 0; errors = 0; total_time = 0 }

wait_known : get with_server.syscalls 3 ≡ some wait_entry
unfolding init initialize boot_from boot init_memory register empty get find put write keys adjust
    reset_stats builtin_syscalls invoke_syscall tally finish call bind run_bound takes_only all_in
    member process_create launch init_process_memory
wait_known = refl

wait_uncounted : get with_server.syscall_stats 3 ≡ some no_calls
unfolding init initialize boot_from boot init_memory register empty get find put write keys adjust
    reset_stats builtin_syscalls invoke_syscall tally finish call bind run_bound takes_only all_in
    member process_create launch init_process_memory
wait_uncounted = refl

abbrev wait_outcome : Outcome test_host
wait_outcome =
    (call Handler.process_wait "process_wait" 1000 wait_for_server (at 300 3)
      (counted 3 (at 300 3) with_server)).0

invoke_syscall_counts_example :
    ((invoke_syscall 1000 3 wait_for_server (at 300 3) with_server).0 ≡ answer wait_outcome)
    × ((j : ℕ)
        → get waiting.syscall_stats j ≡ (
            if 3 == j
            then some (entered 3 (at 300 3) wait_outcome no_calls)
            else get with_server.syscall_stats j))
invoke_syscall_counts_example =
    invoke_syscall_counts 3 (at 300 3) 1000 wait_for_server with_server wait_entry no_calls
      server-IsFresh wait_known wait_uncounted

abbrev started : System test_host
started = (start true not_installed (λ i. i) init).1

boots : (start true not_installed (λ i. i) (init {H = test_host})).0 ≡ true
unfolding init start run_thread initialize boot_from boot init_memory register
boots = refl

abbrev stopped : System test_host
stopped = record started { stop_requested = true; scheduler_thread = false; running = false }

start_stop_start_example :
    (started.running ≡ true)
    × (started.initialized ≡ true)
    × (stop started ≡ (true, stopped))
    × (start true failed (λ i. 900 + i) stopped ≡ (
      true,
      record started { stop_requested = false; scheduler_thread = true; running = true },
    ))
start_stop_start_example = start_stop_start not_installed failed (λ i. i) (λ i. 900 + i) init boots

get_system_info_totals_example :
    (all_states (get_system_info 500 with_server).process_states
      ≡ (get_system_info 500 with_server).process_count)
    × (all_types (get_system_info 500 with_server).memory_by_type
        ≡ (get_system_info 500 with_server).memory_used)
get_system_info_totals_example = get_system_info_totals 500 with_server
