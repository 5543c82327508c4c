-- ===== src/CoreSystem/Tests/Witnesses.antt =====
-- Each theorem with hypotheses, at the states of the small history.
use mathlib.Core.Option
use trinity_v4_ai_brain.Prelude.{
  ℕ, ◌+◌, ◌≤◌, ◌<◌, pos, ◌-ℤ◌, ◌≡◌, ◌≢◌, refl, true, none, some, List, [], ◌∷◌, ◌++◌, map, length,
  remove, count, nat_eq, string_eq, arith,
}
use trinity_v4_ai_brain.Host.{value_error}
use trinity_v4_ai_brain.Dict.{get, contains, keys}
use trinity_v4_ai_brain.Process.{
  ProcessInfo, ProcessState, ProcessPriority, SchedulingPolicy, last_policy,
}
use trinity_v4_ai_brain.Memory.{MemoryPermission, RegionId, region_id_eq}
use trinity_v4_ai_brain.Ipc.{IpcMessage, IpcMessageType}
use trinity_v4_ai_brain.Syscall.{Kwargs, Target, Value, returned, succeed}
use trinity_v4_ai_brain.CoreSystem.{System, state_of}
use trinity_v4_ai_brain.CoreSystem.Actions.{reply, raise, listed}
use trinity_v4_ai_brain.CoreSystem.Regions.{memory_allocate, memory_free, memory_map}
use trinity_v4_ai_brain.CoreSystem.Regions.Placement.{
  user_base, owned_end, allocated, memory_allocate_disjoint,
}
use trinity_v4_ai_brain.CoreSystem.Regions.Release.{
  memory_free-memory_allocate, memory_free-memory_map,
}
use trinity_v4_ai_brain.CoreSystem.Processes.{clamp, process_create, process_exit, process_wait}
use trinity_v4_ai_brain.CoreSystem.Processes.Create.{
  process_create_launches, process_create_rejects,
}
use trinity_v4_ai_brain.CoreSystem.Processes.Exit.{
  unless_owned, process_exit_cleans, process_wait-process_exit,
}
use trinity_v4_ai_brain.CoreSystem.Messages.{inbox, ipc_receive}
use trinity_v4_ai_brain.CoreSystem.Messages.Fifo.{
  Post, message_of, send_post, send_all, receive_all, got, receive_all-send_all,
}
use trinity_v4_ai_brain.CoreSystem.Messages.Wake.{ipc_receive-send_post}
use trinity_v4_ai_brain.CoreSystem.Scheduler.{scheduler_loop}
use trinity_v4_ai_brain.CoreSystem.Scheduler.RoundRobin.{switches, rounds, round_robin}
use trinity_v4_ai_brain.CoreSystem.Accounting.{holdings}
use trinity_v4_ai_brain.CoreSystem.Accounting.Isolation.{invoke_syscall_isolates}
use trinity_v4_ai_brain.CoreSystem.Dispatch.{invoke_syscall}
use trinity_v4_ai_brain.CoreSystem.Processes.Revival.{process_exit-revival}
use trinity_v4_ai_brain.CoreSystem.Reach.Bounds.{reach-queue_bound}
use trinity_v4_ai_brain.CoreSystem.Reach.Invariant.{IsSound, reach-IsSound}
use trinity_v4_ai_brain.CoreSystem.Tests.{
  after_exit, after_exit-knows, test_host, at, no_arguments, with_server, history, sound, worker,
  server_code, server_next, server_queue, worker_there, server_there, server_code_there,
  server-IsFresh, no_messages,
}

reach-IsSound_example : IsSound with_server
reach-IsSound_example = reach-IsSound with_server history

queue_length : 3 ≡ length with_server.ready_queue
queue_length = ground (arith, server_queue)

abbrev round : System test_host
round = scheduler_loop (rounds (310 ∷ 320 ∷ 330 ∷ [])) with_server

round_robin_example :
    (round.ready_queue ≡ with_server.ready_queue)
    × ((pid : ℕ)
        → switches round pid ≡ switches with_server pid + count pid with_server.ready_queue)
    × ((pid : ℕ) → state_of round pid ≡ state_of with_server pid)
round_robin_example = round_robin (310 ∷ 320 ∷ 330 ∷ []) with_server queue_length sound.scheduled

-- The worker tries to free the server's code segment.
abbrev free_code : Kwargs test_host
free_code = record no_arguments { region_id = some (RegionId.code_segment 1001) }

owned_by_server : server_code.owner_pid ≢ 1000
owned_by_server = λ e. omega (arith, e)

worker_known : 1000 < with_server.next_pid
worker_known = ground (arith, server_next)

invoke_syscall_isolates_example :
    get
      (invoke_syscall 1000 11 free_code (at 300 3) with_server).1.memory_regions
      (RegionId.code_segment 1001)
    ≡ some server_code
invoke_syscall_isolates_example =
    invoke_syscall_isolates (RegionId.code_segment 1001) server_code 1000 11 free_code (at 300 3)
      with_server server-IsFresh sound.accounted worker_known owned_by_server server_code_there

server_known : contains with_server.processes 1000 ≡ true
server_known = ground (arith, worker_there)

memory_allocate_disjoint_example :
    let (outcome, t) = memory_allocate 1000 (pos 8192) (pos 3) (at 300 3) with_server in
    (start : ℕ) × (outcome ≡ returned (succeed (Value.region (RegionId.uuid 3) start 8192)))
    × (get t.memory_regions (RegionId.uuid 3)
        ≡ some (
            allocated 1000
              (pos 8192)
              (pos 3)
              (at 300 3)
              with_server
              start
              MemoryPermission.read_write))
    × (user_base ≤ start)
    × ((rid : RegionId) → owned_end 1000 (get with_server.memory_regions rid) ≤ start)
memory_allocate_disjoint_example =
    memory_allocate_disjoint 1000 (pos 8192) (pos 3) (at 300 3) with_server
      MemoryPermission.read_write sound.accounted server_known refl refl

memory_free-memory_allocate_example :
    let t = (memory_allocate 1000 (pos 8192) (pos 3) (at 300 3) with_server).1 in
    let (freed, u) = memory_free 1000 (RegionId.uuid 3) t in
    (freed ≡ returned (succeed Value.nothing))
    × ((rid : RegionId) → get u.memory_regions rid ≡ get with_server.memory_regions rid)
    × ((j : ℕ) → holdings u j ≡ holdings with_server j)
    × ((j : ℕ) → get u.processes j ≡ get with_server.processes j)
memory_free-memory_allocate_example =
    memory_free-memory_allocate 1000 (pos 8192) (pos 3) (at 300 3) MemoryPermission.read_write
      with_server sound.accounted server-IsFresh server_known refl refl

-- The server maps its own code segment.
memory_free-memory_map_example :
    let u =
      (memory_map 1001
        (Target.region (RegionId.code_segment 1001))
        (pos 0)
        (pos 1)
        (at 300 3)
        with_server).1 in
    let (freed, v) = memory_free 1001 (RegionId.uuid 3) u in
    (freed ≡ returned (succeed Value.nothing))
    × ((j : RegionId) → get v.memory_regions j ≡ get with_server.memory_regions j)
    × ((j : ℕ) → holdings v j ≡ holdings with_server j)
    × (get v.processes 1001
        ≡ Option.map
            (λ (p : ProcessInfo test_host). record p {
              memory_usage = p.memory_usage -ℤ pos 1048576;
            })
            (get with_server.processes 1001))
memory_free-memory_map_example =
    memory_free-memory_map 1001 (RegionId.code_segment 1001) (pos 0) (pos 1) (at 300 3) server_code
      MemoryPermission.read with_server sound.accounted server-IsFresh server_code_there refl refl

process_exit_cleans_example :
    ((process_exit 1000 (pos 7) with_server).0 ≡ returned (succeed Value.nothing))
    × (state_of after_exit 1000 ≡ some ProcessState.terminated)
    × (count 1000 after_exit.ready_queue ≡ 0)
    × (get after_exit.blocked_processes 1000 ≡ none)
    × (get after_exit.message_queues 1000 ≡ none)
    × ((rid : RegionId)
        → get after_exit.memory_regions rid
          ≡ unless_owned 1000 (get with_server.memory_regions rid))
process_exit_cleans_example =
    process_exit_cleans 1000 (pos 7) worker with_server worker_there sound.scheduled sound.accounted

process_wait-process_exit_example :
    process_wait 1001 1000 after_exit ≡ reply (Value.exit_code (pos 7)) after_exit
process_wait-process_exit_example =
    process_wait-process_exit 1000 (pos 7) worker with_server worker_there 1001

process_create_launches_example :
    let (outcome, t) = process_create 1000 "child" (pos 60) (pos 9) (at 300 3) with_server in
    (outcome ≡ returned (succeed (Value.pid with_server.next_pid)))
    × (t.next_pid ≡ with_server.next_pid + 1)
    × ((p : ProcessInfo test_host) × (get t.processes with_server.next_pid ≡ some p)
        × (p.state ≡ ProcessState.ready)
        × (p.parent_id ≡ 1000)
        × (p.priority ≡ ProcessPriority.system)
        × (p.policy ≢ SchedulingPolicy.fair))
    × (t.ready_queue ≡ with_server.ready_queue ++ with_server.next_pid ∷ [])
    × (listed (get t.process_memory with_server.next_pid)
        ≡ RegionId.code_segment with_server.next_pid
          ∷ RegionId.data_segment with_server.next_pid
          ∷ RegionId.stack_segment with_server.next_pid
          ∷ [])
    × (inbox t with_server.next_pid ≡ [])
process_create_launches_example =
    process_create_launches 1000 "child" (pos 60) (pos 9) ProcessPriority.system (at 300 3)
      with_server refl refl refl

-- The default priority and policy.
process_create_rejects_example :
    process_create 1000 "child" (pos 20) (pos 0) (at 300 3) with_server
    ≡ raise
        (value_error "SchedulingPolicy" (clamp (pos 0) last_policy))
        (record with_server { next_pid = with_server.next_pid + 1 })
process_create_rejects_example =
    process_create_rejects 1000 "child" (pos 20) (pos 0) ProcessPriority.normal (at 300 3)
      with_server refl refl refl

abbrev greeting : Post test_host
greeting = record {
  subject = "hello";
  kind = IpcMessageType.request;
  payload = "first";
  timeout = 0;
  env = at 300 3;
}

abbrev reminder : Post test_host
reminder = record greeting { payload = "second"; env = at 310 4 }

abbrev queue : List (IpcMessage test_host)
queue = inbox with_server 1000 ++ map (message_of 1001 1000) (greeting ∷ reminder ∷ [])

receive_all-send_all_example :
    receive_all (length queue) 1000 (send_all 1001 1000 (greeting ∷ reminder ∷ []) with_server)
    ≡ map got queue
receive_all-send_all_example =
    receive_all-send_all 1001 1000 (greeting ∷ reminder ∷ []) with_server server_there server_known

abbrev worker_waits : System test_host
worker_waits = (ipc_receive 1000 true with_server).1

abbrev worker_woken : System test_host
worker_woken = (send_post 1001 1000 greeting worker_waits).1

ipc_receive-send_post_example :
    ((ipc_receive 1000 true with_server).0 ≡ (reply Value.blocked with_server).0)
    × (state_of worker_waits 1000 ≡ some ProcessState.blocked)
    × (worker_waits.ready_queue ≡ remove 1000 with_server.ready_queue)
    × ((send_post 1001 1000 greeting worker_waits).0 ≡ (reply (Value.message_id 3) with_server).0)
    × (state_of worker_woken 1000 ≡ some ProcessState.ready)
    × (get worker_woken.blocked_processes 1000 ≡ none)
    × (worker_woken.ready_queue ≡ remove 1000 with_server.ready_queue ++ 1000 ∷ [])
    × ((ipc_receive 1000 true worker_woken).0 ≡ got (message_of 1001 1000 greeting))
ipc_receive-send_post_example =
    ipc_receive-send_post 1001 1000 greeting worker with_server worker_there no_messages
      server_there

process_exit-revival_example :
    let blocked = (ipc_receive 1000 true after_exit).1 in
    let woken = (send_post 1001 1000 greeting blocked).1 in
    (state_of after_exit 1000 ≡ some ProcessState.terminated)
    × (state_of blocked 1000 ≡ some ProcessState.blocked)
    × (state_of woken 1000 ≡ some ProcessState.ready)
    × (woken.ready_queue ≡ remove 1000 after_exit.ready_queue ++ 1000 ∷ [])
process_exit-revival_example =
    process_exit-revival 1000 (pos 7) worker with_server worker_there 1001 greeting after_exit-knows

reach-queue_bound_example : length with_server.ready_queue ≤ length (keys with_server.processes)
reach-queue_bound_example = reach-queue_bound with_server history
