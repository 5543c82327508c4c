-- ===== src/CoreSystem/Processes.antt =====
-- The calls process_create, process_exit and process_wait.
pub mod Cases
pub mod Create
pub mod Exit
pub mod Revival
use trinity_v4_ai_brain.Prelude.{
  ℕ, ◌+◌, ℤ, pos, min_ℤ, max_ℤ, String, none, some, [], ◌∷◌, ◌++◌, ◌==◌, nat_eq, string_eq, remove,
  if◌then◌else◌,
}
use trinity_v4_ai_brain.Host.{Host, Env, value_error, key_error}
use trinity_v4_ai_brain.Dict.{get, put, delete}
use trinity_v4_ai_brain.Process.{
  ProcessInfo, ProcessState, new_process, priority_of, policy_of, last_policy, is_terminated,
}
use trinity_v4_ai_brain.Syscall.{Value, Outcome}
use trinity_v4_ai_brain.CoreSystem.{System, Reason}
use trinity_v4_ai_brain.CoreSystem.Actions.{reply, refuse, raise, block, default}
use trinity_v4_ai_brain.CoreSystem.Regions.{init_process_memory, free_process_memory}

-- min(max(0, value), top)
abbrev pub clamp : ℤ → ℕ → ℤ
clamp value top = min_ℤ (max_ℤ (pos 0) value) (pos top)

module _ {H : Host} where
  -- The new process enters the table and the ready queue, with its memory and an empty message
  -- queue. `p` is in the table by the time that its state becomes READY.
  unfoldable pub launch : ℕ → ProcessInfo H → (ℕ → H.Float) → System H → System H
  launch pid p now s =
      let filled = init_process_memory pid now (record s {
        processes = put s.processes pid (record p { state = ProcessState.ready });
        ready_queue = s.ready_queue ++ pid ∷ [];
      }) in
      record filled { message_queues = put filled.message_queues pid [] }

  unfoldable pub process_create : ℕ → String → ℤ → ℤ → Env H → System H → Outcome H × System H
  process_create process_id name priority policy env s =
      if name == ""
      then refuse "Process name cannot be empty" s
      else let new_pid = s.next_pid in
        let numbered = record s { next_pid = new_pid + 1 } in
        elim (priority_of (clamp priority 50)) [
          | none ↦ raise (value_error "ProcessPriority" (clamp priority 50)) numbered
          | some level ↦ elim (policy_of (clamp policy last_policy)) [
            | none ↦ raise (value_error "SchedulingPolicy" (clamp policy last_policy)) numbered
            | some rule ↦ reply (Value.pid new_pid) (
                launch new_pid
                  (new_process new_pid process_id name ProcessState.created level rule
                    (env.created 0))
                  env.created numbered)
          ]
        ]

  -- Everything of a process that ends goes, but its entry in the table.
  unfoldable pub terminate : ℕ → ProcessInfo H → ℤ → System H → System H
  terminate pid p code s =
      let freed = free_process_memory pid (record s {
        processes = put s.processes pid (record p {
          state = ProcessState.terminated;
          metadata = put p.metadata "exit_code" code;
        });
        ready_queue = remove pid s.ready_queue;
        blocked_processes = delete s.blocked_processes pid;
      }) in
      record freed { message_queues = delete freed.message_queues pid }

  unfoldable pub process_exit : ℕ → ℤ → System H → Outcome H × System H
  process_exit process_id exit_code s = elim (get s.processes process_id) [
    | none ↦ refuse "Process does not exist" s
    | some p ↦ reply Value.nothing (terminate process_id p exit_code s)
  ]

  -- metadata.get("exit_code", 0)
  abbrev pub exit_code_of : ProcessInfo H → ℤ
  exit_code_of p = default (get p.metadata "exit_code") (pos 0)

  unfoldable pub process_wait : ℕ → ℕ → System H → Outcome H × System H
  process_wait process_id wait_pid s = elim (get s.processes wait_pid) [
    | none ↦ refuse "Target process does not exist" s
    | some target ↦
        if is_terminated target.state
        then reply (Value.exit_code (exit_code_of target)) s
        else elim (get s.processes process_id) [
          | none ↦
              raise (key_error process_id)
                (record s { ready_queue = remove process_id s.ready_queue })
          | some p ↦ reply Value.blocked (block process_id p (Reason.wait wait_pid) s)
        ]
  ]
