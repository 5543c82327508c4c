-- ===== src/CoreSystem/Dispatch.antt =====
-- `invoke_syscall`: the call table, keyword binding, exceptions and statistics.
pub mod Kept
pub mod Statistics
use Prim.Native.String.{◌++◌ as str_append}
use trinity_v4_ai_brain.Prelude.{
  ℕ, ◌+◌, pos, String, true, Option, none, some, List, [], ◌∷◌, nat_eq, if◌then◌else◌,
}
use trinity_v4_ai_brain.Host.{Host, Env, Exception, type_error}
use trinity_v4_ai_brain.Dict.{get, put}
use trinity_v4_ai_brain.Syscall.{
  Handler, Kwargs, SyscallResult, SyscallStats, Outcome, returned, raised, failure, keywords,
  takes_only,
}
use trinity_v4_ai_brain.CoreSystem.{System}
use trinity_v4_ai_brain.CoreSystem.Actions.{raise, default}
use trinity_v4_ai_brain.CoreSystem.Processes.{process_create, process_exit, process_wait}
use trinity_v4_ai_brain.CoreSystem.Regions.{memory_allocate, memory_free, memory_map}
use trinity_v4_ai_brain.CoreSystem.Messages.{ipc_send, ipc_receive}

-- The parameters of each handler but `process_id`: those that it requires come first.
abbrev pub parameters : Handler → List String
parameters Handler.process_create = "name" ∷ "priority" ∷ "policy" ∷ []
parameters Handler.process_exit = "exit_code" ∷ []
parameters Handler.process_wait = "wait_pid" ∷ []
parameters Handler.memory_allocate = "size" ∷ "permissions" ∷ []
parameters Handler.memory_free = "region_id" ∷ []
parameters Handler.memory_map = "target_id" ∷ "local_address" ∷ "permissions" ∷ []
parameters Handler.ipc_send = "target_id" ∷ "subject" ∷ "message_type" ∷ "payload" ∷ "timeout" ∷ []
parameters Handler.ipc_receive = "wait" ∷ []

module _ {H : Host} where
  -- The handler on its bound arguments; `none` where a required one is missing.
  unfoldable pub bind : Handler → ℕ → Kwargs H → Env H → Option (System H → Outcome H × System H)
  bind Handler.process_create pid k env = elim k.name [
    | none ↦ none
    | some name ↦
        some (process_create pid name (default k.priority (pos 20)) (default k.policy (pos 0)) env)
  ]
  bind Handler.process_exit pid k env = some (process_exit pid (default k.exit_code (pos 0)))
  bind Handler.process_wait pid k env = elim k.wait_pid [
    | none ↦ none
    | some wait_pid ↦ some (process_wait pid wait_pid)
  ]
  bind Handler.memory_allocate pid k env = elim k.size [
    | none ↦ none
    | some size ↦ some (memory_allocate pid size (default k.permissions (pos 3)) env)
  ]
  bind Handler.memory_free pid k env = elim k.region_id [
    | none ↦ none
    | some region_id ↦ some (memory_free pid region_id)
  ]
  bind Handler.memory_map pid k env = elim k.target_id [
    | none ↦ none
    | some target ↦ elim k.local_address [
      | none ↦ none
      | some address ↦ some (memory_map pid target address (default k.permissions (pos 1)) env)
    ]
  ]
  bind Handler.ipc_send pid k env = elim k.target_id [
    | none ↦ none
    | some target ↦ elim k.subject [
      | none ↦ none
      | some subject ↦ some (
          ipc_send pid target subject (default k.message_type (pos 1)) (default k.payload H.nothing)
            (default k.timeout H.zero_seconds) env)
    ]
  ]
  bind Handler.ipc_receive pid k env = some (ipc_receive pid (default k.wait true))

  unfoldable pub run_bound :
      Exception → Option (System H → Outcome H × System H) → System H → Outcome H × System H
  run_bound e none s = raise e s
  run_bound e (some run) s = run s

  -- syscall["handler"](process_id, **args); a keyword missing or one too many is a TypeError.
  unfoldable pub call : Handler → String → ℕ → Kwargs H → Env H → System H → Outcome H × System H
  unfolding bind run_bound
  call h name pid k env s =
      if takes_only (parameters h) k
      then run_bound (type_error name (keywords k)) (bind h pid k env) s
      else raise (type_error name (keywords k)) s

  -- `self.syscall_stats[number]…`, for a number that is in the table
  unfoldable pub tally : ℕ → (SyscallStats H → SyscallStats H) → System H → System H
  tally number f s = elim (get s.syscall_stats number) [
    | none ↦ s
    | some st ↦ record s { syscall_stats = put s.syscall_stats number (f st) }
  ]

  -- The two ends of the `try` block.
  unfoldable pub finish : ℕ → Env H → Outcome H × System H → SyscallResult H × System H
  unfolding tally
  finish number env (returned r, s) = (
    r,
    tally number
        (λ st. record st { total_time = H.add st.total_time (H.sub env.finished env.started) }) s,
  )
  finish number env (raised e, s) =
      (failure (H.str e), tally number (λ st. record st { errors = st.errors + 1 }) s)

  unfoldable pub invoke_syscall : ℕ → ℕ → Kwargs H → Env H → System H → SyscallResult H × System H
  unfolding tally finish
  invoke_syscall process_id number k env s = elim (get s.syscalls number) [
    | none ↦ (failure (str_append "Invalid system call number: " (H.decimal number)), s)
    | some syscall ↦ finish number env (
        call syscall.handler syscall.name process_id k env
          (tally number (λ st. record st { calls = st.calls + 1 }) s))
  ]
