-- ===== src/CoreSystem/Actions.antt =====
-- Steps that several methods of `CoreSystem` make, and the ways in which a handler ends.
use trinity_v4_ai_brain.Prelude.{ℕ, String, Option, none, some, List, [], nat_eq, remove}
use trinity_v4_ai_brain.Host.{Host, Exception}
use trinity_v4_ai_brain.Dict.{put, adjust}
use trinity_v4_ai_brain.Process.{ProcessInfo, ProcessState}
use trinity_v4_ai_brain.Syscall.{Value, Outcome, returned, raised, succeed, failure}
use trinity_v4_ai_brain.CoreSystem.{System, Reason}

-- `d.get(k, [])` for a dictionary of lists
abbrev pub listed {ℓ} : {A : Type ℓ} → Option (List A) → List A
listed none = []
listed (some xs) = xs

-- An optional value, or else its default.
abbrev pub default {ℓ} : {A : Type ℓ} → Option A → A → A
default none d = d
default (some a) d = a

module _ {H : Host} where
  abbrev pub reply : Value H → System H → Outcome H × System H
  reply v s = (returned (succeed v), s)

  abbrev pub refuse : String → System H → Outcome H × System H
  refuse text s = (returned (failure text), s)

  -- What was written before the exception stays written.
  abbrev pub raise : Exception → System H → Outcome H × System H
  raise e s = (raised e, s)

  -- `if pid in self.processes: self.processes[pid].… = …`
  abbrev pub with_process : ℕ → (ProcessInfo H → ProcessInfo H) → System H → System H
  with_process pid f s = record s { processes = adjust s.processes pid f }

  -- The end of `_syscall_process_wait` and `_syscall_ipc_receive`: the process `p` at `pid` leaves
  -- the ready queue and waits for `reason`.
  unfoldable pub block : ℕ → ProcessInfo H → Reason → System H → System H
  block pid p reason s = record s {
    ready_queue = remove pid s.ready_queue;
    processes = put s.processes pid (record p { state = ProcessState.blocked });
    blocked_processes = put s.blocked_processes pid reason;
  }
