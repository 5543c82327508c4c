-- ===== src/CoreSystem/Scheduling.antt =====
-- What ties the process table, the ready queue and the blocked processes together.
pub mod Steps
pub mod Kept
use trinity_v4_ai_brain.Prelude.{
  ℕ, ◌+◌, ◌≤◌, ◌<◌, ◌≡◌, refl, Bool, false, Option, none, some, [], ◌∷◌, ◌++◌, nat_eq, is_some,
  indicator, count, remove, count-remove, count-append, arith,
}
use trinity_v4_ai_brain.Host.{Host}
use trinity_v4_ai_brain.Dict.{get, put, delete}
use trinity_v4_ai_brain.Dict.Laws.{get-put, get-delete}
use trinity_v4_ai_brain.Process.{ProcessInfo, ProcessState, is_ready, is_blocked}
use trinity_v4_ai_brain.CoreSystem.{System, Reason, state_of}
use trinity_v4_ai_brain.CoreSystem.Actions.{block}

-- How often a process in this state stands in the ready queue: once if it is READY, else never.
abbrev pub places : Option ProcessState → ℕ
places none = 0
places (some st) = indicator (is_ready st)

abbrev pub waits : Option ProcessState → Bool
waits none = false
waits (some st) = is_blocked st

pub record IsScheduled {H : Host} (s : System H) : Type 0 where
  -- the ready queue holds the READY processes, each once, and nothing else
  pub queued : (pid : ℕ) → count pid s.ready_queue ≡ places (state_of s pid)
  -- a reason is kept for the BLOCKED processes, and for no other
  pub reasons : (pid : ℕ) → is_some (get s.blocked_processes pid) ≡ waits (state_of s pid)
  -- ids not yet given out are not in the table
  pub fresh : (pid : ℕ) → s.next_pid ≤ pid → state_of s pid ≡ none
  pub kernel_ids : 1000 ≤ s.next_pid
  -- before `initialize` no process has a kernel id
  pub unbooted : s.initialized ≡ false → (pid : ℕ) → pid < 1000 → state_of s pid ≡ none
