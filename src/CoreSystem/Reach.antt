-- ===== src/CoreSystem/Reach.antt =====
-- The histories of a system: system calls, scheduler passes, `initialize`, `start` and `stop`, in
-- any order. A call holds `_syscall_lock` throughout, and a pass holds `_proc_lock`, so a history
-- is a sequence of whole steps.
pub mod Bounds
pub mod Invariant
pub mod Waiting
use trinity_v4_ai_brain.Prelude.{ℕ, ◌<◌, Bool}
use trinity_v4_ai_brain.Host.{Host, Env}
use trinity_v4_ai_brain.Syscall.{Kwargs}
use trinity_v4_ai_brain.CoreSystem.{System}
use trinity_v4_ai_brain.CoreSystem.Boot.{Probe, initialize, start, stop}
use trinity_v4_ai_brain.CoreSystem.Scheduler.{run_scheduler}
use trinity_v4_ai_brain.CoreSystem.Dispatch.{invoke_syscall}
use trinity_v4_ai_brain.CoreSystem.Dispatch.Kept.{IsFresh}

pub data Step {H : Host} : System H → System H → Type 0 where
  -- the uuid that is drawn is new, and the id of the caller has been given out
  calls :
      (pid number : ℕ) (k : Kwargs H) (env : Env H) (s : System H)
      → IsFresh env s
      → pid < s.next_pid
      → Step s (invoke_syscall pid number k env s).1
  schedules : (now : H.Float) (s : System H) → Step s (run_scheduler now s)
  initializes :
      (probe : Probe) (now : ℕ → H.Float) (s : System H) → Step s (initialize probe now s).1
  starts :
      (begun : Bool) (probe : Probe) (now : ℕ → H.Float) (s : System H)
      → Step s (start begun probe now s).1
  stops : (s : System H) → Step s (stop s).1

pub data Reach {H : Host} (s : System H) : System H → Type 0 where
  here : Reach s s
  next : {t u : System H} → Reach s t → Step t u → Reach s u
