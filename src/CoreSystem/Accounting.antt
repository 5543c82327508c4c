-- ===== src/CoreSystem/Accounting.antt =====
-- What ties the table of memory regions and the lists of `process_memory` together.
pub mod Deletion
pub mod Steps
pub mod Kept
pub mod Isolation
use trinity_v4_ai_brain.Prelude.{
  ℕ, ◌≤◌, ◌≡◌, Bool, false, Option, none, some, List, ◌==◌, nat_eq, indicator, count,
}
use trinity_v4_ai_brain.Host.{Host}
use trinity_v4_ai_brain.Dict.{get}
use trinity_v4_ai_brain.Memory.{MemoryRegion, RegionId, region_id_eq}
use trinity_v4_ai_brain.CoreSystem.{System}
use trinity_v4_ai_brain.CoreSystem.Actions.{listed}

module _ {H : Host} where
  abbrev pub owned_by : ℕ → Option (MemoryRegion H) → Bool
  owned_by pid none = false
  owned_by pid (some r) = r.owner_pid == pid

  -- The region ids that are listed for a process.
  abbrev pub holdings : System H → ℕ → List RegionId
  holdings s pid = listed (get s.process_memory pid)

  abbrev pub HasId : RegionId → Option (MemoryRegion H) → Type 0
  HasId rid none = Unit {0}
  HasId rid (some r) = r.id ≡ rid

pub record IsAccounted {H : Host} (s : System H) : Type 0 where
  -- a process is listed with the regions that it owns, each once, and with nothing else
  pub held :
      (pid : ℕ) (rid : RegionId)
      → count rid (holdings s pid) ≡ indicator (owned_by pid (get s.memory_regions rid))
  -- a region stands under its own id
  pub ids : (rid : RegionId) → HasId rid (get s.memory_regions rid)
  -- an id not yet given out owns nothing, and its segments are not there
  pub future :
      (pid : ℕ) (rid : RegionId)
      → s.next_pid ≤ pid
      → owned_by pid (get s.memory_regions rid) ≡ false
  pub no_code :
      (pid : ℕ) → s.next_pid ≤ pid → get s.memory_regions (RegionId.code_segment pid) ≡ none
  pub no_data :
      (pid : ℕ) → s.next_pid ≤ pid → get s.memory_regions (RegionId.data_segment pid) ≡ none
  pub no_stack :
      (pid : ℕ) → s.next_pid ≤ pid → get s.memory_regions (RegionId.stack_segment pid) ≡ none
  -- before `initialize` the two system regions are not there
  pub no_kernel : s.initialized ≡ false → get s.memory_regions RegionId.kernel_main ≡ none
  pub no_shared : s.initialized ≡ false → get s.memory_regions RegionId.system_shared ≡ none
