-- ===== src/CoreSystem/Queries.antt =====
-- The methods of `CoreSystem` that report on its state and change nothing.
pub mod MemoryMap
pub mod Totals
use trinity_v4_ai_brain.Prelude.{
  ℕ, ℤ, String, leb, Bool, Option, none, some, List, [], ◌∷◌, map, nat_eq, if◌then◌else◌,
}
use trinity_v4_ai_brain.Host.{Host}
use trinity_v4_ai_brain.Dict.{Dict, get, keys}
use trinity_v4_ai_brain.Process.{ProcessInfo, ProcessState, ProcessPriority, SchedulingPolicy}
use trinity_v4_ai_brain.Memory.{MemoryRegion, MemoryType, MemoryPermission, RegionId, region_id_eq}
use trinity_v4_ai_brain.Syscall.{Syscall, SyscallStats, SyscallCategory}
use trinity_v4_ai_brain.CoreSystem.{System}
use trinity_v4_ai_brain.CoreSystem.Actions.{listed}

-- The dictionaries that the methods build, one field for each key.
pub record ProcessReport (H : Host) : Type 0 where
  pub pid : ℕ
  pub parent_pid : ℕ
  pub name : String
  pub state : ProcessState
  pub priority : ProcessPriority
  pub policy : SchedulingPolicy
  pub cpu_affinity : List ℕ
  pub creation_time : H.Float
  pub start_time : H.Float
  pub runtime : H.Float
  pub deadline : Option H.Float
  pub memory_usage : ℤ
  pub context_switches : ℕ
  pub metadata : Dict String ℤ

pub record RegionReport (H : Host) : Type 0 where
  pub id : RegionId
  pub start : ℕ
  pub size : ℕ
  pub owner_pid : ℕ
  pub memory_type : MemoryType
  pub permissions : MemoryPermission
  pub name : String
  pub is_mapped : Bool
  pub created_at : H.Float
  pub last_accessed : H.Float
  pub metadata : Dict String RegionId

pub record StatsReport (H : Host) : Type 0 where
  pub number : ℕ
  pub name : String
  pub category : SyscallCategory
  pub calls : ℕ
  pub errors : ℕ
  pub total_time : H.Float
  pub avg_time : H.Float

-- max(1, n)
abbrev at_least_one : ℕ → ℕ
at_least_one n = if leb n 1 then 1 else n

module _ {H : Host} where
  pub get_process_info : ℕ → System H → Option (ProcessReport H)
  get_process_info pid s = elim (get s.processes pid) [
    | none ↦ none
    | some p ↦ some (record {
      pid = p.process_id;
      parent_pid = p.parent_id;
      name = p.name;
      state = p.state;
      priority = p.priority;
      policy = p.policy;
      cpu_affinity = p.cpu_affinity;
      creation_time = p.creation_time;
      start_time = p.start_time;
      runtime = p.runtime;
      deadline = p.deadline;
      memory_usage = p.memory_usage;
      context_switches = p.context_switches;
      metadata = p.metadata;
    })
  ]

  abbrev pub region_report : MemoryRegion H → RegionReport H
  region_report r = record {
    id = r.id;
    start = r.start;
    size = r.size;
    owner_pid = r.owner_pid;
    memory_type = r.memory_type;
    permissions = r.permissions;
    name = r.name;
    is_mapped = r.is_mapped;
    created_at = r.created_at;
    last_accessed = r.last_accessed;
    metadata = r.metadata;
  }

  pub get_memory_info : RegionId → System H → Option (RegionReport H)
  get_memory_info rid s = elim (get s.memory_regions rid) [
    | none ↦ none
    | some r ↦ some (region_report r)
  ]

  stats_of : List (ℕ × Syscall) → Dict ℕ (SyscallStats H) → List (StatsReport H)
  stats_of [] d = []
  stats_of ((num, call) ∷ rest) d = elim (get d num) [
    | none ↦ stats_of rest d
    | some st ↦
        record {
          number = num;
          name = call.name;
          category = call.category;
          calls = st.calls;
          errors = st.errors;
          total_time = st.total_time;
          avg_time = H.div st.total_time (at_least_one st.calls);
        }
        ∷ stats_of rest d
  ]

  -- The values of the dictionary, in its order; each stands under its `number`.
  pub get_syscall_stats : System H → List (StatsReport H)
  unfolding stats_of
  get_syscall_stats s = stats_of s.syscalls.items s.syscall_stats

  pub get_process_list : System H → List (Option (ProcessReport H))
  get_process_list s = map (λ pid. get_process_info pid s) (keys s.processes)

  -- The loops of `get_memory_map`.
  unfoldable pub collect : List RegionId → System H → List (RegionReport H)
  collect [] s = []
  collect (rid ∷ rids) s = elim (get_memory_info rid s) [
    | none ↦ collect rids s
    | some info ↦ info ∷ collect rids s
  ]

  -- result.sort(key=lambda r: r["start"]), which is stable
  unfoldable pub insert : RegionReport H → List (RegionReport H) → List (RegionReport H)
  insert r [] = r ∷ []
  insert r (x ∷ xs) = if leb r.start x.start then r ∷ x ∷ xs else x ∷ insert r xs

  unfoldable pub sort : List (RegionReport H) → List (RegionReport H)
  sort [] = []
  sort (r ∷ rs) = insert r (sort rs)

  unfoldable pub get_memory_map : Option ℕ → System H → List (RegionReport H)
  get_memory_map (some pid) s = sort (collect (listed (get s.process_memory pid)) s)
  get_memory_map none s = sort (collect (keys s.memory_regions) s)
