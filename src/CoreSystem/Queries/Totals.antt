-- ===== src/CoreSystem/Queries/Totals.antt =====
-- `get_system_info`, and what its numbers add up to.
use trinity_v4_ai_brain.Prelude.{
  ℕ, ◌+◌, String, ◌≡◌, refl, ◌∙◌, Option, none, some, List, [], ◌∷◌, map, ◌==◌, nat_eq,
  if◌then◌else◌, length, arith,
}
use trinity_v4_ai_brain.Host.{Host}
use trinity_v4_ai_brain.Dict.{get, values}
use trinity_v4_ai_brain.Process.{ProcessInfo, ProcessState}
use trinity_v4_ai_brain.Memory.{MemoryRegion, MemoryType}
use trinity_v4_ai_brain.CoreSystem.{System}

-- The members' values, which `auto()` counts from 1.
abbrev state_value : ProcessState → ℕ
state_value ProcessState.created = 1
state_value ProcessState.ready = 2
state_value ProcessState.running = 3
state_value ProcessState.blocked = 4
state_value ProcessState.suspended = 5
state_value ProcessState.terminated = 6
state_value ProcessState.zombie = 7

abbrev type_value : MemoryType → ℕ
type_value MemoryType.normal = 1
type_value MemoryType.shared = 2
type_value MemoryType.locked = 3
type_value MemoryType.huge = 4
type_value MemoryType.device = 5

-- counts[k] += n, for a table that has every member of an enumeration
abbrev increase : {K : Type 0} → (K → ℕ) → K → ℕ → (K → ℕ) → K → ℕ
increase value k n counts j = if value k == value j then counts j + n else counts j

abbrev sum : List ℕ → ℕ
sum [] = 0
sum (n ∷ ns) = n + sum ns

-- The dictionary that `get_system_info` builds; the two tables by name are functions.
pub record SystemReport (H : Host) : Type 0 where
  pub version : String
  pub uptime : H.Float
  pub process_count : ℕ
  pub process_states : ProcessState → ℕ
  pub memory_total : ℕ
  pub memory_available : ℕ
  pub memory_used : ℕ
  pub memory_by_type : MemoryType → ℕ
  pub syscall_count : ℕ

module _ {H : Host} where
  unfoldable pub count_states : List (ProcessInfo H) → (ProcessState → ℕ) → ProcessState → ℕ
  count_states [] counts = counts
  count_states (p ∷ ps) counts = count_states ps (increase state_value p.state 1 counts)

  unfoldable pub count_memory : List (MemoryRegion H) → (MemoryType → ℕ) → MemoryType → ℕ
  count_memory [] counts = counts
  count_memory (r ∷ rs) counts = count_memory rs (increase type_value r.memory_type r.size counts)

  abbrev uptime_of : H.Float → Option (ProcessInfo H) → H.Float
  uptime_of now none = H.zero_seconds
  uptime_of now (some p) = H.sub now p.creation_time

  pub get_system_info : H.Float → System H → SystemReport H
  get_system_info now s = record {
    version = "0.2.0";
    uptime = uptime_of now (get s.processes 0);
    process_count = length s.processes.items;
    process_states = count_states (values s.processes) (λ state. 0);
    memory_total = s.physical_memory_size;
    memory_available = s.available_memory;
    memory_used = sum (map (λ r. r.size) (values s.memory_regions));
    memory_by_type = count_memory (values s.memory_regions) (λ kind. 0);
    syscall_count = sum (map (λ st. st.calls) (values s.syscall_stats));
  }

-- The sum of a table over all members.
abbrev pub all_states : (ProcessState → ℕ) → ℕ
all_states f =
    f ProcessState.created
    + f ProcessState.ready
    + f ProcessState.running
    + f ProcessState.blocked
    + f ProcessState.suspended
    + f ProcessState.terminated
    + f ProcessState.zombie

abbrev pub all_types : (MemoryType → ℕ) → ℕ
all_types f =
    f MemoryType.normal
    + f MemoryType.shared
    + f MemoryType.locked
    + f MemoryType.huge
    + f MemoryType.device

all_states-increase :
    (st : ProcessState) (n : ℕ) (f : ProcessState → ℕ)
    → all_states (increase state_value st n f) ≡ all_states f + n
all_states-increase st n f = ground arith

all_types-increase :
    (kind : MemoryType) (n : ℕ) (f : MemoryType → ℕ)
    → all_types (increase type_value kind n f) ≡ all_types f + n
all_types-increase kind n f = ground arith

length-map_value :
    {K V : Type 0} (xs : List (K × V)) → length (map (λ (i : K × V). i.1) xs) ≡ length xs
length-map_value [] = refl
length-map_value (x ∷ xs) = omega (arith, length-map_value xs)

module _ {H : Host} where
  all_states-count_states :
      (ps : List (ProcessInfo H)) (f : ProcessState → ℕ)
      → all_states (count_states ps f) ≡ all_states f + length ps
  unfolding count_states
  all_states-count_states [] f = omega arith
  all_states-count_states (p ∷ ps) f =
      all_states-count_states ps (increase state_value p.state 1 f)
      ∙ omega (arith, all_states-increase p.state 1 f)

  all_types-count_memory :
      (rs : List (MemoryRegion H)) (f : MemoryType → ℕ)
      → all_types (count_memory rs f) ≡ all_types f + sum (map (λ r. r.size) rs)
  unfolding count_memory
  all_types-count_memory [] f = omega arith
  all_types-count_memory (r ∷ rs) f =
      all_types-count_memory rs (increase type_value r.memory_type r.size f)
      ∙ omega (arith, all_types-increase r.memory_type r.size f)

  -- In every state the counts of processes by state that get_system_info reports add up to its
  -- count of processes, and its sizes of memory by type add up to the memory used.
  pub get_system_info_totals :
      (now : H.Float) (s : System H)
      → let report = get_system_info now s in
        (all_states report.process_states ≡ report.process_count)
        × (all_types report.memory_by_type ≡ report.memory_used)
  unfolding get_system_info values
  get_system_info_totals now s = (
    all_states-count_states (values s.processes) (λ state. 0)
        ∙ omega (arith, length-map_value s.processes.items),
    all_types-count_memory (values s.memory_regions) (λ kind. 0) ∙ omega arith,
  )
