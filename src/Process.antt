-- ===== src/Process.antt =====
-- Process management types of core_system.py: states, priorities, policies, `ProcessInfo`.
use trinity_v4_ai_brain.Prelude.{
  ℕ, ◌-◌, ℤ, String, Option, none, List, [], ◌∷◌, Bool, true, false, length,
}
use trinity_v4_ai_brain.Enum.{find_member}
use trinity_v4_ai_brain.Host.{Host}
use trinity_v4_ai_brain.Dict
use trinity_v4_ai_brain.Dict.{Dict}

pub data ProcessState : Type 0 where
  created ready running blocked suspended terminated zombie : ProcessState

pub data ProcessPriority : Type 0 where
  idle low normal high real_time system : ProcessPriority

pub data SchedulingPolicy : Type 0 where
  round_robin fifo priority deadline fair : SchedulingPolicy

abbrev pub priority_value : ProcessPriority → ℕ
priority_value ProcessPriority.idle = 0
priority_value ProcessPriority.low = 10
priority_value ProcessPriority.normal = 20
priority_value ProcessPriority.high = 30
priority_value ProcessPriority.real_time = 40
priority_value ProcessPriority.system = 50

-- ProcessPriority(v)
abbrev pub priority_of : ℤ → Option ProcessPriority
priority_of = find_member priority_value (
    ProcessPriority.idle ∷ ProcessPriority.low ∷ ProcessPriority.normal ∷ ProcessPriority.high
    ∷ ProcessPriority.real_time ∷ ProcessPriority.system ∷ [])

-- `auto()` counts from 1.
abbrev pub policy_value : SchedulingPolicy → ℕ
policy_value SchedulingPolicy.round_robin = 1
policy_value SchedulingPolicy.fifo = 2
policy_value SchedulingPolicy.priority = 3
policy_value SchedulingPolicy.deadline = 4
policy_value SchedulingPolicy.fair = 5

abbrev pub all_policies : List SchedulingPolicy
all_policies =
    SchedulingPolicy.round_robin ∷ SchedulingPolicy.fifo ∷ SchedulingPolicy.priority
    ∷ SchedulingPolicy.deadline ∷ SchedulingPolicy.fair ∷ []

-- SchedulingPolicy(v)
abbrev pub policy_of : ℤ → Option SchedulingPolicy
policy_of = find_member policy_value all_policies

-- len(SchedulingPolicy) - 1
abbrev pub last_policy : ℕ
last_policy = length all_policies - 1

-- The one key that the code writes to `metadata` is "exit_code".
pub record ProcessInfo (H : Host) : Type 0 where
  pub process_id : ℕ
  pub parent_id : ℕ
  pub name : String
  pub state : ProcessState
  pub priority : ProcessPriority
  pub policy : SchedulingPolicy
  pub cpu_affinity : List ℕ
  pub creation_time : H.Float
  pub start_time : H.Float
  pub runtime : H.Float
  pub deadline : Option H.Float
  pub time_slice : H.Float
  pub weight : H.Float
  pub quantum_used : H.Float
  pub last_run : H.Float
  pub context_switches : ℕ
  pub memory_usage : ℤ
  pub file_descriptors : List ℕ
  pub metadata : Dict String ℤ

-- ProcessInfo(process_id=…, parent_id=…, name=…, state=…, priority=…, policy=…), created at `now`
abbrev pub new_process :
    {H : Host}
    → ℕ
    → ℕ
    → String
    → ProcessState
    → ProcessPriority
    → SchedulingPolicy
    → H.Float
    → ProcessInfo H
new_process {H} process_id parent_id name state level rule now = record {
  process_id = process_id;
  parent_id = parent_id;
  name = name;
  state = state;
  priority = level;
  policy = rule;
  cpu_affinity = [];
  creation_time = now;
  start_time = H.zero_seconds;
  runtime = H.zero_seconds;
  deadline = none;
  time_slice = H.default_time_slice;
  weight = H.default_weight;
  quantum_used = H.zero_seconds;
  last_run = H.zero_seconds;
  context_switches = 0;
  memory_usage = ℤ.pos 0;
  file_descriptors = [];
  metadata = Dict.empty;
}

-- state == ProcessState.X
abbrev pub is_terminated : ProcessState → Bool
is_terminated ProcessState.terminated = true
is_terminated _ = false

abbrev pub is_running : ProcessState → Bool
is_running ProcessState.running = true
is_running _ = false

abbrev pub is_ready : ProcessState → Bool
is_ready ProcessState.ready = true
is_ready _ = false

abbrev pub is_blocked : ProcessState → Bool
is_blocked ProcessState.blocked = true
is_blocked _ = false
