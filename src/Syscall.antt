-- ===== src/Syscall.antt =====
-- The system call interface of core_system.py: categories, the call table, keyword arguments and
-- results.
use trinity_v4_ai_brain.Prelude.{
  ℕ, ℤ, String, Bool, true, false, ◌&&◌, Option, none, some, List, [], ◌∷◌, string_eq, member,
}
use trinity_v4_ai_brain.Host.{Host, Exception}
use trinity_v4_ai_brain.Dict.{Dict}
use trinity_v4_ai_brain.Memory.{RegionId}
use trinity_v4_ai_brain.Ipc.{IpcMessageType}

-- class SyscallCategory
pub data SyscallCategory : Type 0 where
  process file memory network ipc device system time security user debug : SyscallCategory

-- The bound methods that stand in the call table.
pub data Handler : Type 0 where
  process_create process_exit process_wait : Handler
  memory_allocate memory_free memory_map : Handler
  ipc_send ipc_receive : Handler

pub record Syscall : Type 0 where
  pub number : ℕ
  pub name : String
  pub handler : Handler
  pub category : SyscallCategory

pub record SyscallStats (H : Host) : Type 0 where
  pub calls : ℕ
  pub errors : ℕ
  pub total_time : H.Float

-- `target_id` names a region for one handler and a process for another.
pub data Target : Type 0 where
  region : RegionId → Target
  process : ℕ → Target

-- The keyword arguments of one call, `args: Dict[str, Any]`, each with the type that the handlers'
-- signatures state. `others` are keywords that no handler takes.
pub record Kwargs (H : Host) : Type 0 where
  pub name : Option String
  pub priority : Option ℤ
  pub policy : Option ℤ
  pub exit_code : Option ℤ
  pub wait_pid : Option ℕ
  pub size : Option ℤ
  pub permissions : Option ℤ
  pub region_id : Option RegionId
  pub target_id : Option Target
  pub local_address : Option ℤ
  pub subject : Option String
  pub message_type : Option ℤ
  pub payload : Option H.Any
  pub timeout : Option H.Float
  pub wait : Option Bool
  pub others : List String

abbrev given {ℓ} : {A : Type ℓ} → String → Option A → List String → List String
given key none rest = rest
given key (some a) rest = key ∷ rest

-- The keywords that a call gives.
abbrev pub keywords : {H : Host} → Kwargs H → List String
keywords k = given "name" k.name (
    given "priority" k.priority (
      given "policy" k.policy (
        given "exit_code" k.exit_code (
          given "wait_pid" k.wait_pid (
            given "size" k.size (
              given "permissions" k.permissions (
                given "region_id" k.region_id (
                  given "target_id" k.target_id (
                    given "local_address" k.local_address (
                      given "subject" k.subject (
                        given "message_type" k.message_type (
                          given "payload" k.payload
                            (given "timeout" k.timeout (given "wait" k.wait k.others))))))))))))))

unfoldable pub all_in : List String → List String → Bool
all_in [] allowed = true
all_in (x ∷ xs) allowed = member x allowed && all_in xs allowed

-- No keyword is given that the handler does not take.
unfoldable pub takes_only : {H : Host} → List String → Kwargs H → Bool
unfolding all_in member
takes_only allowed k = all_in (keywords k) allowed

-- The value of a `SyscallResult`: the dictionaries that the handlers build, one constructor each.
pub data Value (H : Host) : Type 0 where
  nothing : Value H
  -- {"pid": …}
  pid : ℕ → Value H
  -- {"exit_code": …}
  exit_code : ℤ → Value H
  -- {"status": "blocked"}
  blocked : Value H
  -- {"region_id": …, "address": …, "size": …}
  region : RegionId → ℕ → ℕ → Value H
  -- {"message_id": …}
  message_id : ℕ → Value H
  -- {"message_id", "message_type", "sender_id", "subject", "payload", "timestamp", "headers"}
  message : ℕ → IpcMessageType → ℕ → String → H.Any → H.Float → Dict String H.Any → Value H

pub record SyscallResult (H : Host) : Type 0 where
  pub success : Bool
  pub value : Value H
  pub error : Option String

abbrev pub succeed : {H : Host} → Value H → SyscallResult H
succeed v = record { success = true; value = v; error = none }

abbrev pub failure : {H : Host} → String → SyscallResult H
failure text = record { success = false; value = Value.nothing; error = some text }

-- How a handler ends.
pub data Outcome (H : Host) : Type 0 where
  returned : SyscallResult H → Outcome H
  raised : Exception → Outcome H
