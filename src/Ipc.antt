-- ===== src/Ipc.antt =====
-- Inter-process communication types of core_system.py.
use trinity_v4_ai_brain.Prelude.{ℕ, ℤ, String, Option, [], ◌∷◌}
use trinity_v4_ai_brain.Enum.{find_member}
use trinity_v4_ai_brain.Host.{Host}
use trinity_v4_ai_brain.Dict.{Dict}

pub data IpcMessageType : Type 0 where
  signal content request response event control : IpcMessageType

-- `auto()` counts from 1.
abbrev pub message_type_value : IpcMessageType → ℕ
message_type_value IpcMessageType.signal = 1
message_type_value IpcMessageType.content = 2
message_type_value IpcMessageType.request = 3
message_type_value IpcMessageType.response = 4
message_type_value IpcMessageType.event = 5
message_type_value IpcMessageType.control = 6

-- IPCMessageType(v)
abbrev pub message_type_of : ℤ → Option IpcMessageType
message_type_of = find_member message_type_value (
    IpcMessageType.signal ∷ IpcMessageType.content ∷ IpcMessageType.request
    ∷ IpcMessageType.response ∷ IpcMessageType.event ∷ IpcMessageType.control ∷ [])

-- A message id is the number behind its uuid.
pub record IpcMessage (H : Host) : Type 0 where
  pub message_id : ℕ
  pub message_type : IpcMessageType
  pub sender_id : ℕ
  pub target_id : ℕ
  pub subject : String
  pub payload : H.Any
  pub timestamp : H.Float
  pub timeout : H.Float
  pub headers : Dict String H.Any
