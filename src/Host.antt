-- ===== src/Host.antt =====
-- What core_system.py takes from Python and does not implement: floats, values of type `Any`,
-- and the text of an exception. A `Host` gives them; nothing is assumed of it.
use trinity_v4_ai_brain.Prelude.{ℕ, ℤ, String, List}

-- The exceptions that the modelled code can raise.
pub data Exception : Type 0 where
  -- a call with a keyword missing or one too many: the handler, and the keywords given
  type_error : String → List String → Exception
  -- an enumeration called on a value that no member has
  value_error : String → ℤ → Exception
  -- a dictionary of processes read at an absent key
  key_error : ℕ → Exception
  -- the dictionary of memory regions read at an absent key
  region_key_error : Exception

pub record Host : Type 1 where
  pub Float : Type 0
  -- 0 and 0.0
  pub zero_seconds : Float
  -- 0.01
  pub default_time_slice : Float
  -- 1.0
  pub default_weight : Float
  pub add : Float → Float → Float
  pub sub : Float → Float → Float
  -- a float divided by a positive int
  pub div : Float → ℕ → Float
  pub Any : Type 0
  -- `None`
  pub nothing : Any
  -- `str(n)` of a non-negative int
  pub decimal : ℕ → String
  -- `str(e)`
  pub str : Exception → String

-- What one system call reads from the outside: the clock before and after the handler, the clock
-- at each object that the handler creates, in order, and the number behind `uuid.uuid4()`.
pub record Env (H : Host) : Type 0 where
  pub started : H.Float
  pub finished : H.Float
  pub created : ℕ → H.Float
  pub uuid : ℕ
