-- ===== src/Kernel.antt =====
-- `TrinityKernel` of trinity_service_main.py: loading and reloading the configuration, and draining.
pub mod Descriptor
pub mod Kept
pub mod Reload
pub mod Reloaded
use Prim.Native.String.{◌++◌ as str_append}
use trinity_v4_ai_brain.Prelude.{
  String, Bool, true, false, not, Option, none, some, string_eq, if◌then◌else◌,
}
use trinity_v4_ai_brain.Dict.{Dict, get, put, delete}
use trinity_v4_ai_brain.Json.{Json, bool, string, obj, field, end}
use trinity_v4_ai_brain.Web.{
  Web, Broker, World, Kernel, Fault, Result, attribute_error, file_not_found, path_error,
  decode_error, M, pure, raise, ◌>>=◌, ◌>>◌, attempt, some_or, of_result, perform,
}

-- The argument `config_path`: absent or false; a text; a number or `True`, which `open` takes for a
-- file descriptor, with its text in an f-string and what opening and reading it gives; or a true
-- value of another type, for which `open` raises.
pub data ConfigPath : Type 0 where
  default : ConfigPath
  at : String → ConfigPath
  descriptor : String → Result String → ConfigPath
  unusable : ConfigPath

-- f"{cfg_file}.tmp"
abbrev pub temporary : String → String
temporary path = str_append path ".tmp"

-- os.replace(source, target)
abbrev pub move : String → String → Dict String String → Dict String String
move source target files = elim (get files source) [
  | none ↦ files
  | some content ↦ put (delete files source) target content
]

-- What the two operations return.
module _ {F : Type 0} where
  abbrev pub reloaded : String → Json F
  reloaded rid = obj (
      field "success" (bool true)
        (field "message" (string "config reloaded") (field "rid" (string rid) end)))

  abbrev pub failure_reply : String → String → Json F
  failure_reply rid reason =
      obj (
        field "success" (bool false) (field "error" (string reason) (field "rid" (string rid) end)))

  abbrev pub drained : Bool → String → Json F
  drained enable rid = obj (
      field "success" (bool true) (
        field "message" (string (if enable then "drain enabled" else "drain cleared"))
          (field "ready" (bool (not enable)) (field "rid" (string rid) end))))

module _ {W : Web} where
  -- config_path or self.config_file, where it is a path
  abbrev pub file_of : Kernel W → ConfigPath → Option String
  file_of k default = some k.config_file
  file_of k (at path) = some path
  file_of k (descriptor text content) = none
  file_of k unusable = none

module _ {W : Web} {B : Broker W} where
  abbrev read_file : String → M (World B) String
  read_file path w = some_or file_not_found (get w.files path) w

  -- `with open(path) as fh: json.load(fh)`
  unfoldable pub load_config : String → M (World B) (Json W.Float)
  load_config path = do
    perform λ w. w
    content ← read_file path
    some_or decode_error (W.loads content)

  abbrev write_file : String → String → World B → World B
  write_file path content w = record w { files = put w.files path content }

  -- The new configuration is written beside the file and moved over it.
  unfoldable pub replace_config : String → Json W.Float → M (World B) (Unit {0})
  replace_config path config = do
    perform (write_file (temporary path) "")
    perform (write_file (temporary path) (W.dumps_indented config))
    perform λ w. record w { files = move (temporary path) path w.files }

  abbrev set_kernel : Kernel W → M (World B) (Unit {0})
  set_kernel k w = pure tt (record w { kernel = some k })

  -- list(new_cfg.keys())
  abbrev pub list_keys : Json W.Float → M (World B) (Unit {0})
  list_keys (obj fields) = pure tt
  list_keys _ = raise attribute_error

  -- The reload where the file is not named by a path. `os.replace` takes no number for one.
  pub reload_other : ConfigPath → M (World B) (Json W.Float)
  reload_other (descriptor text content) = do
    document ← of_result content
    config ← some_or decode_error (W.loads document)
    perform (write_file (temporary text) "")
    perform (write_file (temporary text) (W.dumps_indented config))
    raise path_error
  reload_other _ = raise path_error

  -- The `try` block, for the path that `file_of` gives.
  abbrev reload_file : Kernel W → ConfigPath → String → Option String → M (World B) (Json W.Float)
  reload_file k config_path rid none = reload_other config_path
  reload_file k config_path rid (some path) = do
    config ← load_config path
    replace_config path config
    set_kernel (record k { config = config })
    list_keys config
    pure (reloaded rid)

  unfoldable pub handle_reload : Kernel W → ConfigPath → String → M (World B) (Json W.Float)
  handle_reload k config_path rid =
      attempt (reload_file k config_path rid (file_of k config_path))
        (λ e. pure (failure_reply rid (W.str e)))

  -- No statement of the `try` block raises.
  unfoldable pub handle_drain : Kernel W → Bool → String → M (World B) (Json W.Float)
  handle_drain k enable rid w = pure (drained enable rid) (record w {
    kernel = some (record k { ready = not enable });
    server_ready = if k.has_server then some (not enable) else w.server_ready;
  })
