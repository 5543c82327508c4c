-- ===== src/Kernel/Kept.antt =====
-- What the operations of `TrinityKernel` keep, on every path.
use trinity_v4_ai_brain.Prelude.{String, Option, none, some, string_eq}
use trinity_v4_ai_brain.Dict.{Dict, get}
use trinity_v4_ai_brain.Json.{Json, obj}
use trinity_v4_ai_brain.Web.{
  Web, Broker, World, Kernel, file_not_found, path_error, decode_error, attribute_error, perform,
}
use trinity_v4_ai_brain.Web.Kept.{
  Keeps, IgnoresWire, Keeps-bind, Keeps-attempt, Keeps-some_or, Keeps-of_result, Keeps-perform,
  Keeps-pure, Keeps-raise,
}
use trinity_v4_ai_brain.Kernel.{
  ConfigPath, temporary, file_of, read_file, load_config, write_file, replace_config, set_kernel,
  list_keys, reload_other, reload_file, reloaded, failure_reply, handle_reload,
}

-- `P` does not look at the files.
abbrev pub IgnoresFiles : {W : Web} {B : Broker W} → (World B → Type 0) → Type 0
IgnoresFiles {B} P =
    (w : World B) (files : Dict String String) → P w → P (record w { files = files })

module _ {W : Web} {B : Broker W} (P : World B → Type 0) (wire : IgnoresWire P) where
  read_file-Keeps : (path : String) → Keeps P (read_file path)
  read_file-Keeps path = record {
    at = λ w p. (Keeps-some_or P file_not_found (get w.files path)).at w p;
  }

  pub load_config-Keeps : (path : String) → Keeps P (load_config path)
  unfolding load_config
  load_config-Keeps path = Keeps-bind P _ _ (Keeps-perform P (λ w. w) wire (λ w p. p)) λ _.
      Keeps-bind P _ _ (read_file-Keeps path)
        λ content. Keeps-some_or P decode_error (W.loads content)

  list_keys-Keeps : (j : Json W.Float) → Keeps P (list_keys j)
  list_keys-Keeps (obj fields) = Keeps-pure P tt
  list_keys-Keeps _ = Keeps-raise P attribute_error

  module _ (ignores : IgnoresFiles P) where
    write_file-Keeps : (path content : String) → Keeps P (perform (write_file path content))
    write_file-Keeps path content = Keeps-perform P _ wire (λ w p. ignores w _ p)

    replace_config-Keeps :
        (path : String) (config : Json W.Float) → Keeps P (replace_config path config)
    unfolding replace_config
    replace_config-Keeps path config = Keeps-bind P _ _ (write_file-Keeps (temporary path) "") λ _.
        Keeps-bind P _ _ (write_file-Keeps (temporary path) (W.dumps_indented config))
          λ _. Keeps-perform P _ wire (λ w p. ignores w _ p)

    reload_other-Keeps : (path : ConfigPath) → Keeps P (reload_other path)
    unfolding reload_other
    reload_other-Keeps (ConfigPath.descriptor text content) =
        Keeps-bind P _ _ (Keeps-of_result P content) λ document.
          Keeps-bind P _ _ (Keeps-some_or P decode_error (W.loads document)) λ config.
            Keeps-bind P _ _ (write_file-Keeps (temporary text) "") λ _.
              Keeps-bind P _ _ (write_file-Keeps (temporary text) (W.dumps_indented config))
                λ _. Keeps-raise P path_error
    reload_other-Keeps _ = Keeps-raise P path_error

    reload_file-Keeps :
        (k : Kernel W)
        → ((w : World B) (config : Json W.Float)
            → P w
            → P (record w { kernel = some (record k { config = config }) }))
        → (path : ConfigPath) (rid : String) (file : Option String)
        → Keeps P (reload_file k path rid file)
    reload_file-Keeps k sets path rid none = reload_other-Keeps path
    reload_file-Keeps k sets path rid (some file) =
        Keeps-bind P _ _ (load_config-Keeps file) λ config.
          Keeps-bind P _ _ (replace_config-Keeps file config) λ _.
            Keeps-bind P (set_kernel (record k { config = config })) _
              (record { at = λ w p. sets w config p })
              λ _. Keeps-bind P _ _ (list_keys-Keeps config) λ _. Keeps-pure P (reloaded rid)

    pub handle_reload-Keeps :
        (k : Kernel W)
        → ((w : World B) (config : Json W.Float)
            → P w
            → P (record w { kernel = some (record k { config = config }) }))
        → (path : ConfigPath) (rid : String) → Keeps P (handle_reload k path rid)
    unfolding handle_reload
    handle_reload-Keeps k sets path rid =
        Keeps-attempt P _ _ (reload_file-Keeps k sets path rid (file_of k path))
          (λ e. Keeps-pure P (failure_reply rid (W.str e)))
