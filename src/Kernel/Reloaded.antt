-- ===== src/Kernel/Reloaded.antt =====
-- `handle_reload` of trinity_service_main.py where no operation fails.
use trinity_v4_ai_brain.Prelude.{String, some, ◌≡◌, refl, ap, ◌∙◌, string_eq, if◌then◌else◌, []}
use trinity_v4_ai_brain.Dict.{get}
use trinity_v4_ai_brain.Dict.Laws.{get-put}
use trinity_v4_ai_brain.Json.{Json, obj, is_object}
use trinity_v4_ai_brain.Web.{
  Web, Broker, World, Kernel, ok, attribute_error, perform, ◌>>◌, pure, recover,
}
use trinity_v4_ai_brain.Web.Calm.{bind-ok, perform-calm}
use trinity_v4_ai_brain.Kernel.{
  ConfigPath, temporary, move, file_of, read_file, load_config, write_file, replace_config,
  list_keys, reloaded, failure_reply, handle_reload,
}
use trinity_v4_ai_brain.Kernel.Reload.{Replaced, move-Replaced, Same-write, beq_refl}

module _ {W : Web} {B : Broker W} (file : String) (w : World B) (calm : w.faults ≡ []) where
  load_config-calm :
      (content : String) (config : Json W.Float)
      → get w.files file ≡ some content
      → W.loads content ≡ some config
      → load_config file w ≡ (ok config, w)
  unfolding load_config
  load_config-calm content config there parsed =
      bind-ok (perform λ v. v) _ w w tt (perform-calm (λ v. v) w calm)
      ∙ bind-ok (read_file file) _ w w content (rw (there) refl)
      ∙ rw (parsed) refl

  -- The world with the new document in the file.
  abbrev after : Json W.Float → World B
  after config =
      let written =
        write_file (temporary file) (W.dumps_indented config) (write_file (temporary file) "" w) in
      record written { files = move (temporary file) file written.files }

  replace_config-calm :
      (config : Json W.Float) → replace_config file config w ≡ (ok tt, after config)
  unfolding replace_config
  replace_config-calm config =
      bind-ok (perform (write_file (temporary file) "")) _ w _ tt (perform-calm _ w calm)
      ∙ bind-ok (perform (write_file (temporary file) (W.dumps_indented config))) _ _ _ tt
          (perform-calm _ (write_file (temporary file) "" w) calm)
      ∙ perform-calm _
          (write_file (temporary file) (W.dumps_indented config) (write_file (temporary file) "" w))
          calm

  after-Replaced : (config : Json W.Float) → Replaced file w config (after config)
  after-Replaced config =
      move-Replaced file w config _
        (Same-write file w _ _ w.faults
          (Same-write file w w _ w.faults (record { kernel = refl; rest = λ p other. refl })))
        (rw (get-put, beq_refl (temporary file)) refl)

  list_keys-reply :
      (rid : String) (config : Json W.Float) (s : World B)
      → recover
          ((list_keys config >> pure (reloaded {F = W.Float} rid)) s)
          (λ e. pure (failure_reply rid (W.str e)))
        ≡ (
          ok (if is_object config then reloaded rid else failure_reply rid (W.str attribute_error)),
          s,
        )
  list_keys-reply rid (obj fields) s = refl
  list_keys-reply rid _ s = refl

  -- If no operation fails and the chosen file is found and parsed, a reload stores the document
  -- in the file and in the kernel, removes the temporary file and leaves the other files; it
  -- reports success if the document is an object, and otherwise a failure, although both are
  -- replaced.
  pub handle_reload-stores :
      (k : Kernel W) (config_path : ConfigPath) (rid content : String) (config : Json W.Float)
      → file_of k config_path ≡ some file
      → get w.files file ≡ some content
      → W.loads content ≡ some config
      → (s : World B) × (Replaced file w config s
          × (handle_reload k config_path rid w ≡ (
            ok (
                if is_object config
                then reloaded rid
                else failure_reply rid (W.str attribute_error)),
            record s { kernel = some (record k { config = config }) },
          )))
  unfolding handle_reload
  handle_reload-stores k config_path rid content config chosen there parsed =
      let s = after config in
      let stored = record s { kernel = some (record k { config = config }) } in
      (
        s,
        (
          after-Replaced config,
          rw (chosen) (
              ap (λ x. recover x (λ e. pure (failure_reply rid (W.str e))))
                (bind-ok (load_config file) _ w w config
                    (load_config-calm content config there parsed)
                  ∙ bind-ok (replace_config file config) _ w s tt (replace_config-calm config))
              ∙ list_keys-reply rid config stored),
        ),
      )
