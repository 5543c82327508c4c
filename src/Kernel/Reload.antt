-- ===== src/Kernel/Reload.antt =====
-- `handle_reload` of trinity_service_main.py, whatever fails.
use Prim.Native.String.{len}
use text.Mathlib.TextPositions.{len-append}
use trinity_v4_ai_brain.Prelude.{
  String, true, false, Option, none, some, ◌==◌, ◌≡◌, ◌≢◌, refl, ap, sym, string_eq, ◌⊎◌, inl, inr,
  ◌∙◌, Bool-cases, arith, List,
}
use trinity_v4_ai_brain.Dict.{Dict, get, put, delete}
use trinity_v4_ai_brain.Dict.Laws.{get-put, get-delete}
use trinity_v4_ai_brain.Json.{Json, obj, is_object}
use trinity_v4_ai_brain.Web.{
  Web, Broker, World, Kernel, Fault, Result, ok, raised, file_not_found, decode_error, perform,
  ◌>>◌, pure, recover,
}
use trinity_v4_ai_brain.Web.Ends.{Ends, Ends-bind, Ends-some_or, Ends-perform}
use trinity_v4_ai_brain.Kernel.{
  ConfigPath, temporary, move, file_of, read_file, load_config, write_file, replace_config,
  set_kernel, list_keys, reloaded, failure_reply, handle_reload,
}

pub temporary-other : (path : String) → path ≢ temporary path
temporary-other path e =
    let l = ap len e in let k = len-append path ".tmp" in absurd (omega (arith, l, k))

pub beq_refl : (a : String) → (a == a) ≡ true
beq_refl a = (string_eq.beq_iff a a).1 refl

beq-other : (a b : String) → b ≢ a → (a == b) ≡ false
beq-other a b other = elim (Bool-cases (a == b)) [
  | inl e ↦ absurd (other (sym ((string_eq.beq_iff a b).0 e)))
  | inr e ↦ e
]

move-there :
    (source target : String) (files : Dict String String) (content : String)
    → get files source ≡ some content
    → move source target files ≡ put (delete files source) target content
move-there source target files content e = rw (move, e) refl

pub list_keys-object :
    {W : Web} {B : Broker W} (j : Json W.Float) → is_object j ≡ true → list_keys {B = B} j ≡ pure tt
list_keys-object (obj fields) e = refl
list_keys-object _ e = absurd (cc e)

module _ {W : Web} {B : Broker W} (file : String) (w : World B) where
  -- Nothing has changed but perhaps the temporary file.
  pub record Same (s : World B) : Type 0 where
    pub kernel : s.kernel ≡ w.kernel
    pub rest : (p : String) → p ≢ temporary file → get s.files p ≡ get w.files p

  -- The document `config` stands in the file, which the kernel does not know yet.
  pub record Replaced (config : Json W.Float) (s : World B) : Type 0 where
    pub kernel : s.kernel ≡ w.kernel
    pub stored : get s.files file ≡ some (W.dumps_indented config)
    pub cleared : get s.files (temporary file) ≡ none
    pub others : (p : String) → p ≢ temporary file → p ≢ file → get s.files p ≡ get w.files p

  abbrev Source : Json W.Float → Type 0
  Source config =
      (content : String) × ((get w.files file ≡ some content) × (W.loads content ≡ some config))

  pub Same-faults :
      (s : World B) (faults : List (Option Fault)) → Same s → Same (record s { faults = faults })
  Same-faults s faults h = record { kernel = h.kernel; rest = h.rest }

  pub Same-write :
      (s : World B) (content : String) (faults : List (Option Fault))
      → Same s
      → Same (write_file (temporary file) content (record s { faults = faults }))
  Same-write s content faults h = record {
    kernel = h.kernel;
    rest = λ p other. rw (get-put, beq-other (temporary file) p other) (h.rest p other);
  }

  load_config-Ends :
      (s : World B) → Same s → Ends (λ config t. Source config × Same t) Same (load_config file s)
  unfolding load_config
  load_config-Ends s h =
      Ends-bind (λ _ t. Same t) _ _ (perform λ v. v) _ s
        (Ends-perform _ _ (λ v. v) s (λ fs. Same-faults s fs h) (λ fs. Same-faults s fs h))
        λ _ t ht.
          Ends-bind (λ content v. (get w.files file ≡ some content) × Same v) _ _ (read_file file) _
            t
            (Ends-some_or _ _ file_not_found (get t.files file) t
              (λ content e. (sym (ht.rest file (temporary-other file)) ∙ e, ht)) ht)
            λ content v hv.
              Ends-some_or _ _ decode_error (W.loads content) v
                (λ config e. ((content, (hv.0, e)), hv.1)) hv.1

  pub move-Replaced :
      (config : Json W.Float) (s : World B)
      → Same s
      → get s.files (temporary file) ≡ some (W.dumps_indented config)
      → Replaced config (record s { files = move (temporary file) file s.files })
  move-Replaced config s h e =
      let moved = move-there (temporary file) file s.files _ e in
      record {
        kernel = h.kernel;
        stored = rw (moved, get-put, beq_refl file) refl;
        cleared =
            rw
              (
                moved,
                get-put,
                beq-other file (temporary file) (λ e. temporary-other file (sym e)),
                get-delete,
                beq_refl (temporary file),
              )
              refl;
        others = λ p a b.
            rw (moved, get-put, beq-other file p b, get-delete, beq-other (temporary file) p a)
              (h.rest p a);
      }

  replace_config-Ends :
      (config : Json W.Float) (s : World B)
      → Same s
      → Ends (λ _ t. Replaced config t) Same (replace_config file config s)
  unfolding replace_config
  replace_config-Ends config s h =
      Ends-bind (λ _ t. Same t) _ _ (perform (write_file (temporary file) "")) _ s
        (Ends-perform _ _ _ s (λ fs. Same-write s "" fs h) (λ fs. Same-faults s fs h))
        λ _ t ht.
          Ends-bind
            (λ _ v. Same v × (get v.files (temporary file) ≡ some (W.dumps_indented config))) _ _
            (perform (write_file (temporary file) (W.dumps_indented config))) _ t
            (Ends-perform _ _ _ t
              (λ fs. (Same-write t _ fs ht, rw (get-put, beq_refl (temporary file)) refl))
              (λ fs. Same-faults t fs ht))
            λ _ v hv.
              Ends-perform _ _ _ v
                (λ fs. move-Replaced config (record v { faults = fs }) (Same-faults v fs hv.0) hv.1)
                (λ fs. Same-faults v fs hv.0)

  -- The new document is in the file and in the kernel, and success is reported.
  pub record Committed (k : Kernel W) (rid : String) (outcome : Result (Json W.Float) × World B)
      : Type 0 where
    pub config : Json W.Float
    pub source : Source config
    pub kernel : outcome.1.kernel ≡ some (record k { config = config })
    pub stored : get outcome.1.files file ≡ some (W.dumps_indented config)
    pub cleared : get outcome.1.files (temporary file) ≡ none
    pub others :
        (p : String) → p ≢ temporary file → p ≢ file → get outcome.1.files p ≡ get w.files p
    pub reply : outcome.0 ≡ ok (reloaded rid)

  -- A failure is reported, and nothing has changed but perhaps the temporary file.
  pub record Untouched (rid : String) (outcome : Result (Json W.Float) × World B) : Type 0 where
    pub reason : Fault
    pub same : Same outcome.1
    pub reply : outcome.0 ≡ ok (failure_reply rid (W.str reason))

  reload_tail-Ends :
      (k : Kernel W) (rid : String) (config : Json W.Float) (s : World B)
      → is_object config ≡ true
      → Source config
      → Replaced config s
      → Ends
          (λ reply t. Committed k rid (ok reply, t))
          Same
          ((set_kernel (record k { config = config }) >> (list_keys config >> pure (reloaded rid)))
            s)
  reload_tail-Ends k rid config s object source h =
      rw (list_keys-object {W = W} {B = B} config object) (record {
        config = config;
        source = source;
        kernel = refl;
        stored = h.stored;
        cleared = h.cleared;
        others = h.others;
        reply = refl;
      })

  recover-Ends :
      (k : Kernel W) (rid : String) (x : Result (Json W.Float) × World B)
      → Ends (λ reply t. Committed k rid (ok reply, t)) Same x
      → Committed k rid (recover x (λ e. pure (failure_reply rid (W.str e))))
        ⊎ Untouched rid (recover x (λ e. pure (failure_reply rid (W.str e))))
  recover-Ends k rid (ok reply, s) h = inl h
  recover-Ends k rid (raised e, s) h = inr (record { reason = e; same = h; reply = refl })

  -- If the chosen file, where it is found and parsed, holds an object, then a reload either
  -- succeeds, with the document in the file and in the kernel, no temporary file, and the other
  -- files as before, or reports a failure, with the kernel and every file but perhaps the
  -- temporary one as before, whichever operations fail.
  pub handle_reload-all_or_nothing :
      (k : Kernel W) (config_path : ConfigPath) (rid : String)
      → file_of k config_path ≡ some file
      → ((content : String) (config : Json W.Float)
          → get w.files file ≡ some content
          → W.loads content ≡ some config
          → is_object config ≡ true)
      → Committed k rid (handle_reload k config_path rid w)
        ⊎ Untouched rid (handle_reload k config_path rid w)
  unfolding handle_reload
  handle_reload-all_or_nothing k config_path rid chosen object = rw (chosen) (
      recover-Ends k rid _ (
        Ends-bind (λ config t. Source config × Same t) _ _ (load_config file) _ w
          (load_config-Ends w (record { kernel = refl; rest = λ p other. refl }))
          λ config t ht.
            Ends-bind (λ _ v. Replaced config v) _ _ (replace_config file config) _ t
              (replace_config-Ends config t ht.1)
              λ _ v hv.
                reload_tail-Ends k rid config v (object ht.0.0 config ht.0.1.0 ht.0.1.1) ht.0 hv))
