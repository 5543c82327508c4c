-- ===== src/Kernel/Descriptor.antt =====
-- `handle_reload` of trinity_service_main.py for a `config_path` that is no text.
use trinity_v4_ai_brain.Prelude.{String}
use trinity_v4_ai_brain.Json.{Json}
use trinity_v4_ai_brain.Web.{Web, Broker, World, Kernel, Result}
use trinity_v4_ai_brain.Web.Ends.{Ends}
use trinity_v4_ai_brain.Kernel.Reload.{Same}

module _ {W : Web} {B : Broker W} (text : String) (w : World B) where
  -- It raises, and nothing has changed but perhaps the temporary file.
  abbrev Fails : {A : Type 0} → Result A × World B → Type 0
  Fails = Ends (λ _ _. ⊥) (Same text w)
