-- ===== src/Service.antt =====
-- The start of the service, `main` of trinity_service_main.py up to the server's loop.
pub mod Run
mod Tests
use trinity_v4_ai_brain.Prelude.{
  ℤ, pos, String, Bool, true, false, Option, none, some, if◌then◌else◌,
}
use trinity_v4_ai_brain.Json.{
  Json, Fields, null, bool, int, float, string, arr, obj, find, get_or, truth,
}
use trinity_v4_ai_brain.Web.{
  Web, Broker, World, Kernel, Fault, failed, M, pure, raise, ◌>>=◌, ◌>>◌, some_or,
}
use trinity_v4_ai_brain.Events.{with_fields}
use trinity_v4_ai_brain.Kernel.{load_config}

-- first or second, where `first` may be missing
abbrev pub or_else : {F : Type 0} → (F → Bool) → Option (Json F) → Json F → Json F
or_else nonzero none second = second
or_else nonzero (some first) second = if truth nonzero first then first else second

-- int(value); `round_down` is `int` of a float.
abbrev pub to_int : {F : Type 0} → (String → Option ℤ) → (F → Option ℤ) → Json F → Option ℤ
to_int parse_int round_down (int n) = some n
to_int parse_int round_down (bool b) = some (pos (if b then 1 else 0))
to_int parse_int round_down (float x) = round_down x
to_int parse_int round_down (string s) = parse_int s
to_int parse_int round_down _ = none

module _ (W : Web) where
  abbrev pub host_of : Fields W.Float → Json W.Float
  host_of config =
      or_else W.nonzero (find "api_host" config) (get_or "host" (string "127.0.0.1") config)

  abbrev pub port_of : (W.Float → Option ℤ) → Fields W.Float → Option ℤ
  port_of round_down config =
      to_int W.parse_int round_down
        (or_else W.nonzero (find "api_port" config) (get_or "port" (int (pos 8099)) config))

module _ {W : Web} {B : Broker W} where
  -- TrinityKernel(config_file)
  unfoldable pub new_kernel : String → M (World B) (Kernel W)
  new_kernel config_file = do
    config ← load_config config_file
    pure (record { config_file = config_file; config = config; ready = true; has_server = false })

  new_server : Option Fault → M (World B) (Unit {0})
  new_server none = pure tt
  new_server (some e) = raise e

  -- The server knows the kernel and is ready, and the kernel knows the server.
  install : Kernel W → M (World B) (Unit {0})
  install k w =
      pure tt
        (record w { kernel = some (record k { has_server = true }); server_ready = some true })

  -- `listen` is the making of the HTTP server for an address: it is made, or not.
  unfoldable pub start_service :
      (W.Float → Option ℤ) → (Json W.Float → ℤ → Option Fault) → String → M (World B) (Unit {0})
  unfolding new_server install
  start_service round_down listen config_file = do
    k ← new_kernel config_file
    with_fields k.config λ config. do
      port ← some_or (failed "port") (port_of W round_down config)
      new_server (listen (host_of W config) port)
      install k
