-- ===== src/Api.antt =====
-- `APIHandler` of trinity_service_main.py: its probes and its routes.
pub mod Drains
pub mod Guard
pub mod Paths
pub mod Probes
pub mod Ready
use package.text.Mathlib.Text.{starts_with}
use trinity_v4_ai_brain.Prelude.{
  ℕ, ℤ, pos, String, Bool, true, false, ◌||◌, Option, none, some, List, [], ◌∷◌, ◌==◌, string_eq,
  if◌then◌else◌,
}
use trinity_v4_ai_brain.Json.{
  Json, Fields, null, bool, int, float, string, arr, obj, field, end, find, get_or, truth, is_zero,
}
use trinity_v4_ai_brain.Web.{
  Web, Broker, World, Kernel, Request, Fault, attribute_error, M, pure, raise, ◌>>=◌, ◌>>◌, some_or,
  perform, emit, send_head, authorized, status, header, end_headers, chunk, error_page, Limiter,
  system,
}
use trinity_v4_ai_brain.Http.{
  api_json, api_body, refusal, success, forbidden, not_found, internal_error, unavailable,
}
use trinity_v4_ai_brain.Events.{handle_events_post, with_fields}
use trinity_v4_ai_brain.Events.Consume.{Progress, passed, answered, streaming, handle_events_get}
use trinity_v4_ai_brain.Kernel.{
  ConfigPath, default, at, descriptor, unusable, load_config, handle_reload, handle_drain,
}

-- `_scopes_for_path`
abbrev pub scopes_for_path : String → Option (List String)
scopes_for_path path =
    if path == "/system/reload"
    then some ("system:reload" ∷ [])
    else if path == "/system/drain" || path == "/system/undrain"
    then some ("system:drain" ∷ [])
    else none

abbrev pub is_set : {A : Type 0} → Option A → Bool
is_set none = false
is_set (some a) = true

-- getattr(self.server, "ready", True)
abbrev pub shows_ready : Option Bool → Bool
shows_ready none = true
shows_ready (some b) = b

module _ {W : Web} (r : Request W) where
  -- body.get("config_path"), as `config_path or …` and `open` read it
  abbrev pub config_path_of : Option (Json W.Float) → ConfigPath
  config_path_of none = default
  config_path_of (some (string s)) = if s == "" then default else at s
  config_path_of (some (int n)) =
      if is_zero n then default else descriptor (W.decimal n) (r.descriptor n)
  config_path_of (some (bool true)) = descriptor "True" (r.descriptor (pos 1))
  config_path_of (some j) = if truth W.nonzero j then unusable else default

module _ {W : Web} {B : Broker W} where
  -- A plain answer of the two probes.
  unfoldable pub plain : Bool → String → String → M (World B) (Unit {0})
  plain good yes_text no_text = do
    send_head (if good then success else unavailable) (header "Content-Type" "text/plain" ∷ [])
    emit (chunk (if good then yes_text else no_text))

  abbrev healthz : M (World B) Progress
  healthz w = (plain (is_set w.kernel) "ok\n" "unhealthy\n" >> pure answered) w

  abbrev readyz : M (World B) Progress
  readyz w = (plain (shows_ready w.server_ready) "ready\n" "not-ready\n" >> pure answered) w

  after_events : Progress → M (World B) Progress
  after_events passed = emit (error_page not_found "Not found") >> pure answered
  after_events p = pure p

  -- do_GET, with at most `fuel` rounds of an event stream observed
  unfoldable pub do_get : ℕ → Request W → M (World B) Progress
  unfolding after_events
  do_get fuel r =
      if r.path == "/healthz"
      then healthz
      else if r.path == "/readyz"
      then readyz
      else handle_events_get fuel r >>= after_events

  -- self._json(res, code=(OK if res.get("success") else INTERNAL_SERVER_ERROR))
  abbrev pub reply_result : Json W.Float → M (World B) (Unit {0})
  reply_result res = with_fields res λ fields.
      api_json res
        (if truth W.nonzero (get_or "success" null fields) then success else internal_error)

  unknown : M (World B) (Unit {0})
  unknown = api_json (refusal "unknown endpoint") not_found

  reload : Request W → Json W.Float → Kernel W → M (World B) (Unit {0})
  reload r body k = with_fields body λ fields.
      handle_reload k (config_path_of r (find "config_path" fields)) r.rid >>= reply_result

  -- An authorised operation on the kernel.
  operate : Request W → Json W.Float → Option (Kernel W) → M (World B) (Unit {0})
  operate r body none = api_json (refusal "kernel unavailable") unavailable
  operate r body (some k) =
      if r.path == "/system/reload"
      then reload r body k
      else if r.path == "/system/drain"
      then handle_drain k true r.rid >>= reply_result
      else if r.path == "/system/undrain"
      then handle_drain k false r.rid >>= reply_result
      else unknown

  admitted_system : Request W → Bool × String → M (World B) (Unit {0})
  admitted_system r (false, sub) w = api_json (refusal sub) forbidden w
  admitted_system r (true, sub) w = operate r (api_body r) w.kernel w

  pub system_post : Request W → Option (List String) → M (World B) (Unit {0})
  system_post r none = unknown
  system_post r (some scopes) =
      authorized (r.headers "Authorization") scopes system >>= admitted_system r

  after_routes : Request W → Bool → M (World B) (Unit {0})
  after_routes r true = pure tt
  after_routes r false = system_post r (scopes_for_path r.path)

  events_route : Request W → Bool → M (World B) (Unit {0})
  events_route r true = pure tt
  events_route r false =
      (if starts_with r.path "/events/" then handle_events_post r else pure false)
      >>= after_routes r

  -- do_POST; `muscle` is `handle_POST` of the package trinity_os.
  unfoldable pub do_post : (Request W → M (World B) Bool) → Request W → M (World B) (Unit {0})
  unfolding events_route after_routes system_post admitted_system operate reload unknown
  do_post muscle r =
      (if starts_with r.path "/muscle/" then muscle r else pure false) >>= events_route r
