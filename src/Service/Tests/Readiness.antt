-- ===== src/Service/Tests/Readiness.antt =====
-- The theorems on the kernel and on readiness at concrete values.
use trinity_v4_ai_brain.Prelude.{
  ℕ, ℤ, String, Bool, true, false, Option, none, some, List, [], ◌∷◌, ◌≡◌, refl, sym, ap, ◌∙◌, ◌⊎◌,
  string_eq,
}
use trinity_v4_ai_brain.Dict.{empty, put, get, write, find}
use trinity_v4_ai_brain.Json.{Json, arr, nil, is_object}
use trinity_v4_ai_brain.Web.{World, Request, Fault, ok, perform, broken_pipe}
use trinity_v4_ai_brain.Web.Calm.{receive}
use trinity_v4_ai_brain.Web.Kept.{Keeps, Keeps-pure}
use trinity_v4_ai_brain.Api.{do_get, do_post}
use trinity_v4_ai_brain.Api.Drains.{do_post-drains}
use trinity_v4_ai_brain.Api.Guard.{do_post-guarded}
use trinity_v4_ai_brain.Events.Guard.{guarded}
use trinity_v4_ai_brain.Http.Sent.{json_response}
use trinity_v4_ai_brain.Service.Tests.{
  test_encodes, test_web, test_broker, stopped, running, test_kernel, request, no_muscle,
}
use trinity_v4_ai_brain.Api.Probes.{probe, do_get-probes}
use trinity_v4_ai_brain.Api.Ready.{At}
use trinity_v4_ai_brain.Events.Consume.{answered}
use trinity_v4_ai_brain.Kernel.{default, at, failure_reply, load_config, handle_reload}
use trinity_v4_ai_brain.Kernel.Reload.{Committed, Untouched, Replaced, handle_reload-all_or_nothing}
use trinity_v4_ai_brain.Kernel.Reloaded.{handle_reload-stores}
use trinity_v4_ai_brain.Service.{new_kernel, start_service}
use trinity_v4_ai_brain.Service.Run.{serve, expected, service-ready}

abbrev no_rounding : ℕ → Option ℤ
no_rounding x = none

abbrev free : Json ℕ → ℤ → Option Fault
free host port = none

no_muscle-Keeps :
    (r : Request test_web) (b : Bool) → Keeps (At {W = test_web} {B = test_broker} b) (no_muscle r)
no_muscle-Keeps r b = Keeps-pure (At b) false

-- A drain that is allowed, an undrain that is not.
abbrev drain_requests : List (Request test_web)
drain_requests = request (some "secret") "/system/drain" ∷ request none "/system/undrain" ∷ []

abbrev begun : World test_broker
begun = (start_service no_rounding free "config.json" stopped).1

begins : (start_service no_rounding free "config.json" stopped).0 ≡ ok tt
unfolding start_service new_kernel load_config perform get find put write empty
begins = refl

service-ready_example :
    At (expected no_muscle drain_requests begun true) (serve no_muscle drain_requests begun)
service-ready_example =
    service-ready no_rounding free "config.json" no_muscle drain_requests stopped no_muscle-Keeps
      refl refl begins

running-At : At true running
running-At = record {
  core = test_kernel;
  is_there = refl;
  has_server = refl;
  says = refl;
  server_says = refl;
}

do_get-probes_example :
    do_get 5 (request none "/readyz") running
    ≡ (ok answered, receive (probe true "ready\n" "not-ready\n") running)
do_get-probes_example = do_get-probes 5 true (request none "/readyz") running running-At refl refl

config-found : get running.files "config.json" ≡ some "{}"
unfolding get find put write empty
config-found = refl

list-found : get running.files "list.json" ≡ some "[]"
unfolding get find put write empty
list-found = refl

handle_reload-stores_example :
    (s : World test_broker) × (Replaced "list.json" running (arr nil) s
      × (handle_reload test_kernel (at "list.json") "rid" running ≡ (
        ok (failure_reply "rid" "an exception"),
        record s { kernel = some (record test_kernel { config = arr nil }) },
      )))
handle_reload-stores_example =
    handle_reload-stores "list.json" running refl test_kernel (at "list.json") "rid" "[]" (arr nil)
      refl list-found refl

abbrev failing : World test_broker
failing = record running { faults = none ∷ some broken_pipe ∷ [] }

abbrev parsed_object : Option (Json ℕ) → Bool
parsed_object none = true
parsed_object (some j) = is_object j

-- Whether a file that is found and parsed holds an object.
abbrev holds_object : Option String → Bool
holds_object none = true
holds_object (some content) = parsed_object (test_web.loads content)

config-objects :
    (content : String) (config : Json ℕ)
    → get failing.files "config.json" ≡ some content
    → test_web.loads content ≡ some config
    → is_object config ≡ true
config-objects content config there parsed =
    sym (ap parsed_object parsed) ∙ ap holds_object (sym there ∙ config-found)

handle_reload-all_or_nothing_example :
    Committed "config.json" failing test_kernel "rid"
      (handle_reload test_kernel default "rid" failing)
    ⊎ Untouched "config.json" failing "rid" (handle_reload test_kernel default "rid" failing)
handle_reload-all_or_nothing_example =
    handle_reload-all_or_nothing "config.json" failing test_kernel default "rid" refl config-objects

do_post-guarded_example :
    guarded (do_post no_muscle (request none "/system/reload") running).1 ≡ guarded running
do_post-guarded_example =
    do_post-guarded no_muscle (request none "/system/reload") running refl refl refl

do_post-drains_example : do_post no_muscle (request (some "secret") "/system/drain") running ≡ (
  ok tt,
  record running {
    limits = 1;
    kernel = some (record test_kernel { ready = false });
    server_ready = some false;
    written = json_response 200 "{ }";
  },
)
do_post-drains_example =
    do_post-drains test_encodes true no_muscle (request (some "secret") "/system/drain") running
      test_kernel "alice" refl refl refl refl
