-- ===== src/Service/Run.antt =====
-- Readiness from the start of the service on: its run against a machine that has only the one flag.
use trinity_v4_ai_brain.Prelude.{
  ℤ, String, Bool, true, Option, none, some, List, [], ◌∷◌, ◌≡◌, refl, string_eq, if◌then◌else◌,
}
use trinity_v4_ai_brain.Json.{Json, obj}
use trinity_v4_ai_brain.Web.{
  Web, Broker, World, Kernel, Request, Fault, failed, Result, ok, raised, M, some_or, ◌>>=◌, ◌>>◌,
}
use trinity_v4_ai_brain.Web.Kept.{Keeps}
use trinity_v4_ai_brain.Web.Ends.{Ends, Ends-bind, Ends-some_or}
use trinity_v4_ai_brain.Events.{with_fields}
use trinity_v4_ai_brain.Events.Guard.{permitted}
use trinity_v4_ai_brain.Api.{do_post}
use trinity_v4_ai_brain.Api.Ready.{At, do_post-ready}
use trinity_v4_ai_brain.Api.Paths.{next_ready, system_demand}
use trinity_v4_ai_brain.Kernel.{load_config}
use trinity_v4_ai_brain.Kernel.Kept.{load_config-Keeps}
use trinity_v4_ai_brain.Service.{new_kernel, port_of, host_of, new_server, install, start_service}

module _ {W : Web} {B : Broker W} where
  Keeps-Ends :
      {A : Type 0} (P : World B → Type 0) (m : M (World B) A) (w : World B)
      → Keeps P m
      → P w
      → Ends (λ _. P) P (m w)
  Keeps-Ends P m w keeps p = ends (m w) (keeps.at w p)
    where
      ends : {A : Type 0} (x : Result A × World B) → P x.1 → Ends (λ (a : A). P) P x
      ends (ok a, s) q = q
      ends (raised e, s) q = q

module _ {W : Web} {B : Broker W} where
  -- The service has no kernel and no server yet.
  abbrev Down : World B → Type 0
  Down w = (w.kernel ≡ none) × (w.server_ready ≡ none)

  listen-Ends :
      (x : Option Fault) (k : Kernel W) (w : World B)
      → k.ready ≡ true
      → Down w
      → Ends (λ _. At true) Down ((new_server x >> install k) w)
  unfolding new_server install
  listen-Ends none k w ready down = record {
    core = record k { has_server = true };
    is_there = refl;
    has_server = refl;
    says = ready;
    server_says = refl;
  }
  listen-Ends (some e) k w ready down = down

  listening-Ends :
      (round_down : W.Float → Option ℤ) (listen : Json W.Float → ℤ → Option Fault) (k : Kernel W)
      (j : Json W.Float) (w : World B)
      → k.ready ≡ true
      → Down w
      → Ends
          (λ _. At true)
          Down
          (with_fields j
            (λ config. some_or (failed "port") (port_of W round_down config) >>= λ port.
              new_server (listen (host_of W config) port) >> install k)
            w)
  listening-Ends round_down listen k (obj config) w ready down =
      Ends-bind (λ _. Down) _ _ (some_or (failed "port") (port_of W round_down config)) _ w
        (Ends-some_or _ _ (failed "port") (port_of W round_down config) w (λ a e. down) down)
        λ port t ht. listen-Ends (listen (host_of W config) port) k t ready ht
  listening-Ends round_down listen k _ w ready down = down

  start_service-Ends :
      (round_down : W.Float → Option ℤ) (listen : Json W.Float → ℤ → Option Fault)
      (config_file : String) (w : World B)
      → Down w
      → Ends (λ _. At true) Down (start_service round_down listen config_file w)
  unfolding start_service new_kernel
  start_service-Ends round_down listen config_file w down =
      Ends-bind (λ k v. (k.ready ≡ true) × Down v) _ _ (new_kernel config_file) _ w
        (Ends-bind (λ _. Down) _ _ (load_config config_file) _ w
          (Keeps-Ends Down (load_config config_file) w
            (load_config-Keeps Down (λ v fs fr p. p) config_file) down)
          λ config t ht. (refl, ht))
        λ k t ht. listening-Ends round_down listen k k.config t ht.0 ht.1

  ends-ok :
      (Q R : World B → Type 0) (x : Result (Unit {0}) × World B)
      → x.0 ≡ ok tt
      → Ends (λ _. Q) R x
      → Q x.1
  ends-ok Q R (ok done, s) e q = q
  ends-ok Q R (raised e, s) f q = absurd (cc f)

  -- POST requests, one after the other.
  pub serve : (Request W → M (World B) Bool) → List (Request W) → World B → World B
  serve muscle [] w = w
  serve muscle (r ∷ rs) w = serve muscle rs (do_post muscle r w).1

  -- The flag after the requests: each drain or undrain that is allowed sets it.
  pub expected : (Request W → M (World B) Bool) → List (Request W) → World B → Bool → Bool
  expected muscle [] w b = b
  expected muscle (r ∷ rs) w b =
      expected muscle rs (do_post muscle r w).1
        (if permitted (system_demand r.path) r w then next_ready r.path b else b)

  serve-ready :
      (muscle : Request W → M (World B) Bool)
      → ((r : Request W) (b : Bool) → Keeps (At b) (muscle r))
      → (rs : List (Request W)) (w : World B) (b : Bool) → At b w
      → At (expected muscle rs w b) (serve muscle rs w)
  unfolding serve expected
  serve-ready muscle keeps [] w b p = p
  serve-ready muscle keeps (r ∷ rs) w b p =
      serve-ready muscle keeps rs _ _ (do_post-ready muscle keeps r w b p)

  -- If the service starts, with no kernel and no server before, then after any POST requests its
  -- kernel and its server both show one flag, which is set at the start, cleared by every drain
  -- and set by every undrain that the authorisation allows, and changed by no other request. It
  -- is assumed of the muscle routes that they leave kernel and flag alone.
  pub service-ready :
      (round_down : W.Float → Option ℤ) (listen : Json W.Float → ℤ → Option Fault)
      (config_file : String) (muscle : Request W → M (World B) Bool) (rs : List (Request W))
      (w : World B)
      → ((r : Request W) (b : Bool) → Keeps (At b) (muscle r))
      → w.kernel ≡ none
      → w.server_ready ≡ none
      → (start_service round_down listen config_file w).0 ≡ ok tt
      → At
          (expected muscle rs (start_service round_down listen config_file w).1 true)
          (serve muscle rs (start_service round_down listen config_file w).1)
  service-ready round_down listen config_file muscle rs w keeps no_kernel no_server up =
      serve-ready muscle keeps rs _ true (
        ends-ok (At true) Down _ up
          (start_service-Ends round_down listen config_file w (no_kernel, no_server)))
