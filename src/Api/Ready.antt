-- ===== src/Api/Ready.antt =====
-- Readiness of the service: what the requests of `APIHandler` do to it, against a machine that has
-- only the one flag.
use package.text.Mathlib.Text.{starts_with}
use trinity_v4_ai_brain.Prelude.{
  Bool, true, false, not, Option, none, some, String, string_eq, if◌then◌else◌, ◌≡◌, refl, inl, inr,
}
use trinity_v4_ai_brain.Json.{Json}
use trinity_v4_ai_brain.Web.{
  Web, Broker, World, Kernel, Request, Result, ok, raised, M, ◌>>=◌, bind_result, pure,
}
use trinity_v4_ai_brain.Web.Kept.{Keeps, Keeps-bind, Keeps-if, Keeps-pure}
use trinity_v4_ai_brain.Http.{api_body}
use trinity_v4_ai_brain.Http.Kept.{api_json-Keeps}
use trinity_v4_ai_brain.Events.{handle_events_post}
use trinity_v4_ai_brain.Events.Guard.{allows, permitted}
use trinity_v4_ai_brain.Events.Kept.{handle_events_post-Keeps, with_fields-Keeps}
use trinity_v4_ai_brain.Kernel.{drained, handle_drain}
use trinity_v4_ai_brain.Kernel.Kept.{handle_reload-Keeps}
use trinity_v4_ai_brain.Api.{
  scopes_for_path, reply_result, unknown, reload, operate, admitted_system, system_post,
  after_routes, events_route, do_post,
}
use trinity_v4_ai_brain.Api.Paths.{
  KernelPath, to_reload, to_drain, to_undrain, KernelPath-cases, next_ready, system_demand,
}

if-true : {A : Type 0} {x : A} (y : A) (b : Bool) → b ≡ true → (if b then x else y) ≡ x
if-true y true e = refl
if-true y false e = absurd (cc e)

module _ {W : Web} where
  -- The service is up, and its kernel and its server both say `b`.
  pub record Serving (b : Bool) (kernel : Option (Kernel W)) (server_ready : Option Bool)
      : Type 0 where
    pub core : Kernel W
    pub is_there : kernel ≡ some core
    pub has_server : core.has_server ≡ true
    pub says : core.ready ≡ b
    pub server_says : server_ready ≡ some b

module _ {W : Web} {B : Broker W} where
  abbrev pub At : Bool → World B → Type 0
  At b w = Serving b w.kernel w.server_ready

  reply_result-At : (b : Bool) (j : Json W.Float) → Keeps (At b) (reply_result j)
  reply_result-At b j =
      with_fields-Keeps (At b) j _ λ fields. api_json-Keeps (At b) (λ w fs fr p. p) j _

  unknown-At : (b : Bool) → Keeps (At b) unknown
  unfolding unknown
  unknown-At b = api_json-Keeps (At b) (λ w fs fr p. p) _ _

  reload-At :
      (b : Bool) (r : Request W) (k : Kernel W) (j : Json W.Float)
      → k.has_server ≡ true
      → k.ready ≡ b
      → Keeps (At b) (reload r j k)
  unfolding reload
  reload-At b r k j server says = with_fields-Keeps (At b) j _ λ fields.
      Keeps-bind (At b) _ _
        (handle_reload-Keeps (At b) (λ w fs fr p. p) (λ w files p. p) k
          (λ w config p. record {
            core = record k { config = config };
            is_there = refl;
            has_server = server;
            says = says;
            server_says = p.server_says;
          })
          _ r.rid)
        (reply_result-At b)

  drain-At :
      (enable : Bool) (r : Request W) (k : Kernel W) (w : World B)
      → k.has_server ≡ true
      → At (not enable) ((handle_drain k enable r.rid >>= reply_result) w).1
  unfolding handle_drain
  drain-At enable r k w server =
      (reply_result-At (not enable) (drained enable r.rid)).at (handle_drain k enable r.rid w).1
        record {
          core = record k { ready = not enable };
          is_there = refl;
          has_server = server;
          says = refl;
          server_says = if-true w.server_ready k.has_server server;
        }

  -- The operation that a path names.
  operation :
      {path : String}
      → KernelPath path
      → Request W
      → Json W.Float
      → Kernel W
      → M (World B) (Unit {0})
  operation to_reload r j k = reload r j k
  operation to_drain r j k = handle_drain k true r.rid >>= reply_result
  operation to_undrain r j k = handle_drain k false r.rid >>= reply_result

  operate-operation :
      {path : String} (route : KernelPath path) (r : Request W) (j : Json W.Float) (k : Kernel W)
      (o : Option (Kernel W))
      → r.path ≡ path
      → o ≡ some k
      → operate r j o ≡ operation route r j k
  unfolding operate operation
  operate-operation to_reload r j k o e there = rw (there, e) refl
  operate-operation to_drain r j k o e there = rw (there, e) refl
  operate-operation to_undrain r j k o e there = rw (there, e) refl

  operation-At :
      {path : String} (route : KernelPath path) (r : Request W) (j : Json W.Float) (v : World B)
      (b : Bool) (p : At b v)
      → At (next_ready path b) (operation route r j p.core v).1
  unfolding operation
  operation-At to_reload r j v b p = (reload-At b r p.core j p.has_server p.says).at v p
  operation-At to_drain r j v b p = drain-At true r p.core v p.has_server
  operation-At to_undrain r j v b p = drain-At false r p.core v p.has_server

  operate-At :
      {path : String} (route : KernelPath path) (r : Request W) (j : Json W.Float) (v : World B)
      (b : Bool)
      → r.path ≡ path
      → At b v
      → At (next_ready path b) (operate r j v.kernel v).1
  operate-At route r j v b e p =
      rw (operate-operation route r j p.core v.kernel e p.is_there) (operation-At route r j v b p)

  -- What the authorisation of a request to the kernel leads to.
  admitted_system-At :
      {path : String} (route : KernelPath path) (r : Request W) (v : World B) (b : Bool)
      (x : Result (Bool × String))
      → r.path ≡ path
      → At b v
      → At (if allows x then next_ready path b else b) (bind_result (x, v) (admitted_system r)).1
  unfolding admitted_system
  admitted_system-At route r v b (raised e) here p = p
  admitted_system-At route r v b (ok (true, sub)) here p =
      operate-At route r (api_body r) v b here p
  admitted_system-At route r v b (ok (false, sub)) here p =
      (api_json-Keeps (At b) (λ w fs fr p. p) _ _).at v p

  system_post-At :
      {path : String} (route : KernelPath path) (r : Request W) (w : World B) (b : Bool)
      → r.path ≡ path
      → At b w
      → At
          (if permitted (system_demand path) r w then next_ready path b else b)
          (system_post r (scopes_for_path path) w).1
  unfolding system_post
  system_post-At to_reload r w b here p = admitted_system-At to_reload r _ b _ here p
  system_post-At to_drain r w b here p = admitted_system-At to_drain r _ b _ here p
  system_post-At to_undrain r w b here p = admitted_system-At to_undrain r _ b _ here p

  do_post-system :
      {path : String} (route : KernelPath path) (muscle : Request W → M (World B) Bool)
      (r : Request W) (w : World B)
      → r.path ≡ path
      → do_post muscle r w ≡ system_post r (scopes_for_path path) w
  unfolding do_post events_route after_routes
  do_post-system to_reload muscle r w here = rw (here) refl
  do_post-system to_drain muscle r w here = rw (here) refl
  do_post-system to_undrain muscle r w here = rw (here) refl

  after_routes-At :
      (r : Request W) (b handled : Bool)
      → scopes_for_path r.path ≡ none
      → Keeps (At b) (after_routes r handled)
  unfolding after_routes system_post
  after_routes-At r b true other = Keeps-pure (At b) tt
  after_routes-At r b false other = rw (other) (unknown-At b)

  events_route-At :
      (r : Request W) (b handled : Bool)
      → scopes_for_path r.path ≡ none
      → Keeps (At b) (events_route r handled)
  unfolding events_route
  events_route-At r b true other = Keeps-pure (At b) tt
  events_route-At r b false other =
      Keeps-bind (At b) (if starts_with r.path "/events/" then handle_events_post r else pure false)
        _
        (Keeps-if (At b) (starts_with r.path "/events/") (handle_events_post r) _
          (handle_events_post-Keeps (At b) (λ w fs fr p. p) (λ w s p. p) (λ w l p. p) r)
          (Keeps-pure (At b) false))
        (λ done. after_routes-At r b done other)

  other-At :
      (muscle : Request W → M (World B) Bool) (r : Request W) (b : Bool)
      → Keeps (At b) (muscle r)
      → scopes_for_path r.path ≡ none
      → Keeps (At b) (do_post muscle r)
  unfolding do_post
  other-At muscle r b keeps other =
      Keeps-bind (At b) (if starts_with r.path "/muscle/" then muscle r else pure false) _
        (Keeps-if (At b) (starts_with r.path "/muscle/") (muscle r) _ keeps
          (Keeps-pure (At b) false))
        (λ done. events_route-At r b done other)

  -- `asked` is the path of the request.
  known-At :
      {path : String} (route : KernelPath path) (muscle : Request W → M (World B) Bool)
      (r : Request W) (w : World B) (b : Bool) (asked : String)
      → asked ≡ path
      → r.path ≡ path
      → At b w
      → At
          (if permitted (system_demand asked) r w then next_ready asked b else b)
          (do_post muscle r w).1
  known-At route muscle r w b asked e here p =
      rw (do_post-system route muscle r w here, e) (system_post-At route r w b here p)

  pub do_post-ready :
      (muscle : Request W → M (World B) Bool)
      → ((r : Request W) (b : Bool) → Keeps (At b) (muscle r))
      → (r : Request W) (w : World B) (b : Bool) → At b w
      → At
          (if permitted (system_demand r.path) r w then next_ready r.path b else b)
          (do_post muscle r w).1
  do_post-ready muscle keeps r w b p = elim (KernelPath-cases r.path) [
    | inl (path, (route, e)) ↦ known-At route muscle r w b r.path e e p
    | inr (a, (c, d)) ↦ rw (a, c, d) ((other-At muscle r b (keeps r b) (rw (a, c, d) refl)).at w p)
  ]
