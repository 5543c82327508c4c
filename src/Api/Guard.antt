-- ===== src/Api/Guard.antt =====
-- What a POST request to the kernel may do that is not authorised.
use package.text.Mathlib.Text.{starts_with}
use trinity_v4_ai_brain.Prelude.{String, Bool, true, false, none, ◌≡◌, refl, inl, inr, string_eq}
use trinity_v4_ai_brain.Web.{Web, Broker, World, Request, Result, ok, raised, M, bind_result}
use trinity_v4_ai_brain.Http.Kept.{api_json-Keeps}
use trinity_v4_ai_brain.Events.Guard.{allows, permitted, guarded, SameAs, SameAs-IgnoresWire}
use trinity_v4_ai_brain.Api.{
  scopes_for_path, unknown, admitted_system, system_post, after_routes, events_route, do_post,
}
use trinity_v4_ai_brain.Api.Paths.{
  KernelPath, to_reload, to_drain, to_undrain, KernelPath-cases, system_demand,
}

module _ {W : Web} {B : Broker W} where
  refuses-system :
      (r : Request W) (w v : World B) (x : Result (Bool × String))
      → allows x ≡ false
      → SameAs w v
      → SameAs w (bind_result (x, v) (admitted_system r)).1
  unfolding admitted_system
  refuses-system r w v (raised e) refused p = p
  refuses-system r w v (ok (true, sub)) refused p = absurd (cc refused)
  refuses-system r w v (ok (false, sub)) refused p =
      (api_json-Keeps (SameAs w) (SameAs-IgnoresWire w) _ _).at v p

  known-guarded :
      {path : String} (route : KernelPath path) (r : Request W) (w : World B)
      → permitted (system_demand path) r w ≡ false
      → SameAs w (system_post r (scopes_for_path path) w).1
  unfolding system_post
  known-guarded to_reload r w refused = refuses-system r w _ _ refused refl
  known-guarded to_drain r w refused = refuses-system r w _ _ refused refl
  known-guarded to_undrain r w refused = refuses-system r w _ _ refused refl

  unknown-guarded : (r : Request W) (w : World B) → SameAs w (system_post r none w).1
  unfolding system_post unknown
  unknown-guarded r w = (api_json-Keeps (SameAs w) (SameAs-IgnoresWire w) _ _).at w refl

  system_post-guarded :
      (r : Request W) (w : World B) (asked : String)
      → permitted (system_demand asked) r w ≡ false
      → SameAs w (system_post r (scopes_for_path asked) w).1
  system_post-guarded r w asked refused = elim (KernelPath-cases asked) [
    | inl (path, (route, e)) ↦ rw (e) (known-guarded route r w (rw (e) at refused))
    | inr (a, (c, d)) ↦ rw (a, c, d) (unknown-guarded r w)
  ]

  -- A request under neither prefix.
  pub do_post-unrouted :
      (muscle : Request W → M (World B) Bool) (r : Request W) (w : World B)
      → starts_with r.path "/muscle/" ≡ false
      → starts_with r.path "/events/" ≡ false
      → do_post muscle r w ≡ system_post r (scopes_for_path r.path) w
  unfolding do_post events_route after_routes
  do_post-unrouted muscle r w m e = rw (m, e) refl

  -- A POST request whose path is neither under /muscle/ nor under /events/, and is no operation
  -- on the kernel or comes with a token that is not allowed the scope of that operation, leaves
  -- the broker, the files, the kernel and readiness as they were, whatever happens on the
  -- connection.
  pub do_post-guarded :
      (muscle : Request W → M (World B) Bool) (r : Request W) (w : World B)
      → starts_with r.path "/muscle/" ≡ false
      → starts_with r.path "/events/" ≡ false
      → permitted (system_demand r.path) r w ≡ false
      → guarded (do_post muscle r w).1 ≡ guarded w
  do_post-guarded muscle r w m e refused =
      rw (do_post-unrouted muscle r w m e) (system_post-guarded r w r.path refused)
