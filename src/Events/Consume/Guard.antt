-- ===== src/Events/Consume/Guard.antt =====
-- What a GET request to the event handlers may do that is not authorised.
use package.text.Mathlib.Text.{starts_with}
use trinity_v4_ai_brain.Prelude.{
  ℕ, String, Bool, true, false, not, ◌||◌, Option, none, some, List, [], ◌∷◌, ◌==◌, string_eq,
  if◌then◌else◌, ◌≡◌, refl,
}
use trinity_v4_ai_brain.Web.{
  Web, Broker, World, Request, Result, ok, raised, pure, bind_result, authorized, Limiter,
  consuming, emit, ◌>>=◌, ◌>>◌, error_page,
}
use trinity_v4_ai_brain.Web.Kept.{Keeps-bind, Keeps-emit_all, Keeps-pure}
use trinity_v4_ai_brain.Http.{not_found}
use trinity_v4_ai_brain.Events.Consume.{
  passed, answered, admitted_get, get_event, handle_events_get,
}
use trinity_v4_ai_brain.Events.Kept.{reply-Keeps}
use trinity_v4_ai_brain.Events.Guard.{
  allows, permitted, guarded, SameAs, SameAs-IgnoresWire, route_end,
}

-- What a GET request to the event routes needs.
abbrev pub get_demand : String → Option (List String × Limiter)
get_demand path =
    if path == "/events/consume" || path == "/events/poll"
    then some ("events:consume" ∷ [], consuming)
    else none

module _ {W : Web} {B : Broker W} where
  admitted_get_end :
      (fuel : ℕ) (r : Request W) (path : String) (w v : World B) (x : Result (Bool × String))
      → allows x ≡ false
      → SameAs w v
      → SameAs w (bind_result (x, v) (admitted_get fuel r path)).1
  unfolding admitted_get
  admitted_get_end fuel r path w v (raised e) refused p = p
  admitted_get_end fuel r path w v (ok (true, sub)) refused p = absurd (cc refused)
  admitted_get_end fuel r path w v (ok (false, sub)) refused p =
      (reply-Keeps (SameAs w) (SameAs-IgnoresWire w) _ _).at v p

  refuses-get :
      (fuel : ℕ) (r : Request W) (path : String) (w : World B) (a : Bool)
      → permitted (if a then some ("events:consume" ∷ [], consuming) else none) r w ≡ false
      → SameAs w
          ((if not a
              then emit (error_page not_found "Not found") >> pure answered
              else authorized (r.headers "Authorization") ("events:consume" ∷ []) consuming
                >>= admitted_get fuel r path)
            w).1
  refuses-get fuel r path w true e = admitted_get_end fuel r path w _ _ e refl
  refuses-get fuel r path w false e =
      (Keeps-bind (SameAs w) _ _ (Keeps-emit_all (SameAs w) _ (SameAs-IgnoresWire w))
          (λ _. Keeps-pure (SameAs w) answered)).at
        w refl

  -- A GET request to the event routes whose path is no route, or whose token is not allowed to
  -- consume events, leaves the broker, the files, the kernel and readiness as they were, whatever
  -- happens on the connection; no subscription is made.
  pub handle_events_get-guarded :
      (fuel : ℕ) (r : Request W) (w : World B)
      → permitted (get_demand (W.url_path r.path)) r w ≡ false
      → guarded (handle_events_get fuel r w).1 ≡ guarded w
  unfolding handle_events_get get_event
  handle_events_get-guarded fuel r w e =
      route_end (starts_with r.path "/events/") (get_event fuel r (W.url_path r.path)) passed w
        (refuses-get fuel r (W.url_path r.path) w _ e)
