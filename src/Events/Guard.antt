-- ===== src/Events/Guard.antt =====
-- What a request to the event handlers may do that is not authorised.
use package.text.Mathlib.Text.{starts_with}
use trinity_v4_ai_brain.Prelude.{
  String, Bool, true, false, Option, none, some, List, [], ◌∷◌, ◌==◌, string_eq, if◌then◌else◌, ◌≡◌,
  refl,
}
use trinity_v4_ai_brain.Dict.{Dict}
use trinity_v4_ai_brain.Web.{
  Web, Broker, World, Kernel, Request, Result, ok, raised, M, pure, bind_result, Limiter, producing,
  consuming,
}
use trinity_v4_ai_brain.Web.Kept.{IgnoresWire}
use trinity_v4_ai_brain.Events.{answer, admitted_post, guarded_post, post_event, handle_events_post}
use trinity_v4_ai_brain.Events.Kept.{answer-Keeps}
use trinity_v4_ai_brain.Http.{refusal, not_found}

-- What a request needs: the scopes and the rate limiter.
abbrev pub post_demand : String → Option (List String × Limiter)
post_demand path =
    if path == "/events/produce"
    then some ("events:produce" ∷ [], producing)
    else if path == "/events/ack"
    then some ("events:consume" ∷ [], consuming)
    else none

abbrev pub allows : Result (Bool × String) → Bool
allows (ok (admitted, sub)) = admitted
allows (raised e) = false

module _ {W : Web} {B : Broker W} where
  -- Whether the request's token gives what its route needs.
  abbrev pub permitted : Option (List String × Limiter) → Request W → World B → Bool
  permitted none r w = false
  permitted (some (scopes, limiter)) r w =
      allows (W.authorize (r.headers "Authorization") scopes limiter w.limits).0

  -- The part of the world that is neither the connection nor the rate limits.
  abbrev pub guarded : World B → (B.State × Dict String String) × (Option (Kernel W) × Option Bool)
  guarded w = ((w.broker, w.files), (w.kernel, w.server_ready))

  abbrev pub SameAs : World B → World B → Type 0
  SameAs w v = guarded v ≡ guarded w

  pub SameAs-IgnoresWire : (w : World B) → IgnoresWire (SameAs w)
  SameAs-IgnoresWire w v fs frames p = p

  admitted_post_end :
      (r : Request W) (path : String) (w v : World B) (x : Result (Bool × String))
      → allows x ≡ false
      → SameAs w v
      → SameAs w (bind_result (x, v) (admitted_post r path)).1
  unfolding admitted_post
  admitted_post_end r path w v (raised e) refused p = p
  admitted_post_end r path w v (ok (true, sub)) refused p = absurd (cc refused)
  admitted_post_end r path w v (ok (false, sub)) refused p =
      (answer-Keeps (SameAs w) (SameAs-IgnoresWire w) _ _).at v p

  refuses-post :
      (r : Request W) (path : String) (w : World B) (a b : Bool)
      → permitted
          (if a
            then some ("events:produce" ∷ [], producing)
            else if b
            then some ("events:consume" ∷ [], consuming)
            else none)
          r
          w
        ≡ false
      → SameAs w
          ((if a
              then guarded_post r path ("events:produce" ∷ []) producing
              else if b
              then guarded_post r path ("events:consume" ∷ []) consuming
              else answer (refusal "unknown endpoint") not_found)
            w).1
  unfolding guarded_post
  refuses-post r path w true b e = admitted_post_end r path w _ _ e refl
  refuses-post r path w false true e = admitted_post_end r path w _ _ e refl
  refuses-post r path w false false e =
      (answer-Keeps (SameAs w) (SameAs-IgnoresWire w) _ _).at w refl

  pub route_end :
      {A : Type 0} (b : Bool) (m : M (World B) A) (a : A) (w : World B)
      → SameAs w (m w).1
      → SameAs w ((if b then m else pure a) w).1
  route_end true m a w p = p
  route_end false m a w p = refl

  -- A POST request to the event routes whose path is no route, or whose token is not allowed the
  -- scope of its route, leaves the broker, the files, the kernel and readiness as they were,
  -- whatever happens on the connection.
  pub handle_events_post-guarded :
      (r : Request W) (w : World B)
      → permitted (post_demand (W.url_path r.path)) r w ≡ false
      → guarded (handle_events_post r w).1 ≡ guarded w
  unfolding handle_events_post post_event
  handle_events_post-guarded r w e =
      route_end (starts_with r.path "/events/") (post_event r (W.url_path r.path)) false w
        (refuses-post r (W.url_path r.path) w _ _ e)
