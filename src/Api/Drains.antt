-- ===== src/Api/Drains.antt =====
-- Draining and its end, from the request to the response.
use trinity_v4_ai_brain.Prelude.{
  String, Bool, true, false, not, Option, some, [], ◌∷◌, ◌≡◌, refl, ap, ◌∙◌, string_eq,
  if◌then◌else◌,
}
use trinity_v4_ai_brain.Json.{Json}
use trinity_v4_ai_brain.Web.{Web, Broker, World, Kernel, Request, ok, M, authorized, system, ◌>>=◌}
use trinity_v4_ai_brain.Web.Calm.{Encodes, bind-ok, receive}
use trinity_v4_ai_brain.Http.{api_body}
use trinity_v4_ai_brain.Http.Sent.{json_response, api_json-sent}
use trinity_v4_ai_brain.Kernel.{drained, handle_drain}
use trinity_v4_ai_brain.Api.{
  reply_result, operate, admitted_system, system_post, after_routes, events_route, do_post,
}

abbrev pub drain_path : Bool → String
drain_path true = "/system/drain"
drain_path false = "/system/undrain"

module _ {W : Web} {B : Broker W} where
  operate-drain :
      (enable : Bool) (r : Request W) (j : Json W.Float) (k : Kernel W) (o : Option (Kernel W))
      → r.path ≡ drain_path enable
      → o ≡ some k
      → operate {B = B} r j o ≡ (handle_drain k enable r.rid >>= reply_result)
  unfolding operate
  operate-drain true r j k o here there = rw (there, here) refl
  operate-drain false r j k o here there = rw (there, here) refl

  do_post-drain :
      (enable : Bool) (muscle : Request W → M (World B) Bool) (r : Request W) (w : World B)
      → r.path ≡ drain_path enable
      → do_post muscle r w
        ≡ (authorized (r.headers "Authorization") ("system:drain" ∷ []) system
              >>= admitted_system r)
            w
  unfolding do_post events_route after_routes system_post
  do_post-drain true muscle r w here = rw (here) refl
  do_post-drain false muscle r w here = rw (here) refl

  -- The world after the operation, before the response.
  abbrev pub switched : Bool → Kernel W → World B → World B
  switched enable k w = record w {
    kernel = some (record k { ready = not enable });
    server_ready = if k.has_server then some (not enable) else w.server_ready;
  }

  handle_drain-answers :
      (encodes : Encodes W) (enable : Bool) (k : Kernel W) (rid : String) (w : World B)
      → w.faults ≡ []
      → (handle_drain k enable rid >>= reply_result) w ≡ (
        ok tt,
        receive (json_response 200 (encodes (drained enable rid)).0) (switched enable k w),
      )
  unfolding handle_drain
  handle_drain-answers encodes enable k rid w calm =
      api_json-sent (drained enable rid) 200 (switched enable k w) _
        (encodes (drained enable rid)).1 calm

  admitted_system-operates :
      (r : Request W) (sub : String) (w : World B)
      → admitted_system r (true, sub) w ≡ operate r (api_body r) w.kernel w
  unfolding admitted_system
  admitted_system-operates r sub w = refl

  -- If no operation on the connection fails, every JSON value can be encoded, and the service has
  -- a kernel, then an authorised drain or undrain clears or sets the flag of the kernel, and the
  -- one of the server if the kernel knows the server, and is answered with status 200 and the new
  -- flag; nothing else changes but the rate limits.
  pub do_post-drains :
      (encodes : Encodes W) (enable : Bool) (muscle : Request W → M (World B) Bool) (r : Request W)
      (w : World B) (k : Kernel W) (sub : String)
      → r.path ≡ drain_path enable
      → (W.authorize (r.headers "Authorization") ("system:drain" ∷ []) system w.limits).0
        ≡ ok (true, sub)
      → w.kernel ≡ some k
      → w.faults ≡ []
      → do_post muscle r w ≡ (
        ok tt,
        receive (json_response 200 (encodes (drained enable r.rid)).0) (
            switched enable k (record w {
              limits =
                  (W.authorize (r.headers "Authorization") ("system:drain" ∷ []) system w.limits).1;
            })),
      )
  do_post-drains encodes enable muscle r w k sub here allowed there calm =
      let asked = authorized (r.headers "Authorization") ("system:drain" ∷ []) system in
      do_post-drain enable muscle r w here
      ∙ bind-ok asked (admitted_system r) w (asked w).1 (true, sub)
          (ap (λ x. (x, (asked w).1)) allowed)
      ∙ admitted_system-operates r sub (asked w).1
      ∙ ap (λ m. m (asked w).1) (operate-drain enable r (api_body r) k w.kernel here there)
      ∙ handle_drain-answers encodes enable k r.rid (asked w).1 calm
