-- ===== src/Api/Probes.antt =====
-- What the two probes of `APIHandler` report.
use mathlib.Core.List.{append_assoc}
use trinity_v4_ai_brain.Prelude.{
  ℕ, Bool, true, false, List, [], ◌∷◌, ◌≡◌, ap, ◌∙◌, String, if◌then◌else◌, ◌||◌, ◌==◌, string_eq,
}
use trinity_v4_ai_brain.Web.{
  Web, Broker, World, Request, Frame, status, header, end_headers, chunk, ok, Result, M, pure, ◌>>◌,
}
use trinity_v4_ai_brain.Web.Calm.{bind-ok, emit_all-calm, emit_all-then, receive}
use trinity_v4_ai_brain.Http.{success, unavailable}
use trinity_v4_ai_brain.Events.Consume.{Progress, answered}
use trinity_v4_ai_brain.Api.{plain, healthz, readyz, shows_ready, is_set, do_get}
use trinity_v4_ai_brain.Api.Ready.{At}

-- The response of a probe.
abbrev pub probe : Bool → String → String → List Frame
probe good yes_text no_text =
    status (if good then success else unavailable)
    ∷ header "Content-Type" "text/plain"
    ∷ end_headers
    ∷ chunk (if good then yes_text else no_text)
    ∷ []

module _ {W : Web} {B : Broker W} where
  plain-sent :
      (good : Bool) (yes_text no_text : String) (w : World B)
      → w.faults ≡ []
      → (plain good yes_text no_text >> pure answered) w
        ≡ (ok answered, receive (probe good yes_text no_text) w)
  unfolding plain
  plain-sent good yes_text no_text w calm =
      bind-ok (plain good yes_text no_text) (λ _. pure answered) w _ tt
        (emit_all-then _ _ w calm ∙ emit_all-calm _ _ calm)
      ∙ simp (append_assoc)

  probed :
      (a b : Bool) (w : World B)
      → At b w
      → w.faults ≡ []
      → (if a then healthz else readyz) w ≡ (
        ok answered,
        receive (if a then probe true "ok\n" "unhealthy\n" else probe b "ready\n" "not-ready\n") w,
      )
  probed true b w p calm =
      plain-sent (is_set w.kernel) "ok\n" "unhealthy\n" w calm
      ∙ ap (λ good. (ok answered, receive (probe good "ok\n" "unhealthy\n") w))
          (ap is_set p.is_there)
  probed false b w p calm =
      plain-sent (shows_ready w.server_ready) "ready\n" "not-ready\n" w calm
      ∙ ap (λ good. (ok answered, receive (probe good "ready\n" "not-ready\n") w))
          (ap shows_ready p.server_says)

  -- On a service that is up, if no operation on the connection fails, /healthz is answered with
  -- status 200, and /readyz with 200 or 503 as the flag of readiness is set or not.
  pub do_get-probes :
      (fuel : ℕ) (b : Bool) (r : Request W) (w : World B)
      → At b w
      → w.faults ≡ []
      → (r.path == "/healthz" || r.path == "/readyz") ≡ true
      → do_get fuel r w ≡ (
        ok answered,
        receive
            (if r.path == "/healthz"
              then probe true "ok\n" "unhealthy\n"
              else probe b "ready\n" "not-ready\n")
            w,
      )
  unfolding do_get
  do_get-probes fuel b r w p calm route =
      choose (r.path == "/healthz") (r.path == "/readyz") _ w _ route (probed _ b w p calm)
    where
      choose :
          (a c : Bool) (rest : M (World B) Progress) (v : World B) (x : Result Progress × World B)
          → (a || c) ≡ true
          → (if a then healthz else readyz) v ≡ x
          → (if a then healthz else if c then readyz else rest) v ≡ x
      choose true c rest v x e h = h
      choose false true rest v x e h = h
      choose false false rest v x e h = absurd (cc e)
