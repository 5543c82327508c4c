-- ===== src/Http/Kept.antt =====
-- What the writing of a response keeps.
use trinity_v4_ai_brain.Prelude.{ℕ, [], ◌∷◌}
use trinity_v4_ai_brain.Json.{Json}
use trinity_v4_ai_brain.Web.{Web, Broker, World, Fault, broken_pipe, encode_error, chunk}
use trinity_v4_ai_brain.Web.Kept.{
  Keeps, IgnoresWire, Keeps-bind, Keeps-attempt, Keeps-some_or, Keeps-emit_all, Keeps-pure,
  Keeps-raise,
}
use trinity_v4_ai_brain.Http.{ignore_broken_pipe, send_json, reply_json, api_json}

module _ {W : Web} {B : Broker W} (P : World B → Type 0) (ignores : IgnoresWire P) where
  -- The pieces of a response, up to its body.
  send_json-Keeps : (value : Json W.Float) (code : ℕ) → Keeps P (send_json value code)
  unfolding send_json
  send_json-Keeps value code =
      Keeps-bind P _ _ (Keeps-some_or P encode_error (W.dumps value)) λ blob.
        Keeps-bind P _ _ (Keeps-emit_all P _ ignores)
          λ _. Keeps-emit_all P (chunk blob ∷ []) ignores

  pub reply_json-Keeps : (value : Json W.Float) (code : ℕ) → Keeps P (reply_json value code)
  unfolding reply_json
  reply_json-Keeps value code =
      Keeps-attempt P _ _ (send_json-Keeps value code) (λ e. Keeps-pure P tt)

  ignore_broken_pipe-Keeps : (e : Fault) → Keeps P (ignore_broken_pipe e)
  ignore_broken_pipe-Keeps broken_pipe = Keeps-pure P tt
  ignore_broken_pipe-Keeps e = Keeps-raise P e

  pub api_json-Keeps : (value : Json W.Float) (code : ℕ) → Keeps P (api_json value code)
  unfolding api_json
  api_json-Keeps value code =
      Keeps-bind P _ _ (Keeps-some_or P encode_error (W.dumps value)) λ blob.
        Keeps-bind P _ _ (Keeps-emit_all P _ ignores) λ _.
          Keeps-attempt P _ _ (Keeps-emit_all P (chunk blob ∷ []) ignores) ignore_broken_pipe-Keeps
