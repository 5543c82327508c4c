-- ===== src/Http/Sent.antt =====
-- What a client receives when no operation on the connection fails.
use Prim.Native.String.{len}
use mathlib.Core.List.{append_assoc}
use trinity_v4_ai_brain.Prelude.{ℕ, String, some, List, [], ◌∷◌, ◌≡◌, refl, ◌∙◌}
use trinity_v4_ai_brain.Json.{Json}
use trinity_v4_ai_brain.Web.{
  Web, Broker, World, ok, some_or, emit, pure, ◌>>◌, Frame, status, header, content_length,
  end_headers, chunk, encode_error,
}
use trinity_v4_ai_brain.Web.Calm.{attempt-ok, bind-ok, emit_all-calm, emit_all-then, receive}
use trinity_v4_ai_brain.Http.{ignore_broken_pipe, send_json, reply_json, api_json}

-- A whole JSON response.
abbrev pub json_response : ℕ → String → List Frame
json_response code data_text =
    status code
    ∷ header "Content-Type" "application/json"
    ∷ content_length (len data_text)
    ∷ end_headers
    ∷ chunk data_text
    ∷ []

module _ {W : Web} {B : Broker W} where
  send_json-sent :
      (value : Json W.Float) (code : ℕ) (w : World B) (data_text : String)
      → W.dumps value ≡ some data_text
      → w.faults ≡ []
      → send_json value code w ≡ (ok tt, receive (json_response code data_text) w)
  unfolding send_json
  send_json-sent value code w data_text encoded calm =
      bind-ok (some_or encode_error (W.dumps value)) _ w w data_text (rw (encoded) refl)
      ∙ emit_all-then _ _ w calm
      ∙ emit_all-calm _ _ calm
      ∙ simp (append_assoc)

  pub reply_json-sent :
      (value : Json W.Float) (code : ℕ) (w : World B) (data_text : String)
      → W.dumps value ≡ some data_text
      → w.faults ≡ []
      → reply_json value code w ≡ (ok tt, receive (json_response code data_text) w)
  unfolding reply_json
  reply_json-sent value code w data_text encoded calm =
      attempt-ok (send_json value code) (λ e. pure tt) w _ tt
        (send_json-sent value code w data_text encoded calm)

  -- A reply, and then a value.
  pub reply_json-then :
      {A : Type 0} (value : Json W.Float) (code : ℕ) (a : A) (w : World B) (data_text : String)
      → W.dumps value ≡ some data_text
      → w.faults ≡ []
      → (reply_json value code >> pure a) w ≡ (ok a, receive (json_response code data_text) w)
  reply_json-then value code a w data_text encoded calm =
      bind-ok (reply_json value code) (λ _. pure a) w _ tt
        (reply_json-sent value code w data_text encoded calm)

  pub api_json-sent :
      (value : Json W.Float) (code : ℕ) (w : World B) (data_text : String)
      → W.dumps value ≡ some data_text
      → w.faults ≡ []
      → api_json value code w ≡ (ok tt, receive (json_response code data_text) w)
  unfolding api_json
  api_json-sent value code w data_text encoded calm =
      bind-ok (some_or encode_error (W.dumps value)) _ w w data_text (rw (encoded) refl)
      ∙ emit_all-then _ _ w calm
      ∙ attempt-ok (emit (chunk data_text)) ignore_broken_pipe _ _ tt (emit_all-calm _ _ calm)
      ∙ simp (append_assoc)
