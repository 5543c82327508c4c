-- ===== src/Http.antt =====
-- The helpers of trinity_comm_http.py and of `APIHandler` in trinity_service_main.py: JSON replies
-- and request bodies.
pub mod Kept
pub mod Sent
use Prim.Native.String.{len}
use trinity_v4_ai_brain.Prelude.{
  ℕ, ℤ, pos, pos_part, ltb_ℤ, String, Bool, true, false, Option, none, some, ◌==◌, string_eq,
  if◌then◌else◌, List, [], ◌∷◌,
}
use trinity_v4_ai_brain.Json.{Json, Fields, string, bool, obj, field, end}
use trinity_v4_ai_brain.Web.{
  Web, Broker, World, Request, Fault, broken_pipe, encode_error, Result, ok, raised, M, pure, raise,
  ◌>>=◌, ◌>>◌, attempt, some_or, emit, send_head, status, header, content_length, end_headers,
  chunk,
}

-- The members of `HTTPStatus` that the handlers use.
abbrev pub success : ℕ
success = 200

abbrev pub bad_request : ℕ
bad_request = 400

abbrev pub forbidden : ℕ
forbidden = 403

abbrev pub not_found : ℕ
not_found = 404

abbrev pub internal_error : ℕ
internal_error = 500

abbrev pub unavailable : ℕ
unavailable = 503

-- {"success": False, "error": reason}
abbrev pub refusal : {F : Type 0} → String → Json F
refusal reason = obj (field "success" (bool false) (field "error" (string reason) end))

-- {"success": False, "error": reason, "detail": detail}
abbrev pub detailed : {F : Type 0} → String → String → Json F
detailed reason detail = obj (
    field "success" (bool false)
      (field "error" (string reason) (field "detail" (string detail) end)))

abbrev int_or_zero : Option ℤ → ℤ
int_or_zero none = pos 0
int_or_zero (some n) = n

abbrev pub or_empty : {F : Type 0} → Option (Json F) → Json F
or_empty none = obj end
or_empty (some j) = j

-- text or "{}"
abbrev text_or_braces : String → String
text_or_braces s = if s == "" then "{}" else s

module _ (W : Web) where
  unfoldable pub parse_replacing : Result W.Bytes → Json W.Float
  parse_replacing (raised e) = obj end
  parse_replacing (ok raw) =
      if W.is_empty raw
      then obj end
      else or_empty (W.loads (text_or_braces (W.decode_replacing raw)))

  parse_strict : Option String → Json W.Float
  parse_strict none = obj end
  parse_strict (some s) = or_empty (W.loads (text_or_braces s))

  decoded : Result W.Bytes → Option String
  decoded (raised e) = none
  decoded (ok raw) = W.decode raw

module _ {W : Web} where
  -- int(headers.get("Content-Length", "0") or 0), where it does not raise
  unfoldable pub content_size : Request W → Option ℤ
  content_size r = elim (r.headers "Content-Length") [
    | none ↦ W.parse_int "0"
    | some s ↦ if s == "" then some (pos 0) else W.parse_int s
  ]

  -- `_read_body`: every exception ends in an empty dictionary.
  unfoldable pub read_body : Request W → Json W.Float
  unfolding parse_replacing
  read_body r =
      let n = int_or_zero (content_size r) in
      if ltb_ℤ (pos 0) n then parse_replacing W (r.read (pos_part n)) else obj end

  -- rfile.read(n).decode("utf-8") if n > 0 else "{}", where it does not raise
  body_text : Request W → ℤ → Option String
  unfolding decoded
  body_text r n = if ltb_ℤ (pos 0) n then decoded W (r.read (pos_part n)) else some "{}"

  -- `APIHandler._body`
  unfoldable pub api_body : Request W → Json W.Float
  unfolding parse_strict body_text
  api_body r = elim (content_size r) [ none ↦ obj end | some n ↦ parse_strict W (body_text r n) ]

module _ {W : Web} {B : Broker W} where
  -- A JSON response, piece by piece.
  unfoldable pub send_json : Json W.Float → ℕ → M (World B) (Unit {0})
  send_json value code = do
    data_text ← some_or encode_error (W.dumps value)
    send_head code (header "Content-Type" "application/json" ∷ content_length (len data_text) ∷ [])
    emit (chunk data_text)

  -- `_json` of trinity_comm_http.py: no exception leaves it.
  unfoldable pub reply_json : Json W.Float → ℕ → M (World B) (Unit {0})
  reply_json value code = attempt (send_json value code) (λ e. pure tt)

  abbrev ignore_broken_pipe : Fault → M (World B) (Unit {0})
  ignore_broken_pipe broken_pipe = pure tt
  ignore_broken_pipe e = raise e

  -- `APIHandler._json`: only a broken pipe while the body is written is caught.
  unfoldable pub api_json : Json W.Float → ℕ → M (World B) (Unit {0})
  api_json value code = do
    data_text ← some_or encode_error (W.dumps value)
    send_head code (header "Content-Type" "application/json" ∷ content_length (len data_text) ∷ [])
    attempt (emit (chunk data_text)) ignore_broken_pipe
