-- ===== src/Web.antt =====
-- What trinity_comm_http.py and trinity_service_main.py take from outside: floats and conversions of
-- Python, JSON encoding, authorisation and the message broker; the state that a request works on; and
-- the monad of code that can raise.
pub mod Calm
pub mod Ends
pub mod Kept
use trinity_v4_ai_brain.Prelude.{ℕ, ℤ, String, Bool, Option, none, some, List, [], ◌∷◌, ◌++◌}
use trinity_v4_ai_brain.Dict.{Dict}
use trinity_v4_ai_brain.Json.{Json}

-- An exception that the code can meet; `failed` carries any other one's text.
pub data Fault : Type 0 where
  broken_pipe connection_reset attribute_error file_not_found path_error : Fault
  decode_error encode_error : Fault
  failed : String → Fault

pub data Result (A : Type 0) : Type 0 where
  ok : A → Result A
  raised : Fault → Result A

-- RL_PROD, RL_CONS and RL
pub data Limiter : Type 0 where
  producing consuming system : Limiter

pub record Web : Type 1 where
  pub Float : Type 0
  -- bool(x), float(text), x < y, x - y, and the floats 25.0 and 1.0
  pub nonzero : Float → Bool
  pub parse_float : String → Option Float
  pub lt : Float → Float → Bool
  pub sub : Float → Float → Float
  pub default_timeout : Float
  pub one_second : Float
  -- int(text), and f"{n}" of an int
  pub parse_int : String → Option ℤ
  pub decimal : ℤ → String
  pub Bytes : Type 0
  pub is_empty : Bytes → Bool
  -- bytes.decode("utf-8", errors="replace") and bytes.decode("utf-8")
  pub decode_replacing : Bytes → String
  pub decode : Bytes → Option String
  -- json.loads, json.dumps and json.dump(…, indent=2)
  pub loads : String → Option (Json Float)
  pub dumps : Json Float → Option String
  pub dumps_indented : Json Float → String
  -- str(e)
  pub str : Fault → String
  -- urlsplit(path).path
  pub url_path : String → String
  -- authorize_bearer, with the state of the rate limiters: whether the request is allowed, and the
  -- subject or else the reason
  pub Limits : Type 0
  pub authorize : Option String → List String → Limiter → Limits → Result (Bool × String) × Limits

-- A message of the broker, by its attributes.
pub record Message (F : Type 0) : Type 0 where
  pub id : Json F
  pub topic : Json F
  pub ts : Json F
  pub headers : Json F
  pub payload : Json F

-- getattr(msg, "id", None) and getattr(msg, "ts", None)
pub record Receipt (F : Type 0) : Type 0 where
  pub id : Json F
  pub ts : Json F

-- A broker: `publish` takes topic, payload, key, the sender and the idempotency key.
pub record Broker (W : Web) : Type 1 where
  pub State : Type 0
  pub Subscription : Type 0
  pub publish :
      Json W.Float
      → Json W.Float
      → Json W.Float
      → String
      → Json W.Float
      → State
      → Result (Receipt W.Float) × State
  -- bool of what `ack` returns
  pub ack : Json W.Float → Json W.Float → Json W.Float → State → Result Bool × State
  pub subscribe : String → String → State → Result Subscription × State
  pub poll : Subscription → W.Float → State → Result (Option (Message W.Float)) × State
  pub has_close : Subscription → Bool
  pub has_unsubscribe : Subscription → Bool
  pub close : Subscription → State → Result (Unit {0}) × State
  pub unsubscribe : Subscription → State → Result (Unit {0}) × State

-- What a handler writes to its client.
pub data Frame : Type 0 where
  -- send_response(code)
  status : ℕ → Frame
  header : String → String → Frame
  -- send_header("Content-Length", str(n))
  content_length : ℕ → Frame
  end_headers : Frame
  chunk : String → Frame
  flush : Frame
  -- send_error(code, text), a whole response
  error_page : ℕ → String → Frame

-- TrinityKernel
pub record Kernel (W : Web) : Type 0 where
  pub config_file : String
  pub config : Json W.Float
  pub ready : Bool
  -- whether `api_server` is set
  pub has_server : Bool

pub record World {W : Web} (B : Broker W) : Type 0 where
  pub written : List Frame
  -- how the next operations on the connection and on files end: with an exception, or not
  pub faults : List (Option Fault)
  pub limits : W.Limits
  pub broker : B.State
  pub files : Dict String String
  -- the attributes of the HTTP server: `kernel`, and `ready` if it is set
  pub kernel : Option (Kernel W)
  pub server_ready : Option Bool

-- One HTTP request as the handler sees it.
pub record Request (W : Web) : Type 0 where
  pub path : String
  pub headers : String → Option String
  -- rfile.read(n)
  pub read : ℕ → Result W.Bytes
  -- what opening and reading the file of a descriptor gives
  pub descriptor : ℤ → Result String
  -- what time.time() answers, call by call
  pub clock : ℕ → W.Float
  -- new_request_id()
  pub rid : String

-- Code that works on a state `S` and can raise.
abbrev pub M : Type 0 → Type 0 → Type 0
M S A = S → Result A × S

module _ {S : Type 0} where
  abbrev pub pure : {A : Type 0} → A → M S A
  pure a s = (ok a, s)

  abbrev pub raise : {A : Type 0} → Fault → M S A
  raise e s = (raised e, s)

  abbrev pub bind_result : {A C : Type 0} → Result A × S → (A → M S C) → Result C × S
  bind_result (ok a, s) f = f a s
  bind_result (raised e, s) f = (raised e, s)

  infixl 5 ◌>>=◌ ◌>>◌
  abbrev pub ◌>>=◌ : {A C : Type 0} → M S A → (A → M S C) → M S C
  ◌>>=◌ m f s = bind_result (m s) f

  abbrev pub ◌>>◌ : {C : Type 0} → M S (Unit {0}) → M S C → M S C
  m >> k = m >>= λ _. k

  abbrev pub recover : {A : Type 0} → Result A × S → (Fault → M S A) → Result A × S
  recover (ok a, s) handler = (ok a, s)
  recover (raised e, s) handler = handler e s

  -- try: m, except Exception as e: handler(e)
  abbrev pub attempt : {A : Type 0} → M S A → (Fault → M S A) → M S A
  attempt m handler s = recover (m s) handler

  -- A value, or else the exception.
  abbrev pub some_or : {A : Type 0} → Fault → Option A → M S A
  some_or e none = raise e
  some_or e (some a) = pure a

  abbrev pub of_result : {A : Type 0} → Result A → M S A
  of_result r s = (r, s)

next_fault : List (Option Fault) → Option Fault × List (Option Fault)
next_fault [] = (none, [])
next_fault (f ∷ fs) = (f, fs)

module _ {W : Web} {B : Broker W} where
  -- An operation on the connection or on a file: it changes the world, or it raises.
  perform_with : Option Fault × List (Option Fault) → (World B → World B) → M (World B) (Unit {0})
  perform_with (none, fs) change w = (ok tt, change (record w { faults = fs }))
  perform_with (some e, fs) change w = (raised e, record w { faults = fs })

  unfoldable pub perform : (World B → World B) → M (World B) (Unit {0})
  unfolding next_fault perform_with
  perform change w = perform_with (next_fault w.faults) change w

  -- One operation on the connection, which sends all of this or fails.
  unfoldable pub emit_all : List Frame → M (World B) (Unit {0})
  emit_all frames = perform λ w. record w { written = w.written ++ frames }

  abbrev pub emit : Frame → M (World B) (Unit {0})
  emit f = emit_all (f ∷ [])

  -- send_response(code), send_header(…) for each of the headers, and end_headers(). The first two
  -- only fill a buffer; end_headers() writes it to the connection, so it is what can fail.
  abbrev pub send_head : ℕ → List Frame → M (World B) (Unit {0})
  send_head code headers = emit_all (status code ∷ (headers ++ end_headers ∷ []))

  -- A call of the broker.
  abbrev pub with_broker : {A : Type 0} → (B.State → Result A × B.State) → M (World B) A
  with_broker call w = let (r, b) = call w.broker in (r, record w { broker = b })

  abbrev pub authorized : Option String → List String → Limiter → M (World B) (Bool × String)
  authorized token scopes limiter w =
      let (r, l) = W.authorize token scopes limiter w.limits in (r, record w { limits = l })
