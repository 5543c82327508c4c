-- ===== src/Service/Tests.antt =====
-- A small web, a broker that keeps a log of its calls, and some requests, at concrete values.
mod Routes
mod Readiness
use trinity_v4_ai_brain.Prelude.{
  ℕ, ◌+◌, ◌-◌, ℤ, pos, String, Bool, true, false, not, Option, none, some, List, [], ◌∷◌, ◌==◌, ltb,
  refl, string_eq, nat_eq, if◌then◌else◌,
}
use trinity_v4_ai_brain.Dict.{empty, put}
use trinity_v4_ai_brain.Json.{Json, Fields, null, string, obj, arr, nil, field, end, is_zero}
use trinity_v4_ai_brain.Web.{
  Web, Broker, Message, Receipt, World, Kernel, Request, Fault, broken_pipe, failed, Result, ok,
  raised, M, pure,
}
use trinity_v4_ai_brain.Web.Calm.{Encodes, Decides}

abbrev pub one_topic : Json ℕ
one_topic = obj (field "topic" (string "news") end)

-- The documents that the tests use; floats are numbers, and bytes are texts.
abbrev pub test_loads : String → Option (Json ℕ)
test_loads s =
    if s == "{}"
    then some (obj end)
    else if s == "news"
    then some one_topic
    else if s == "[]"
    then some (arr nil)
    else none

abbrev pub test_authorize : Option String → List String → ℕ → Result (Bool × String) × ℕ
test_authorize none scopes l = (ok (false, "no token"), l + 1)
test_authorize (some token) scopes l =
    (ok (token == "secret", if token == "secret" then "alice" else "bad token"), l + 1)

abbrev pub test_web : Web
test_web = record {
  Float = ℕ;
  nonzero = λ x. not (x == 0);
  parse_float = λ s. if s == "3" then some 3 else none;
  lt = ltb;
  sub = λ x y. x - y;
  default_timeout = 25;
  one_second = 1;
  decimal = λ n. if is_zero n then "0" else "5";
  parse_int = λ s. if s == "4" then some (pos 4) else some (pos 0);
  Bytes = String;
  is_empty = λ s. s == "";
  decode_replacing = λ s. s;
  decode = some;
  loads = test_loads;
  dumps = λ j. some "{ }";
  dumps_indented = λ j. "{}";
  str = λ e. "an exception";
  url_path = λ s. s;
  Limits = ℕ;
  authorize = λ token scopes limiter l. test_authorize token scopes l;
}

abbrev pub news : Message ℕ
news = record {
  id = string "1";
  topic = string "news";
  ts = null;
  headers = obj end;
  payload = string "hello";
}

abbrev pub test_broker : Broker test_web
test_broker = record {
  State = List String;
  Subscription = String;
  publish = λ topic payload key sender idk s. (ok (record { id = null; ts = null }), "publish" ∷ s);
  ack = λ topic group mid s. (ok true, "ack" ∷ s);
  subscribe = λ topic group s. (ok topic, "subscribe" ∷ s);
  poll = λ sub timeout s. (ok (some news), "poll" ∷ s);
  has_close = λ sub. true;
  has_unsubscribe = λ sub. false;
  close = λ sub s. (ok tt, "close" ∷ s);
  unsubscribe = λ sub s. (ok tt, "unsubscribe" ∷ s);
}

abbrev pub test_encodes : Encodes test_web
test_encodes j = ("{ }", refl)

-- No kernel, no server, and the configuration in its file.
abbrev pub stopped : World test_broker
stopped = record {
  written = [];
  faults = [];
  limits = 0;
  broker = [];
  files = put (put empty "config.json" "{}") "list.json" "[]";
  kernel = none;
  server_ready = none;
}

abbrev pub test_kernel : Kernel test_web
test_kernel = record {
  config_file = "config.json";
  config = obj end;
  ready = true;
  has_server = true;
}

abbrev pub running : World test_broker
running = record stopped { kernel = some test_kernel; server_ready = some true }

abbrev pub test_headers : Option String → String → Option String
test_headers token name =
    if name == "Authorization"
    then token
    else if name == "Content-Length"
    then some "4"
    else if name == "X-Topic"
    then some "news"
    else none

-- A request for a path, with a token or without one.
abbrev pub request : Option String → String → Request test_web
request token path = record {
  path = path;
  headers = test_headers token;
  read = λ n. ok "news";
  descriptor = λ n. if is_zero n then raised (failed "no such descriptor") else ok "{ }";
  clock = λ n. n;
  rid = "rid";
}

abbrev pub no_muscle : Request test_web → M (World test_broker) Bool
no_muscle r = pure false
