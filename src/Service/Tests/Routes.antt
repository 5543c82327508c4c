-- ===== src/Service/Tests/Routes.antt =====
-- The theorems on the event routes at concrete values.
use trinity_v4_ai_brain.Prelude.{ℕ, true, false, none, some, [], ◌∷◌, ◌≡◌, refl, arith, ◌⊎◌, ◌++◌}
use trinity_v4_ai_brain.Dict.{empty}
use trinity_v4_ai_brain.Json.{Fields, is_object, field, end, string}
use trinity_v4_ai_brain.Web.{Request, World, ok, broken_pipe}
use trinity_v4_ai_brain.Web.Calm.{Decides}
use trinity_v4_ai_brain.Http.{
  read_body, detailed, refusal, internal_error, unavailable, content_size, parse_replacing,
}
use trinity_v4_ai_brain.Events.{handle_events_post, dead_broker, produce, acknowledge}
use trinity_v4_ai_brain.Events.Answered.{Answered, Dropped, handle_events_post-answers}
use trinity_v4_ai_brain.Events.Dead.{response}
use trinity_v4_ai_brain.Events.Guard.{guarded, handle_events_post-guarded}
use trinity_v4_ai_brain.Events.Consume.{
  timeout_of, handle_events_get, stream_loop, poll_once, answered, admitted_get,
}
use trinity_v4_ai_brain.Events.Consume.Closing.{poll_once-closes}
use trinity_v4_ai_brain.Events.Consume.Dead.{dead_broker-statuses}
use trinity_v4_ai_brain.Events.Consume.Deadline.{stream_loop-ends}
use trinity_v4_ai_brain.Events.Consume.Delivery.{deliveries, events}
use trinity_v4_ai_brain.Events.Consume.GiveBack.{GivesBack}
use trinity_v4_ai_brain.Events.Consume.Guard.{handle_events_get-guarded}
use trinity_v4_ai_brain.Events.Consume.Streams.{stream_headers}
use trinity_v4_ai_brain.Events.Publish.{handle_events_post-publishes}
use trinity_v4_ai_brain.Events.Consume.Routes.{
  handle_events_get-streams, handle_events_get-polls, handle_events_get-GivesBack,
}
use trinity_v4_ai_brain.Http.Sent.{json_response}
use trinity_v4_ai_brain.Service.Tests.{
  one_topic, test_web, test_broker, test_encodes, running, request,
}

handle_events_post-guarded_example :
    guarded (handle_events_post (request none "/events/produce") running).1 ≡ guarded running
handle_events_post-guarded_example =
    handle_events_post-guarded (request none "/events/produce") running refl

handle_events_get-guarded_example :
    guarded (handle_events_get 5 (request (some "guess") "/events/poll") running).1
    ≡ guarded running
handle_events_get-guarded_example =
    handle_events_get-guarded 5 (request (some "guess") "/events/poll") running refl

test_decides : Decides test_web
test_decides none scopes limiter l = (_, refl)
test_decides (some token) scopes limiter l = (_, refl)

handle_events_post-answers_example :
    Answered [] (handle_events_post (request (some "secret") "/events/produce") running)
    ⊎ ((is_object (read_body (request (some "secret") "/events/produce")) ≡ false)
        × Dropped [] (handle_events_post (request (some "secret") "/events/produce") running))
handle_events_post-answers_example =
    handle_events_post-answers test_encodes test_decides (request (some "secret") "/events/produce")
      running refl refl

stream_loop-ends_example : (stream_loop 5 "news" (λ n. n) 3 1 running).0 ≡ ok true
stream_loop-ends_example = stream_loop-ends 5 "news" (λ n. n) 3 1 2 running (omega arith) refl

-- A stream over a clock that reaches the default timeout.
abbrev stream_request : Request test_web
stream_request = request (some "secret") "/events/consume"

stream_request-late :
    test_web.lt (test_web.sub (stream_request.clock 25) 0) (timeout_of stream_request) ≡ false
unfolding timeout_of
stream_request-late = refl

handle_events_get-streams_example :
    let (ms, b) =
      deliveries test_broker 30 "news" stream_request.clock
        (timeout_of stream_request)
        1
        ("subscribe" ∷ []) in
    handle_events_get 30 stream_request running ≡ (
      ok answered,
      record running {
        limits = 1;
        written = stream_headers ++ events (λ value. (test_encodes value).0) ms;
        broker = "close" ∷ b;
      },
    )
handle_events_get-streams_example =
    handle_events_get-streams 30 stream_request running "alice" "news" refl refl refl refl
      test_encodes 24 refl refl refl (omega arith) stream_request-late

-- The client is gone when the headers are written.
handle_events_get-GivesBack_example :
    GivesBack "news"
      ("subscribe" ∷ [])
      (some broken_pipe ∷ [])
      (handle_events_get 30 stream_request (record running { faults = some broken_pipe ∷ [] }))
handle_events_get-GivesBack_example =
    handle_events_get-GivesBack 30 stream_request
      (record running { faults = some broken_pipe ∷ [] }) "alice" "news" refl refl refl refl 24 refl
      refl (omega arith) stream_request-late

handle_events_get-polls_example :
    handle_events_get 5 (request (some "secret") "/events/poll") running ≡ (
      ok answered,
      record running {
        limits = 1;
        broker = "close" ∷ "poll" ∷ "subscribe" ∷ [];
        written = json_response 200 "{ }";
      },
    )
handle_events_get-polls_example =
    handle_events_get-polls 5 (request (some "secret") "/events/poll") running "alice" "news" refl
      refl refl refl test_encodes refl refl refl

produce_body : read_body (request (some "secret") "/events/produce") ≡ one_topic
unfolding read_body content_size parse_replacing
produce_body = refl

handle_events_post-publishes_example :
    handle_events_post (request (some "secret") "/events/produce") running ≡ (
      ok true,
      record running { limits = 1; broker = "publish" ∷ []; written = json_response 200 "{ }" },
    )
handle_events_post-publishes_example =
    handle_events_post-publishes test_encodes (request (some "secret") "/events/produce") running
      "alice" (field "topic" (string "news") end) refl refl refl produce_body refl refl

poll_once-closes_example : (poll_once "news" 3 running).1.broker ≡ "close" ∷ "poll" ∷ []
poll_once-closes_example = poll_once-closes "news" 3 running refl

-- A message to publish, with neither group nor id.
abbrev message_body : Fields ℕ
message_body = field "topic" (string "news") end

abbrev key_body : Fields ℕ
key_body = field "topic" (string "news") (field "group" (string "g") (field "id" (string "1") end))

abbrev dead_world : World (dead_broker test_web)
dead_world = record {
  written = [];
  faults = [];
  limits = 0;
  broker = tt;
  files = empty;
  kernel = none;
  server_ready = none;
}

dead_broker-statuses_example :
    (produce "alice" message_body dead_world ≡ (
      ok true,
      response test_encodes (detailed "broker error" "an exception") internal_error dead_world,
    ))
    × ((acknowledge key_body dead_world
          ≡ (ok true, response test_encodes (refusal "broker error") internal_error dead_world))
        × (admitted_get 5
              (request (some "secret") "/events/poll")
              "/events/poll"
              (true, "alice")
              dead_world
            ≡ (
              ok answered,
              response test_encodes
                  (detailed "broker unavailable" "an exception")
                  unavailable
                  dead_world,
            )))
dead_broker-statuses_example =
    dead_broker-statuses test_encodes "alice" message_body key_body 5
      (request (some "secret") "/events/poll") "/events/poll" dead_world refl
