-- ===== src/Client/Tests/Streams.antt =====
-- Runs of the requests and the streams of stdiobus/client.py.
use stdiobus_python.Base.{◌≡◌, refl, false, none, some, [], ◌∷◌, string-Eq}
use stdiobus_python.Base.Int.{pos}
use stdiobus_python.Base.Dict
use stdiobus_python.Json
use stdiobus_python.Json.{Json, null, str, obj, end, field, get_or}
use stdiobus_python.Errors.{Exception, sdk, transport_class, raise_new, attribute_error}
use stdiobus_python.Types.Protocol.{no_options}
use stdiobus_python.Types.Enums.{running}
use stdiobus_python.Client.Pending.{join, chunk, error, for_stream}
use stdiobus_python.Client.Bus.{ready, send, Bus, BackendOps, returned, add_pending}
use stdiobus_python.Client.Requests.{Begun, begin_request}
use stdiobus_python.Client.Stream.{Stream, stream_chunk, stream_result, resume, closed_by_consumer}
use stdiobus_python.Client.Dispatch.{attach_text, chunk_text, content_text, get_obj}
use stdiobus_python.Client.Loop.{handle_message_on_loop}
use stdiobus_python.Client.Valid.{IsValid}
use stdiobus_python.Client.Run.{run, receives, stops, requests, opens_stream, backend_exits}
use stdiobus_python.Client.History.{run-IsValid}
use stdiobus_python.Client.Aggregation.{answered, wire_error, stream_error_delivery}
use stdiobus_python.Client.Lost.{response_lost}
use stdiobus_python.Client.Sending.{began, begin_request_failed}
use stdiobus_python.Client.Streaming.{pull_all, stream_events, turn, wakes, stream_cleanup}
use stdiobus_python.Client.Tests.{
  rt, notes, notes_are, reply, reply_is, problem, failure, failure_is, null_error, null_error_is,
  idle, idle-IsValid, streaming, streaming-IsValid, stream_known,
}

abbrev s : Stream
s = record { msg_id = "1"; method = "prompt"; address = 0; deadline = pos 30000 }

-- Three pulls, the last one after the deadline.
stream_events_example :
    pull_all (answered rt streaming notes "ok" reply "1" 0).0 s (5 ∷ 6 ∷ 99999 ∷ [])
    ≡ stream_chunk "Hel"
      ∷ stream_chunk "lo"
      ∷ stream_result (obj (field "stopReason" (str "done") (field "text" (str "Hello") end)))
      ∷ []
unfolding add_pending for_stream Json.get Json.put chunk_text content_text get_obj attach_text join
stream_events_example =
    stream_events rt streaming notes "ok" reply "1" 0 notes_are reply_is streaming-IsValid
      stream_known refl s (5 ∷ 6 ∷ 99999 ∷ []) refl refl refl

stream_error_delivery_example :
    (((answered rt streaming notes "bad" failure "1" 0).0.pending 0).queue
      ≡ some (chunk "Hel" ∷ chunk "lo" ∷ error (wire_error problem) ∷ []))
    × (Dict.get (answered rt streaming notes "bad" failure "1" 0).0.pending_requests "1" ≡ none)
    × ((answered rt streaming notes "bad" failure "1" 0).1 ≡ none)
unfolding add_pending for_stream Json.get chunk_text content_text get_obj
stream_error_delivery_example =
    stream_error_delivery rt streaming notes "bad" failure "1" 0 notes_are failure_is
      streaming-IsValid stream_known [] [] problem refl refl

not_object : ¬ ⊥
not_object x = x

response_lost_example :
    ((handle_message_on_loop rt streaming "null").1 ≡ some attribute_error)
    × ((handle_message_on_loop rt streaming "null").0.pending ≡ streaming.pending)
    × (Dict.get (handle_message_on_loop rt streaming "null").0.pending_requests "1" ≡ none)
unfolding Json.get
response_lost_example =
    response_lost rt streaming "null" null_error "1" 0 null null_error_is stream_known refl
      not_object

-- A consumer that closes the stream while it waits.
stream_cleanup_example :
    Dict.get (turn streaming s (wakes closed_by_consumer)).0.pending_requests "1" ≡ none
unfolding turn resume
stream_cleanup_example = stream_cleanup streaming s (wakes closed_by_consumer) tt

-- A backend that runs and fails to send.
abbrev broken : BackendOps (Unit {0})
broken = record {
  get_state = λ k. running;
  send = λ k m. (k, returned false);
  start = λ k. (k, none);
  stop = λ k. k;
  destroy = λ k. k;
}

abbrev bus : Bus (Unit {0})
bus = record {
  client = idle;
  backend = some tt;
  client_session_id = "session";
  agent_session_id = null;
  timeout_ms = pos 30000;
  released = [];
  loop = some 0;
}

run-IsValid_example :
    IsValid
      (run rt broken bus (
        requests "1" "prompt" none none none no_options
        ∷ opens_stream 0 "2" "prompt" none none none no_options
        ∷ receives "hel"
        ∷ receives "ok"
        ∷ backend_exits
        ∷ stops
        ∷ [])).client
run-IsValid_example =
    run-IsValid rt broken bus
      (requests "1" "prompt" none none none no_options
        ∷ opens_stream 0 "2" "prompt" none none none no_options
        ∷ receives "hel"
        ∷ receives "ok"
        ∷ backend_exits
        ∷ stops
        ∷ [])
      idle-IsValid

abbrev begun : Bus (Unit {0}) × Begun
begun = began rt broken bus "1" "prompt" none none none no_options

abbrev refused : Exception
refused = sdk (raise_new transport_class "Failed to send message")

begin_request_failed_example :
    Dict.get begun.0.client.pending_requests "1" ≡ Dict.get bus.client.pending_requests "1"
unfolding Dict.get begin_request send ready
begin_request_failed_example =
    begin_request_failed rt broken bus "1" "prompt" none none none no_options refused refl refl "1"
