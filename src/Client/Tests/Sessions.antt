-- ===== src/Client/Tests/Sessions.antt =====
-- Whole requests, the handshake, the synchronous wrapper and a subscription of stdiobus/client.py at
-- concrete inputs.
use stdiobus_python.Base.{
  ◌≡◌, refl, true, false, none, some, [], ◌∷◌, ◌==◌, string-Eq, inl, inr, if◌then◌else◌,
}
use stdiobus_python.Base.Int.{pos}
use stdiobus_python.Json
use stdiobus_python.Json.{Json, Fields, null, str, obj, end, field}
use stdiobus_python.Types.Enums.{running}
use stdiobus_python.Types.Protocol.{
  no_more, HelloParams, HelloResult, hello_result, hello_result_fields, read_extensions,
}
use stdiobus_python.Client.Subscription.{drop, yields, stops, new}
use stdiobus_python.Client.Subscription.Feed.{
  delivers, closes, asks, delivered, was_closed, answered, object_shows, subscription_is_feed,
}
use stdiobus_python.Client.State.{Runtime}
use stdiobus_python.Client.Bus.{Bus, BackendOps, returned, ready, send}
use stdiobus_python.Client.Pending.{join}
use stdiobus_python.Client.Dispatch.{attach_text}
use stdiobus_python.Client.Loop.{message_id}
use stdiobus_python.Client.Requests.{future_done}
use stdiobus_python.Client.Responses.{IsResponse}
use stdiobus_python.Client.Run.{receives}
use stdiobus_python.Client.Session.{hello, greeted}
use stdiobus_python.Client.Sync.{StdioBus}
use stdiobus_python.Client.OneLoop.{
  OnOneLoop, call_all, call_all-OnOneLoop, calls_start, calls_connect, calls_send, calls_destroy,
}
use stdiobus_python.Client.Answers.{hello_session}
use stdiobus_python.Client.Tests.{idle, idle-IsValid, piece, text_of}

-- A backend that runs and takes every message.
abbrev ops : BackendOps (Unit {0})
ops = record {
  get_state = λ k. running;
  send = λ k m. (k, returned true);
  start = λ k. (k, none);
  stop = λ k. k;
  destroy = λ k. k;
}

abbrev bus : Bus (Unit {0})
bus = record {
  client = idle;
  backend = some tt;
  client_session_id = "client-1";
  agent_session_id = null;
  timeout_ms = pos 30000;
  released = [];
  loop = none;
}

abbrev greeting : Fields
greeting = field "id" (str "1") (field "result" (obj (field "sessionId" (str "s7") end)) end)

abbrev polite : Runtime
polite = record {
  loads = λ m. if m == "hi" then some (obj greeting) else none;
  dumps = text_of;
  to_str = text_of;
}

greeting_is : IsResponse polite "hi" greeting "1"
unfolding Json.get message_id
greeting_is = (str "1", refl, refl, refl)

abbrev params : HelloParams
params = record { protocol_version = "1.0"; extensions = no_more }

abbrev answer : HelloResult
answer = record {
  negotiated_protocol_version = str "";
  session_id = str "s7";
  extensions = no_more;
}

hello_session_example :
    ((hello polite ops bus "1" params (receives "hi" ∷ []) future_done).1 ≡ greeted answer)
    × ((hello polite ops bus "1" params (receives "hi" ∷ []) future_done).0.agent_session_id
        ≡ str "s7")
unfolding Json.get Json.put attach_text hello_result hello_result_fields read_extensions ready send
    join
hello_session_example =
    hello_session polite ops bus "1" [] "hi" greeting params answer refl refl idle-IsValid tt
      greeting_is refl refl

abbrev sync : StdioBus (Unit {0})
sync = record { bus = bus; loop = none; next_loop = 0 }

call_all-OnOneLoop_example : OnOneLoop (
    call_all polite ops sync (
      calls_connect "1" (some params) (receives "hi" ∷ []) future_done
      ∷ calls_send "x"
      ∷ calls_destroy
      ∷ calls_start
      ∷ []))
call_all-OnOneLoop_example =
    call_all-OnOneLoop polite ops sync
      (calls_connect "1" (some params) (receives "hi" ∷ []) future_done
        ∷ calls_send "x"
        ∷ calls_destroy
        ∷ calls_start
        ∷ [])
      (inr (inl refl))

subscription_is_feed_example :
    object_shows
      (new 1 drop)
      (delivers (piece "a") ∷ delivers (piece "b") ∷ closes ∷ asks ∷ asks ∷ asks ∷ [])
    ≡ delivered false
      ∷ delivered false
      ∷ was_closed
      ∷ answered (yields (piece "a"))
      ∷ answered stops
      ∷ answered stops
      ∷ []
subscription_is_feed_example =
    subscription_is_feed 1 drop
      (delivers (piece "a") ∷ delivers (piece "b") ∷ closes ∷ asks ∷ asks ∷ asks ∷ [])
