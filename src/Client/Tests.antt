-- ===== src/Client/Tests.antt =====
-- Runs of stdiobus/client.py at concrete inputs.
mod Sessions
mod Streams
mod Ends
mod Choices
mod Outcomes
mod Order
use stdiobus_python.Base.{
  String, ◌≡◌, refl, arith, Option, none, some, List, [], ◌∷◌, ◌==◌, string-Eq, if◌then◌else◌, inl,
  inr, All,
}
use stdiobus_python.Base.Int.{pos}
use stdiobus_python.Base.Dict
use stdiobus_python.Json
use stdiobus_python.Json.{Json, Fields, null, int, str, obj, end, field}
use stdiobus_python.Client.Pending.{for_future, for_stream}
use stdiobus_python.Client.Subscription.{drop, new}
use stdiobus_python.Client.Subscription.Members.{HasMembers}
use stdiobus_python.Client.Subscription.Queue.{new-IsBounded}
use stdiobus_python.Client.State.{Client, Runtime}
use stdiobus_python.Client.Bus.{add_pending}
use stdiobus_python.Client.Loop.{message_id, has_method}
use stdiobus_python.Client.Stream.{any_stream}
use stdiobus_python.Client.Valid.{IsValid}
use stdiobus_python.Client.Begins.{add_future-IsValid, add_stream-IsValid}
use stdiobus_python.Client.Notifications.{IsNotification}
use stdiobus_python.Client.Responses.{IsResponse}

-- The notification that carries a piece of text.
abbrev pub piece : String → Fields
piece s = field "method" (str "session/update") (
    field "params"
      (obj (
        field "update"
          (obj (
            field "sessionUpdate" (str "agent_message_chunk")
              (field "content" (obj (field "text" (str s) end)) end)))
          end))
      end)

abbrev pub reply : Fields
reply = field "id" (str "1") (field "result" (obj (field "stopReason" (str "done") end)) end)

abbrev pub problem : Fields
problem = field "code" (int (pos 3)) (field "message" (str "late") end)

abbrev pub failure : Fields
failure = field "id" (str "1") (field "error" (obj problem) end)

-- `"error": null` beside a result.
abbrev pub null_error : Fields
null_error = field "id" (str "1") (field "error" null (field "result" (str "x") end))

-- A decoder that knows five texts.
abbrev pub decode : String → Option Json
decode m =
    if m == "hel"
    then some (obj (piece "Hel"))
    else if m == "lo"
    then some (obj (piece "lo"))
    else if m == "ok"
    then some (obj reply)
    else if m == "bad"
    then some (obj failure)
    else if m == "null"
    then some (obj null_error)
    else none

abbrev pub text_of : Json → String
text_of (str s) = s
text_of _ = "?"

abbrev pub rt : Runtime
rt = record { loads = decode; dumps = text_of; to_str = text_of }

abbrev pub notes : List (String × Fields)
notes = ("hel", piece "Hel") ∷ ("lo", piece "lo") ∷ []

pub notes_are : All (IsNotification rt) notes
unfolding Json.get message_id has_method
notes_are = ((refl, refl, refl), ((refl, refl, refl), tt))

pub reply_is : IsResponse rt "ok" reply "1"
unfolding Json.get message_id
reply_is = (str "1", refl, refl, refl)

pub failure_is : IsResponse rt "bad" failure "1"
unfolding Json.get message_id
failure_is = (str "1", refl, refl, refl)

pub null_error_is : IsResponse rt "null" null_error "1"
unfolding Json.get message_id
null_error_is = (str "1", refl, refl, refl)

abbrev pub idle : Client
idle = record {
  message_handlers = [];
  notification_handlers = 7 ∷ [];
  pending_requests = [];
  pending = λ p. for_future;
  next_pending = 0;
  subscriptions = [];
  subs = λ q. new 2 drop;
  next_sub = 0;
  calls = [];
}

pub idle-IsValid : IsValid idle
unfolding for_future
idle-IsValid = record {
  distinct = tt;
  fresh = λ p i. absurd i;
  live = λ p i. absurd i;
  single = λ p. omega arith;
  alone = omega arith;
}

abbrev pub streaming : Client
streaming = add_pending idle "1" for_stream

pub streaming-IsValid : IsValid streaming
unfolding any_stream
streaming-IsValid = add_stream-IsValid idle "1" refl idle-IsValid

abbrev pub calling : Client
calling = add_pending idle "1" for_future

pub calling-IsValid : IsValid calling
calling-IsValid = add_future-IsValid idle "1" idle-IsValid

pub stream_known : Dict.get streaming.pending_requests "1" ≡ some 0
unfolding add_pending Dict.get Dict.put
stream_known = refl

pub call_known : Dict.get calling.pending_requests "1" ≡ some 0
unfolding add_pending Dict.get Dict.put
call_known = refl

pub idle-HasMembers : HasMembers idle
idle-HasMembers = record {
  distinct = tt;
  fresh = λ p i. absurd i;
  is_open = λ p i. absurd i;
  bounded = λ q. new-IsBounded 2 drop;
}

-- A stream in flight, and one subscriber.
abbrev pub subscribed : Client
subscribed = record streaming { subscriptions = 0 ∷ []; next_sub = 1 }

pub subscribed-HasMembers : HasMembers subscribed
unfolding new add_pending
subscribed-HasMembers = record {
  distinct = ((λ i. i), tt);
  fresh = λ p i. elim i [ inl e ↦ omega arith | inr j ↦ absurd j ];
  is_open = λ p i. refl;
  bounded = λ q. new-IsBounded 2 drop;
}

pub subscribed-IsValid : IsValid subscribed
subscribed-IsValid = streaming-IsValid
