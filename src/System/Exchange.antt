-- ===== src/System/Exchange.antt =====
-- A request and a stream of stdiobus/client.py over any backend that carries messages.
use stdiobus_python.Base.{
  ℕ, String, ◌+◌, not, arith, ◌≡◌, refl, ap, ◌∙◌, true, false, Option, none, some, List, [], ◌∷◌,
  ◌++◌, map, All, if-false, length, update_self, eq_refl, string-Eq,
}
use stdiobus_python.Base.Int.{ℤ, pos, ◌+ℤ◌}
use stdiobus_python.Base.Dict
use stdiobus_python.Base.Dict.{get-put}
use stdiobus_python.Json
use stdiobus_python.Json.{Fields, Json, null, get_or}
use stdiobus_python.Types.Protocol.{RequestOptions}
use stdiobus_python.Client.Pending.{for_stream}
use stdiobus_python.Client.State.{Client, Runtime}
use stdiobus_python.Client.Bus
use stdiobus_python.Client.Bus.{
  Bus, BackendOps, Sent, returned, raised, ready, is_running, add_pending, effective_timeout,
}
use stdiobus_python.Client.Dispatch.{attach_text}
use stdiobus_python.Client.Loop.{handle_all, handle_message_on_loop}
use stdiobus_python.Client.Requests.{
  Begun, awaits, begin_request, future_done, end_request, replies,
}
use stdiobus_python.Client.Stream.{
  Stream, Started, streams, stream_chunk, stream_result, active_stream, after_stream_send,
  start_stream,
}
use stdiobus_python.Client.Valid.{IsValid}
use stdiobus_python.Client.Begins.{client-send, add_future-IsValid, add_stream-IsValid}
use stdiobus_python.Client.Notifications.{IsNotification, messages, texts}
use stdiobus_python.Client.Responses.{IsResponse}
use stdiobus_python.Client.Streaming.{pull_all, stream_events, request_reply}
use stdiobus_python.Client.Answers.{entered, wire, begins, known, new, handle_all-last}
use stdiobus_python.System.Carrier.{
  Carrier, reads_each, delivered, client-reads_each, backend-send, carrier-ready,
}

module _ (rt : Runtime) (carrier : Carrier) (b : Bus (carrier.Backend)) (k : carrier.Backend)
    (id : String) (es : List (String × Fields)) (m : String) (d : Fields) (method : String)
    (params : Option Fields) (timeout : Option ℤ) (session : Option String)
    (opts : RequestOptions) where
  open carrier use {Backend, Input, ops, IsReady, ready_sends}

  abbrev pub text : String
  text = wire rt ops b id es m d method params timeout session opts

  -- The bus when the request waits.
  abbrev pub waiting : Bus Backend × Begun
  waiting = begin_request rt ops b id method params timeout session opts

  sent :
      (c : Client)
      → b.backend ≡ some k
      → IsReady k
      → (Bus.send ops (record b { client = c }) text).1 ≡ returned true
  sent c e r = (backend-send rt carrier (record b { client = c }) k text e).1 ∙ ready_sends k text r

  -- What the client is when the inputs have been read.
  final :
      (c : Client) (is : List Input)
      → b.backend ≡ some k
      → delivered carrier (ops.send k text).0 is ≡ messages es ++ m ∷ []
      → (reads_each rt carrier (Bus.send ops (record b { client = c }) text).0 is).client
        ≡ (handle_message_on_loop rt (handle_all rt c (messages es)) m).0
  final c is e lines =
      client-reads_each rt carrier is _ (ops.send k text).0
        (backend-send rt carrier (record b { client = c }) k text e).0
      ∙ ap (handle_all rt (Bus.send ops (record b { client = c }) text).0.client) lines
      ∙ handle_all-last rt _ (messages es) m
      ∙ ap (λ x. (handle_message_on_loop rt (handle_all rt x (messages es)) m).0)
          (client-send ops (record b { client = c }) text)

  -- Over a backend that is ready: the request waits; and when the backend then reads inputs that give the
  -- notifications and after them the response with the request's identifier, its value is the response's
  -- result with the texts of the notifications, and its identifier is in the table no more.
  pub request_over :
      (is : List Input)
      → b.backend ≡ some k
      → IsReady k
      → IsValid b.client
      → All (IsNotification rt) es
      → IsResponse rt m d id
      → Json.get d "error" ≡ none
      → delivered carrier (ops.send k text).0 is ≡ messages es ++ m ∷ []
      → let p = b.client.next_pending in
        let c = (reads_each rt carrier waiting.0 is).client in
        (waiting.1 ≡ awaits p (effective_timeout opts timeout b.timeout_ms))
        × ((end_request c id method p future_done).1
            ≡ replies (attach_text (texts es) (get_or d "result" null)))
        × (Dict.get (end_request c id method p future_done).0.pending_requests id ≡ none)
  request_over is e r v notes response fine lines =
      let start = entered rt ops b id es m d in
      let began =
        begins rt ops b id es m d method params timeout session opts
          (carrier-ready rt carrier b k e r) (sent start.client e r) in
      let (value, gone) =
        request_reply rt start.client es m d id b.client.next_pending notes response
          (add_future-IsValid b.client id v) (known rt ops b id es m d) fine method
          (new rt ops b id es m d) in
      rw (began, final start.client is e lines) (refl, value, gone)

  module _ (now : ℕ) where
    -- The generator after its first call has sent the request.
    abbrev pub opened : Bus Backend × Started
    opened = start_stream rt ops b now id method params timeout session opts

    abbrev pub generator : Stream
    generator = record {
      msg_id = id;
      method = method;
      address = b.client.next_pending;
      deadline = pos now +ℤ effective_timeout opts timeout b.timeout_ms;
    }

    abbrev with_stream : Client
    with_stream = add_pending b.client id for_stream

    stream-sent :
        (r : Bus Backend × Sent)
        → r.1 ≡ returned true
        → after_stream_send r generator ≡ (r.0, streams generator)
    unfolding after_stream_send
    stream-sent (c, returned true) e = refl
    stream-sent (c, returned false) e = ground arith
    stream-sent (c, raised x) e = ground arith

    stream-opens :
        b.backend ≡ some k
        → IsReady k
        → active_stream b.client ≡ false
        → opened ≡ ((Bus.send ops (record b { client = with_stream }) text).0, streams generator)
    unfolding start_stream
    stream-opens e r free =
        if-false _ _ _ (ap not (carrier-ready rt carrier b k e r))
        ∙ if-false _ _ _ free
        ∙ stream-sent _ (sent with_stream e r)

    stream-known : Dict.get with_stream.pending_requests id ≡ some b.client.next_pending
    unfolding add_pending
    stream-known =
        rw (get-put b.client.pending_requests id id b.client.next_pending, eq_refl id) refl

    stream-new :
        with_stream.pending b.client.next_pending
        ≡ record { future = none; chunks = []; queue = some [] }
    unfolding add_pending for_stream
    stream-new = update_self b.client.pending b.client.next_pending for_stream

    -- Over a backend that is ready, while no other stream is active: the stream opens; and when the backend
    -- then reads inputs that give the notifications and after them the response with its identifier, its
    -- consumer gets, at whatever times it pulls, one event for each text, in order, and then one with the
    -- result and the whole text.
    pub stream_over :
        (is : List Input) (times : List ℕ)
        → b.backend ≡ some k
        → IsReady k
        → IsValid b.client
        → active_stream b.client ≡ false
        → All (IsNotification rt) es
        → IsResponse rt m d id
        → Json.get d "error" ≡ none
        → delivered carrier (ops.send k text).0 is ≡ messages es ++ m ∷ []
        → length times ≡ length (texts es) + 1
        → (opened.1 ≡ streams generator)
          × (pull_all (reads_each rt carrier opened.0 is).client generator times
              ≡ map stream_chunk (texts es)
                ++ stream_result (attach_text (texts es) (get_or d "result" null)) ∷ [])
    stream_over is times e r v free notes response fine lines n =
        rw (stream-opens e r free, final with_stream is e lines)
          (
            refl,
            stream_events rt with_stream es m d id b.client.next_pending notes response
                (add_stream-IsValid b.client id free v) stream-known fine generator times refl
                stream-new n,
          )
