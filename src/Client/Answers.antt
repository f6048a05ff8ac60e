-- ===== src/Client/Answers.antt =====
-- A whole request of stdiobus/client.py, from its call to its result, and the handshake.
use stdiobus_python.Base.{
  String, ◌≡◌, refl, ap, ◌∙◌, true, false, Option, none, some, List, [], ◌∷◌, ◌++◌, map, All,
  update_self, if-true, eq_refl, arith, string-Eq,
}
use stdiobus_python.Base.Int.{ℤ}
use stdiobus_python.Base.Dict
use stdiobus_python.Base.Dict.{get-put}
use stdiobus_python.Json
use stdiobus_python.Json.{Json, Fields, null, get_or, obj}
use stdiobus_python.Types.Protocol.{
  RequestOptions, no_options, HelloParams, HelloResult, hello_params_dict, hello_result,
}
use stdiobus_python.Client.Pending.{for_future, waiting}
use stdiobus_python.Client.State.{Client, Runtime}
use stdiobus_python.Client.Bus.{
  Bus, BackendOps, Sent, returned, raised, ready, send, add_pending, build_request,
  effective_timeout,
}
use stdiobus_python.Client.Requests.{
  Begun, awaits, after_send, begin_request, future_done, end_request, Reply, replies,
}
use stdiobus_python.Client.Dispatch.{attach_text}
use stdiobus_python.Client.Loop.{handle_message_on_loop, handle_all}
use stdiobus_python.Client.Lifecycle.{end_hello}
use stdiobus_python.Client.Run
use stdiobus_python.Client.Run.{Event, receives, on_client}
use stdiobus_python.Client.Session.{request, end_call, greet, hello, Greeted, greeted}
use stdiobus_python.Client.Valid.{IsValid}
use stdiobus_python.Client.Begins.{client-send, add_future-IsValid}
use stdiobus_python.Client.Notifications.{IsNotification, messages, texts}
use stdiobus_python.Client.Responses.{IsResponse}
use stdiobus_python.Client.Streaming.{request_reply}

module _ {B : Type 0} (rt : Runtime) (ops : BackendOps B) where
  -- Messages that come one after the other do to the client what handling each of them does.
  run-receives :
      (b : Bus B) (ms : List String)
      → (Run.run rt ops b (map receives ms)).client ≡ handle_all rt b.client ms
  unfolding Run.run Run.step handle_all
  run-receives b [] = refl
  run-receives b (m ∷ ms) = run-receives (on_client b (handle_message_on_loop rt b.client m).0) ms

pub handle_all-last :
    (rt : Runtime) (c : Client) (ms : List String) (m : String)
    → handle_all rt c (ms ++ m ∷ []) ≡ (handle_message_on_loop rt (handle_all rt c ms) m).0
unfolding handle_all
handle_all-last rt c [] m = refl
handle_all-last rt c (x ∷ ms) m = handle_all-last rt (handle_message_on_loop rt c x).0 ms m

module _ {B : Type 0} (rt : Runtime) (ops : BackendOps B) (b : Bus B) (id : String)
    (es : List (String × Fields)) (m : String) (d : Fields) where
  -- The bus with the request's entry, before it sends.
  abbrev pub entered : Bus B
  entered = record b { client = add_pending b.client id for_future }

  abbrev pub traffic : List Event
  traffic = map receives (messages es ++ m ∷ [])

  abbrev pub result : Json
  result = attach_text (texts es) (get_or d "result" null)

  sent_awaits :
      (r : Bus B × Sent) (next : Begun) → r.1 ≡ returned true → after_send r id next ≡ (r.0, next)
  unfolding after_send
  sent_awaits (c, returned true) next e = refl
  sent_awaits (c, returned false) next e = ground arith
  sent_awaits (c, raised x) next e = ground arith

  pub known : Dict.get entered.client.pending_requests id ≡ some b.client.next_pending
  unfolding add_pending
  known = rw (get-put b.client.pending_requests id id b.client.next_pending, eq_refl id) refl

  pub new :
      entered.client.pending b.client.next_pending
      ≡ record { future = some waiting; chunks = []; queue = none }
  unfolding add_pending for_future
  new = update_self b.client.pending b.client.next_pending for_future

  module _ (method : String) (params : Option Fields) (timeout : Option ℤ) (session : Option String)
      (opts : RequestOptions) where
    abbrev pub wire : String
    wire = rt.dumps (obj (build_request b.client_session_id id method params opts session))

    pub begins :
        ready ops b ≡ true
        → (send ops entered wire).1 ≡ returned true
        → begin_request rt ops b id method params timeout session opts ≡ (
          (send ops entered wire).0,
          awaits b.client.next_pending (effective_timeout opts timeout b.timeout_ms),
        )
    unfolding begin_request
    begins r s = if-true _ _ _ r ∙ sent_awaits _ _ s

    -- The client when the wait ends.
    abbrev final : Client
    final = (handle_message_on_loop rt (handle_all rt entered.client (messages es)) m).0

    waited :
        ready ops b ≡ true
        → (send ops entered wire).1 ≡ returned true
        → ((request rt ops b id method params timeout session opts traffic future_done).1
            ≡ (end_request final id method b.client.next_pending future_done).1)
          × ((request rt ops b id method params timeout session opts traffic future_done).0.client
              ≡ (end_request final id method b.client.next_pending future_done).0)
    unfolding request end_call
    waited r s =
        let same =
          run-receives rt ops (send ops entered wire).0 (messages es ++ m ∷ [])
          ∙ handle_all-last rt _ (messages es) m
          ∙ ap (λ c. (handle_message_on_loop rt (handle_all rt c (messages es)) m).0)
              (client-send ops entered wire) in
        rw (begins r s, same) (refl, refl)

    -- On a bus that is ready, and whose backend takes the message: when the notifications and then the
    -- response with the request's identifier arrive, `request` returns the response's result with the
    -- texts of the notifications, and its identifier is in the table no more.
    pub request_answered :
        ready ops b ≡ true
        → (send ops entered wire).1 ≡ returned true
        → IsValid b.client
        → All (IsNotification rt) es
        → IsResponse rt m d id
        → Json.get d "error" ≡ none
        → let r = request rt ops b id method params timeout session opts traffic future_done in
          (r.1 ≡ replies result) × (Dict.get r.0.client.pending_requests id ≡ none)
    request_answered r s v notes response fine =
        let (reply, client) = waited r s in
        let (value, gone) =
          request_reply rt entered.client es m d id b.client.next_pending notes response
            (add_future-IsValid b.client id v) known fine method new in
        (reply ∙ value, ap (λ c. Dict.get c.pending_requests id) client ∙ gone)

  greeting_read :
      (c : Bus B) (j : Json) (h : HelloResult)
      → hello_result j ≡ some h
      → greet rt ops (c, replies j) ≡ (record c { agent_session_id = h.session_id }, greeted h)
  unfolding greet end_hello
  greeting_read c j h f = rw (f, end_hello) refl

  greeting :
      (r : Bus B × Reply) (j : Json) (h : HelloResult)
      → r.1 ≡ replies j
      → hello_result j ≡ some h
      → ((greet rt ops r).1 ≡ greeted h) × ((greet rt ops r).0.agent_session_id ≡ h.session_id)
  greeting (c, r) j h e f =
      let whole = ap (λ x. greet rt ops (c, x)) e ∙ greeting_read c j h f in
      (
        ap (λ (x : Bus B × Greeted). x.1) whole,
        ap (λ (x : Bus B × Greeted). x.0.agent_session_id) whole,
      )

  -- The handshake: under the same conditions for its own request, and where that result can be read,
  -- `hello` returns what is read, and the agent's session is the one that the result names.
  pub hello_session :
      (p : HelloParams) (h : HelloResult)
      → ready ops b ≡ true
      → (send ops entered
          (wire "stdio_bus/hello" (some (hello_params_dict p)) none none no_options)).1
        ≡ returned true
      → IsValid b.client
      → All (IsNotification rt) es
      → IsResponse rt m d id
      → Json.get d "error" ≡ none
      → hello_result result ≡ some h
      → ((hello rt ops b id p traffic future_done).1 ≡ greeted h)
        × ((hello rt ops b id p traffic future_done).0.agent_session_id ≡ h.session_id)
  unfolding hello
  hello_session p h r s v notes response fine read =
      greeting _ result h
        (request_answered "stdio_bus/hello" (some (hello_params_dict p)) none none no_options r s v
          notes response fine).0
        read
