-- ===== src/System/Call.antt =====
-- A request of stdiobus/client.py over the process of stdiobus/backends/subprocess.py.
use stdiobus_python.Base.{
  String, ◌≡◌, refl, ap, ◌∙◌, true, Option, none, some, List, [], ◌∷◌, ◌++◌, map, if◌then◌else◌,
  All, arith, Bool-cases, inl, inr,
}
use stdiobus_python.Base.Int.{ℤ}
use stdiobus_python.Base.Dict
use stdiobus_python.Json
use stdiobus_python.Json.{Fields, null, get_or}
use stdiobus_python.Types.Enums.{running, is_running_state}
use stdiobus_python.Types.Protocol.{RequestOptions}
use stdiobus_python.Client.State.{Client, Runtime}
use stdiobus_python.Client.Bus
use stdiobus_python.Client.Bus.{Bus, returned, ready, effective_timeout}
use stdiobus_python.Client.Requests.{
  Begun, awaits, begin_request, future_done, end_request, replies,
}
use stdiobus_python.Client.Loop.{handle_all, handle_message_on_loop}
use stdiobus_python.Client.Dispatch.{attach_text}
use stdiobus_python.Client.Valid.{IsValid}
use stdiobus_python.Client.Begins.{client-send, add_future-IsValid}
use stdiobus_python.Client.Notifications.{IsNotification}
use stdiobus_python.Client.Notifications
use stdiobus_python.Client.Responses.{IsResponse}
use stdiobus_python.Client.Streaming.{request_reply}
use stdiobus_python.Client.Answers.{entered, wire, begins, known, new, handle_all-last}
use stdiobus_python.Backends.Subprocess
use stdiobus_python.Backends.Subprocess.{whole, Subprocess, Line, alive, drains}
use stdiobus_python.Backends.Subprocess.Reading.{is_message}
use stdiobus_python.System.{client_handler, ops, run, step, outputs, reads_line}
use stdiobus_python.System.Pipe.{IsServed, messages, reads_line-IsServed}

module _ (rt : Runtime) where
  -- Lines of output, while more may follow.
  outputs-IsServed :
      (ls : List Line) (b : Bus Subprocess)
      → IsServed b
      → IsServed (run rt b (map outputs ls))
        × ((run rt b (map outputs ls)).client ≡ handle_all rt b.client (messages rt ls))
  unfolding run step handle_all
  outputs-IsServed [] b v = (v, refl)
  outputs-IsServed (l ∷ ls) b v =
      let (v', e) = reads_line-IsServed rt b l v in
      let (w, c) = outputs-IsServed ls (reads_line rt b l) v' in
      (w, c ∙ ap (λ x. handle_all rt x (messages rt ls)) e ∙ joined b.client)
    where
      joined :
          (c : Client)
          → handle_all rt
              (handle_all rt c (if is_message rt l then l.text ∷ [] else []))
              (messages rt ls)
            ≡ handle_all rt c (messages rt (l ∷ ls))
      joined c = elim (Bool-cases (is_message rt l)) [ inl m ↦ rw m refl | inr m ↦ rw m refl ]

pipe-ready : (b : Bus Subprocess) → IsServed b → ready (ops alive drains whole) b ≡ true
unfolding ready
pipe-ready b (k, e, r, h) = rw (e, ready) (ap is_running_state r)

module _ (k : Subprocess) (m : String) (running_now : k.state ≡ running)
    (listens : k.message_handlers ≡ client_handler ∷ []) (takes : k.has_stdin ≡ true) where
  written :
      ((Subprocess.send k m whole).0.state ≡ running)
      × ((Subprocess.send k m whole).0.message_handlers ≡ client_handler ∷ [])
      × ((Subprocess.send k m whole).1 ≡ returned true)
  unfolding Subprocess.send
  written = ground arith

  send-IsServed :
      (b : Bus Subprocess)
      → b.backend ≡ some k
      → IsServed (Bus.send (ops alive drains whole) b m).0
        × ((Bus.send (ops alive drains whole) b m).1 ≡ returned true)
  unfolding Bus.send
  send-IsServed b e = let (r, h, w) = written in rw (e, Bus.send) ((_, refl, r, h), w)

module _ (rt : Runtime) (b : Bus Subprocess) (id : String) (es : List (String × Fields))
    (m : String) (d : Fields) (method : String) (params : Option Fields) (timeout : Option ℤ)
    (session : Option String) (opts : RequestOptions) where
  -- The bus when the request waits.
  abbrev pub waiting : Bus Subprocess × Begun
  waiting = begin_request rt (ops alive drains whole) b id method params timeout session opts

  -- A request over a process that runs, whose pipe takes it and whose only listener is the client: it
  -- waits; and when the process then puts out lines of which those that are JSON are the notifications and
  -- then the response with the request's identifier, its value is the response's result with the texts of
  -- the notifications, and its identifier is in the table no more.
  pub request_over_pipe :
      (k : Subprocess) (ls : List Line)
      → b.backend ≡ some k
      → k.state ≡ running
      → k.message_handlers ≡ client_handler ∷ []
      → k.has_stdin ≡ true
      → IsValid b.client
      → All (IsNotification rt) es
      → IsResponse rt m d id
      → Json.get d "error" ≡ none
      → messages rt ls ≡ Notifications.messages es ++ m ∷ []
      → let p = b.client.next_pending in
        let c = (run rt waiting.0 (map outputs ls)).client in
        (waiting.1 ≡ awaits p (effective_timeout opts timeout b.timeout_ms))
        × ((end_request c id method p future_done).1
            ≡ replies (attach_text (Notifications.texts es) (get_or d "result" null)))
        × (Dict.get (end_request c id method p future_done).0.pending_requests id ≡ none)
  request_over_pipe k ls e r h i v notes response fine lines =
      let o = ops alive drains whole in
      let text = wire rt o b id es m d method params timeout session opts in
      let start = entered rt o b id es m d in
      let (served, sent) = send-IsServed k text r h i start e in
      let began =
        begins rt o b id es m d method params timeout session opts (pipe-ready b (k, e, r, h))
          sent in
      let (still, client) = outputs-IsServed rt ls (Bus.send o start text).0 served in
      let final =
        client
        ∙ ap (λ ms. handle_all rt (Bus.send o start text).0.client ms) lines
        ∙ handle_all-last rt _ (Notifications.messages es) m
        ∙ ap (λ c. (handle_message_on_loop rt (handle_all rt c (Notifications.messages es)) m).0)
            (client-send o start text) in
      let (value, gone) =
        request_reply rt start.client es m d id b.client.next_pending notes response
          (add_future-IsValid b.client id v) (known rt o b id es m d) fine method
          (new rt o b id es m d) in
      rw (began, final) (refl, value, gone)
