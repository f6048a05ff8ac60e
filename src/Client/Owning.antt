-- ===== src/Client/Owning.antt =====
-- What the events on the loop of stdiobus/client.py leave alone: the owning loop, and the lack of a
-- backend.
use stdiobus_python.Base.{
  ℕ, String, ◌≡◌, refl, ◌∙◌, true, false, Option, none, some, List, [], ◌∷◌, arith, Option-cases,
  inl, inr, Bool-cases,
}
use stdiobus_python.Base.Int.{ℤ}
use stdiobus_python.Json.{Json, Fields}
use stdiobus_python.Types.Protocol.{
  RequestOptions, no_options, HelloParams, hello_params_dict, hello_result,
}
use stdiobus_python.Client.State.{Runtime}
use stdiobus_python.Client.Bus
use stdiobus_python.Client.Bus.{Bus, BackendOps, Sent, returned, raised, ready}
use stdiobus_python.Client.Requests.{
  Wake, Begun, begin_raised, awaits, Reply, replies, after_send, begin_request, notify,
}
use stdiobus_python.Client.Stream.{Stream, active_stream, after_stream_send, start_stream}
use stdiobus_python.Client.Lifecycle
use stdiobus_python.Client.Run
use stdiobus_python.Client.Run.{stops, destroys, requests, opens_stream, notifies}
use stdiobus_python.Client.Session

-- What every event on the loop leaves: the owning loop, and the lack of a backend.
abbrev pub Stays : {B : Type 0} → Bus B → Bus B → Type 0
Stays b b' = (b'.loop ≡ b.loop) × (b.backend ≡ none → b'.backend ≡ none)

pub Stays-trans : {B : Type 0} (a b c : Bus B) → Stays a b → Stays b c → Stays a c
Stays-trans a b c (l, n) (l', n') = (l' ∙ l, λ e. n' (n e))

module _ {B : Type 0} (rt : Runtime) (ops : BackendOps B) where
  pub send-Stays : (b : Bus B) (m : String) → Stays b (Bus.send ops b m).0
  unfolding Bus.send
  send-Stays b m = elim (Option-cases b.backend) [
    | inl e ↦ rw (e, Bus.send) (refl, λ n. e)
    | inr (k, e) ↦ rw (e, Bus.send) (refl, λ n. ground arith)
  ]

  after_send-Stays :
      (b : Bus B) (r : Bus B × Sent) (id : String) (next : Begun)
      → Stays b r.0
      → Stays b (after_send r id next).0
  unfolding after_send
  after_send-Stays b (c, returned true) id next s = s
  after_send-Stays b (c, returned false) id next s = s
  after_send-Stays b (c, raised e) id next s = s

  after_stream_send-Stays :
      (b : Bus B) (r : Bus B × Sent) (s : Stream) → Stays b r.0 → Stays b (after_stream_send r s).0
  unfolding after_stream_send
  after_stream_send-Stays b (c, returned true) t s = s
  after_stream_send-Stays b (c, returned false) t s = s
  after_stream_send-Stays b (c, raised e) t s = s

  begin_request-Stays :
      (b : Bus B) (id method : String) (params : Option Fields) (timeout : Option ℤ)
      (session : Option String) (opts : RequestOptions)
      → Stays b (begin_request rt ops b id method params timeout session opts).0
  unfolding begin_request
  begin_request-Stays b id method params timeout session opts = elim (Bool-cases (ready ops b)) [
    | inl r ↦ rw r (after_send-Stays b _ id _ (send-Stays _ _))
    | inr r ↦ rw r (refl, λ n. n)
  ]

  start_stream-Stays :
      (b : Bus B) (now : ℕ) (id method : String) (params : Option Fields) (timeout : Option ℤ)
      (session : Option String) (opts : RequestOptions)
      → Stays b (start_stream rt ops b now id method params timeout session opts).0
  unfolding start_stream
  start_stream-Stays b now id method params timeout session opts = elim (Bool-cases (ready ops b)) [
    | inr r ↦ rw r (refl, λ n. n)
    | inl r ↦ elim (Bool-cases (active_stream b.client)) [
      | inl a ↦ rw (r, a) (refl, λ n. n)
      | inr a ↦ rw (r, a) (after_stream_send-Stays b _ _ (send-Stays _ _))
    ]
  ]

  pub stop-Stays : (b : Bus B) → Stays b (Lifecycle.stop ops b)
  unfolding Lifecycle.stop
  stop-Stays b = elim (Option-cases b.backend) [
    | inl e ↦ rw (e, Lifecycle.stop) (refl, λ n. e)
    | inr (k, e) ↦ rw (e, Lifecycle.stop) (refl, λ n. ground arith)
  ]

  step-Stays : (b : Bus B) (e : Run.Event) → Stays b (Run.step rt ops b e)
  unfolding Run.step Lifecycle.destroy notify
  step-Stays b stops = stop-Stays b
  step-Stays b destroys = (refl, λ n. refl)
  step-Stays b (requests id method params timeout session opts) =
      begin_request-Stays b id method params timeout session opts
  step-Stays b (opens_stream now id method params timeout session opts) =
      start_stream-Stays b now id method params timeout session opts
  step-Stays b (notifies method params opts) = send-Stays b _
  step-Stays b _ = (refl, λ n. n)

  run-Stays : (b : Bus B) (es : List Run.Event) → Stays b (Run.run rt ops b es)
  unfolding Run.run
  run-Stays b [] = (refl, λ n. n)
  run-Stays b (e ∷ es) =
      Stays-trans b (Run.step rt ops b e) (Run.run rt ops (Run.step rt ops b e) es) (step-Stays b e)
        (run-Stays (Run.step rt ops b e) es)

  pub request-Stays :
      (b : Bus B) (id method : String) (params : Option Fields) (timeout : Option ℤ)
      (session : Option String) (opts : RequestOptions) (during : List Run.Event) (w : Wake)
      → Stays b (Session.request rt ops b id method params timeout session opts during w).0
  unfolding Session.request
  request-Stays b id method params timeout session opts during w =
      ended _ (begin_request-Stays b id method params timeout session opts)
    where
      ended :
          (r : Bus B × Begun)
          → Stays b r.0
          → Stays b (Session.end_call rt ops r id method during w).0
      ended (c, begin_raised e) s = s
      ended (c, awaits p t) s = Stays-trans b c (Run.run rt ops c during) s (run-Stays c during)

  end_hello-Stays : (b : Bus B) (j : Json) → Stays b (Lifecycle.end_hello b j).0
  unfolding Lifecycle.end_hello
  end_hello-Stays b j = elim (Option-cases (hello_result j)) [
    | inl e ↦ rw (e, Lifecycle.end_hello) (refl, λ n. n)
    | inr (h, e) ↦ rw (e, Lifecycle.end_hello) (refl, λ n. n)
  ]

  pub hello-Stays :
      (b : Bus B) (id : String) (p : HelloParams) (during : List Run.Event) (w : Wake)
      → Stays b (Session.hello rt ops b id p during w).0
  unfolding Session.hello
  hello-Stays b id p during w = read _ (
      request-Stays b id "stdio_bus/hello" (some (hello_params_dict p)) none none no_options during
        w)
    where
      read : (r : Bus B × Reply) → Stays b r.0 → Stays b (Session.greet rt ops r).0
      read (c, replies j) s = Stays-trans b c (Lifecycle.end_hello c j).0 s (end_hello-Stays c j)
      read (c, _) s = s
