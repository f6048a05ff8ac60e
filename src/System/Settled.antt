-- ===== src/System/Settled.antt =====
-- What the calls of stdiobus/client.py and the wakes of its coroutines leave true of a client over
-- stdiobus/backends/subprocess.py: when the backend is not running, no request is pending.
use stdiobus_python.Base.{
  ℕ, String, ◌≡◌, refl, ◌∙◌, true, false, Option, none, some, arith, Bool-cases, Option-cases, inl,
  inr, ◌⊎◌,
}
use mathlib.Core.Path.{subst}
use stdiobus_python.Types.Enums.{BusState, running, is_running_state}
use stdiobus_python.Base.Int.{ℤ}
use stdiobus_python.Json.{Fields}
use stdiobus_python.Types.Protocol.{RequestOptions}
use stdiobus_python.Client.Frame.{close_subscription-SameRequests, close_subscriptions-SameRequests}
use stdiobus_python.Client.State.{Client, Runtime}
use stdiobus_python.Client.Bus
use stdiobus_python.Client.Bus.{Bus, BackendOps, Sent, returned, raised, drop_pending, ready}
use stdiobus_python.Client.Requests.{Begun, after_send, begin_request, notify}
use stdiobus_python.Client.Stream.{
  Stream, after_stream_send, start_stream, active_stream, after_result,
}
use stdiobus_python.Client.Teardown.{fail_all, stop_client, shutdown_error, on_backend_closed}
use stdiobus_python.Client.Lifecycle
use stdiobus_python.Client.Run
use stdiobus_python.Client.Run.{
  receives, backend_exits, stops, destroys, requests, wakes, opens_stream, pulls, resumes, finishes,
  notifies, subscribes, unsubscribes, iterates,
}
use stdiobus_python.Backends.Subprocess
use stdiobus_python.Backends.Subprocess.{
  Write, Subprocess, Spawn, Exit, spawn_raises, exits_early, alive, after_spawn, is_created,
  is_active, end_reading, read_line, Line,
}
use stdiobus_python.System.{ops, step, starts}
use stdiobus_python.System.Empty.{
  IsEmpty, handle_message-IsEmpty, drop_pending-IsEmpty, end_request-IsEmpty, next_round-IsEmpty,
  resume-IsEmpty,
}

abbrev pub Settled : Option Subprocess → Client → Type 0
Settled none c = Unit
Settled (some k) c = (k.state ≡ running) ⊎ IsEmpty c

abbrev pub IsQuiet : Bus Subprocess → Type 0
IsQuiet b = Settled b.backend b.client

abbrev IsUp : Option Subprocess → Type 0
IsUp o = (k : Subprocess) × (o ≡ some k) × (k.state ≡ running)

up-Settled : (o : Option Subprocess) (c : Client) → IsUp o → Settled o c
up-Settled o c (k, e, r) = rw e (inl r)

empty-Settled : (o : Option Subprocess) (c : Client) → IsEmpty c → Settled o c
empty-Settled none c e = tt
empty-Settled (some k) c e = inr e

keeps-Settled :
    (o : Option Subprocess) (c c' : Client) → (IsEmpty c → IsEmpty c') → Settled o c → Settled o c'
keeps-Settled none c c' f q = tt
keeps-Settled (some k) c c' f (inl r) = inl r
keeps-Settled (some k) c c' f (inr e) = inr (f e)

pub read_line-state :
    (rt : Runtime) (k : Subprocess) (l : Line) → (read_line rt k l).state ≡ k.state
unfolding read_line
read_line-state rt k l = ground arith

pub is_running-running : (s : BusState) → is_running_state s ≡ true → s ≡ running
is_running-running s e = ground arith

send-state : (k : Subprocess) (m : String) (w : Write) → (Subprocess.send k m w).0.state ≡ k.state
unfolding Subprocess.send
send-state k m w = ground arith

start-Settled :
    (k : Subprocess) (s : Spawn) (c : Client)
    → Settled (some k) c
    → Settled (some (Subprocess.start k s).0) c
unfolding Subprocess.start after_spawn
start-Settled k (spawn_raises e) c q = ground arith
start-Settled k exits_early c q = ground arith
start-Settled k alive c q = ground arith

pub step_starts :
    (rt : Runtime) (b : Bus Subprocess) (l : ℕ) (s : Spawn)
    → IsQuiet b
    → IsQuiet (step rt b (starts l s))
unfolding step Lifecycle.start
step_starts rt b l s q = elim (Option-cases b.backend) [
  | inl e ↦ rw (e, Lifecycle.start) tt
  | inr (k, e) ↦
      let at : Settled (some k) b.client = subst (λ o. Settled o b.client) e q in
      rw (e, Lifecycle.start) (start-Settled k s b.client at)
]

module _ (rt : Runtime) (exit : Exit) (written : Write) where
  abbrev backend_ops : BackendOps Subprocess
  backend_ops = ops alive exit written

  ready-IsUp : (b : Bus Subprocess) → ready backend_ops b ≡ true → IsUp b.backend
  unfolding ready
  ready-IsUp b r = elim (Option-cases b.backend) [
    | inl e ↦ ground arith
    | inr (k, e) ↦ (k, e, is_running-running k.state (ground arith))
  ]

  send-IsUp :
      (b : Bus Subprocess) (m : String) → IsUp b.backend → IsUp (Bus.send backend_ops b m).0.backend
  unfolding Bus.send
  send-IsUp b m (k, e, r) =
      rw (e, Bus.send) ((Subprocess.send k m written).0, refl, send-state k m written ∙ r)

  send-Settled :
      (b : Bus Subprocess) (m : String) → IsQuiet b → IsQuiet (Bus.send backend_ops b m).0
  unfolding Bus.send
  send-Settled b m q = elim (Option-cases b.backend) [
    | inl e ↦ rw (e, Bus.send) (rw e tt)
    | inr (k, e) ↦
        let at : Settled (some k) b.client = subst (λ o. Settled o b.client) e q in
        rw (e, Bus.send) (ground (arith, send-state k m written))
  ]

  request-send :
      (r : Bus Subprocess × Sent) (id : String) (next : Begun)
      → IsUp r.0.backend
      → IsUp (after_send r id next).0.backend
  unfolding after_send
  request-send (b, returned true) id next u = u
  request-send (b, returned false) id next u = u
  request-send (b, raised e) id next u = u

  stream-send :
      (r : Bus Subprocess × Sent) (s : Stream)
      → IsUp r.0.backend
      → IsUp (after_stream_send r s).0.backend
  unfolding after_stream_send
  stream-send (b, returned true) s u = u
  stream-send (b, returned false) s u = u
  stream-send (b, raised e) s u = u

  step_requests :
      (b : Bus Subprocess) (id method : String) (params : Option Fields) (timeout : Option ℤ)
      (session : Option String) (opts : RequestOptions)
      → IsQuiet b
      → IsQuiet (begin_request rt backend_ops b id method params timeout session opts).0
  unfolding begin_request
  step_requests b id method params timeout session opts q =
      elim (Bool-cases (ready backend_ops b)) [
        | inl r ↦ rw r (up-Settled _ _ (request-send _ id _ (send-IsUp _ _ (ready-IsUp b r))))
        | inr r ↦ rw r q
      ]

  step_streams :
      (b : Bus Subprocess) (now : ℕ) (id method : String) (params : Option Fields)
      (timeout : Option ℤ) (session : Option String) (opts : RequestOptions)
      → IsQuiet b
      → IsQuiet (start_stream rt backend_ops b now id method params timeout session opts).0
  unfolding start_stream
  step_streams b now id method params timeout session opts q =
      elim (Bool-cases (ready backend_ops b)) [
        | inr r ↦ rw r q
        | inl r ↦ elim (Bool-cases (active_stream b.client)) [
          | inl a ↦ rw (r, a) q
          | inr a ↦ rw (r, a) (up-Settled _ _ (stream-send _ _ (send-IsUp _ _ (ready-IsUp b r))))
        ]
      ]

  stopped-IsEmpty : (c : Client) → IsEmpty (stop_client c)
  unfolding stop_client fail_all
  stopped-IsEmpty c = (close_subscriptions-SameRequests (fail_all c shutdown_error)).table

  step_stops : (b : Bus Subprocess) → IsQuiet (Lifecycle.stop backend_ops b)
  unfolding Lifecycle.stop
  step_stops b = elim (Option-cases b.backend) [
    | inl e ↦ rw (e, Lifecycle.stop) (rw e tt)
    | inr (k, e) ↦ rw (e, Lifecycle.stop) (inr (stopped-IsEmpty b.client))
  ]

  pub step_acts :
      (b : Bus Subprocess) (e : Run.Event) → IsQuiet b → IsQuiet (Run.step rt backend_ops b e)
  unfolding Run.step Lifecycle.destroy notify fail_all on_backend_closed after_result
      Lifecycle.subscribe_notifications Lifecycle.iterate
  step_acts b (receives m) q =
      keeps-Settled b.backend b.client _ (handle_message-IsEmpty rt b.client m) q
  step_acts b backend_exits q = empty-Settled b.backend _ refl
  step_acts b stops q = step_stops b
  step_acts b destroys q = tt
  step_acts b (requests id method params timeout session opts) q =
      step_requests b id method params timeout session opts q
  step_acts b (wakes id method p w) q =
      keeps-Settled b.backend b.client _ (end_request-IsEmpty b.client id method p w) q
  step_acts b (opens_stream now id method params timeout session opts) q =
      step_streams b now id method params timeout session opts q
  step_acts b (pulls s now) q =
      keeps-Settled b.backend b.client _ (next_round-IsEmpty b.client s now) q
  step_acts b (resumes s a) q = keeps-Settled b.backend b.client _ (resume-IsEmpty b.client s a) q
  step_acts b (finishes s) q =
      keeps-Settled b.backend b.client _ (drop_pending-IsEmpty b.client s.msg_id) q
  step_acts b (notifies method params opts) q = send-Settled b _ q
  step_acts b (subscribes n o) q = keeps-Settled b.backend b.client _ (λ e. e) q
  step_acts b (unsubscribes p) q =
      keeps-Settled b.backend b.client _
        (λ e. (close_subscription-SameRequests b.client p).table ∙ e) q
  step_acts b (iterates p) q = keeps-Settled b.backend b.client _ (λ e. e) q
