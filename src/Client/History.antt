-- ===== src/Client/History.antt =====
-- The invariant of the requests holds after every history of stdiobus/client.py.
use stdiobus_python.Base.{String, Option, List, [], ◌∷◌, Option-cases, inl, inr, nat-Eq}
use stdiobus_python.Json.{Fields}
use stdiobus_python.Types.Protocol.{RequestOptions}
use stdiobus_python.Client.State.{Runtime}
use stdiobus_python.Client.Bus.{Bus, BackendOps}
use stdiobus_python.Client.Requests.{notify}
use stdiobus_python.Client.Stream.{after_result}
use stdiobus_python.Client.Lifecycle.{stop, destroy, subscribe_notifications, iterate}
use stdiobus_python.Client.Frame.{close_subscriptions-SameRequests, close_subscription-SameRequests}
use stdiobus_python.Client.Valid.{
  IsValid, IsValid-same, handle_message-IsValid, on_backend_closed-IsValid, stop_client-IsValid,
}
use stdiobus_python.Client.Run.{
  Event, receives, backend_exits, stops, destroys, requests, wakes, opens_stream, pulls, resumes,
  finishes, notifies, subscribes, unsubscribes, iterates, step, run,
}
use stdiobus_python.Client.Begins.{
  client-send, begin_request-IsValid, start_stream-IsValid, drop_pending-IsValid,
}
use stdiobus_python.Client.Wakes.{next_round-IsValid, resume-IsValid, end_request-IsValid}

module _ {B : Type 0} (rt : Runtime) (ops : BackendOps B) where
  stop-IsValid : (b : Bus B) → IsValid b.client → IsValid (stop ops b).client
  unfolding stop
  stop-IsValid b v = elim (Option-cases b.backend) [
    | inl e ↦ rw (e, stop) (stop_client-IsValid b.client v)
    | inr (k, e) ↦ rw (e, stop) (stop_client-IsValid b.client v)
  ]

  notify-IsValid :
      (b : Bus B) (method : String) (params : Option Fields) (opts : RequestOptions)
      → IsValid b.client
      → IsValid (notify rt ops b method params opts).0.client
  unfolding notify
  notify-IsValid b method params opts v = rw (client-send ops b _) v

  -- Whatever happens next, the invariant of the requests stays: identifiers name distinct objects, no
  -- stream in the table has a result or an error in its queue yet, no queue ever holds two of them, and one
  -- stream at most is in the table.
  pub step-IsValid : (b : Bus B) (e : Event) → IsValid b.client → IsValid (step rt ops b e).client
  unfolding step destroy subscribe_notifications after_result iterate
  step-IsValid b (receives m) v = handle_message-IsValid rt b.client m v
  step-IsValid b backend_exits v = on_backend_closed-IsValid b.client v
  step-IsValid b stops v = stop-IsValid b v
  step-IsValid b destroys v = IsValid-same (close_subscriptions-SameRequests b.client) v
  step-IsValid b (requests id method params timeout session opts) v =
      begin_request-IsValid rt ops b id method params timeout session opts v
  step-IsValid b (wakes id method p w) v = end_request-IsValid b.client id method p w v
  step-IsValid b (opens_stream now id method params timeout session opts) v =
      start_stream-IsValid rt ops b now id method params timeout session opts v
  step-IsValid b (pulls s now) v = next_round-IsValid b.client s now v
  step-IsValid b (resumes s a) v = resume-IsValid b.client s a v
  step-IsValid b (finishes s) v = drop_pending-IsValid b.client s.msg_id v
  step-IsValid b (notifies method params opts) v = notify-IsValid b method params opts v
  step-IsValid b (subscribes n o) v = v
  step-IsValid b (unsubscribes p) v = IsValid-same (close_subscription-SameRequests b.client p) v
  step-IsValid b (iterates p) v = v

  -- From a client that satisfies it, the invariant holds after any events, in any order: identifiers
  -- name distinct objects, each made before, no stream in the table has a result or an error in its queue
  -- yet, no queue holds two of them, and one stream at most is in the table.
  pub run-IsValid :
      (b : Bus B) (es : List Event) → IsValid b.client → IsValid (run rt ops b es).client
  unfolding run
  run-IsValid b [] v = v
  run-IsValid b (e ∷ es) v = run-IsValid (step rt ops b e) es (step-IsValid b e v)
