-- ===== src/Client/Valid.antt =====
-- Every operation of `AsyncStdioBus` in stdiobus/client.py keeps the invariant of the requests.
use stdiobus_python.Base.{
  ℕ, String, ◌≡◌, ap, ◌∙◌, Bool, true, false, Option, none, some, Bool-cases, Option-cases, arith,
  inl, inr, nat-Eq,
}
use stdiobus_python.Base.Dict
use stdiobus_python.Base.Dict.{values}
use stdiobus_python.Base.Heap.{for_each-In, for_each-not_In}
use stdiobus_python.Json
use stdiobus_python.Json.{Json, Fields, null, bool, int, float, str, arr, obj, get_or}
use stdiobus_python.Errors.{StdioBusError}
use stdiobus_python.Client.Pending.{is_stream, PendingRequest, deliver_chunk}
use stdiobus_python.Client.State.{Client, Runtime}
use stdiobus_python.Client.Dispatch.{
  broadcast_chunk, chunk_text, call_message_handlers, handle_notification_on_loop, handle_response,
  settle_pending,
}
use stdiobus_python.Client.Loop.{
  message_id, has_method, dispatch_sequence, dispatch_object, dispatch, handle_message_on_loop,
}
use stdiobus_python.Client.Teardown.{
  fail_all, exited_error, shutdown_error, on_backend_closed, stop_client,
}
use stdiobus_python.Client.Objects.{
  In-dec, outcomes-deliver_chunk, outcomes-deliver_result, outcomes-deliver_error,
}
use stdiobus_python.Client.Table.{Inv, remove-Inv, change-Inv, settle-Inv, fail-Inv}
use stdiobus_python.Client.Frame.{
  SameRequests, deliver_each-SameRequests, close_subscriptions-SameRequests,
}

abbrev pub IsValid : Client → Type 0
IsValid c = Inv c.pending_requests c.pending c.next_pending

pub IsValid-same : {c c' : Client} → SameRequests c c' → IsValid c → IsValid c'
IsValid-same s v = rw (s.table, s.objects, s.next) v

is_stream-deliver_chunk :
    (p : PendingRequest) (t : String) → is_stream (deliver_chunk p t) ≡ is_stream p
unfolding deliver_chunk
is_stream-deliver_chunk p t = ground arith

broadcast_chunk-IsValid :
    (c : Client) (o : Option String) → IsValid c → IsValid (broadcast_chunk c o)
unfolding broadcast_chunk
broadcast_chunk-IsValid c none v = v
broadcast_chunk-IsValid c (some t) v =
    change-Inv v _
      (λ q. elim (In-dec q (values c.pending_requests)) [
        | inl i ↦
            rw (for_each-In f (values c.pending_requests) c.pending q v.distinct i)
              (omega (arith, outcomes-deliver_chunk (c.pending q) t))
        | inr out ↦ rw (for_each-not_In f (values c.pending_requests) c.pending q out) (omega arith)
      ])
      (λ q. elim (In-dec q (values c.pending_requests)) [
        | inl i ↦
            ap is_stream (for_each-In f (values c.pending_requests) c.pending q v.distinct i)
            ∙ is_stream-deliver_chunk (c.pending q) t
        | inr out ↦ ap is_stream (for_each-not_In f (values c.pending_requests) c.pending q out)
      ])
  where
    f : PendingRequest → PendingRequest
    f p = deliver_chunk p t

handle_notification-IsValid :
    (rt : Runtime) (c : Client) (d : Fields)
    → IsValid c
    → IsValid (handle_notification_on_loop rt c d)
unfolding handle_notification_on_loop
handle_notification-IsValid rt c d v =
    IsValid-same (deliver_each-SameRequests _ _ d) (broadcast_chunk-IsValid c (chunk_text d) v)

-- A response: the object under `id` is removed, and gets an outcome unless `error.get` raises.
settle_pending-IsValid :
    (c : Client) (id : String) (p : ℕ) (e : Option Json) (r : Json)
    → Dict.get c.pending_requests id ≡ some p
    → IsValid c
    → IsValid
        (settle_pending (record c { pending_requests = Dict.remove c.pending_requests id }) p e r).0
unfolding settle_pending
settle_pending-IsValid c id p none r g v =
    settle-Inv v id p _ g (outcomes-deliver_result (c.pending p) _)
settle_pending-IsValid c id p (some (obj x)) r g v =
    settle-Inv v id p _ g (outcomes-deliver_error (c.pending p) _)
settle_pending-IsValid c id p (some _) r g v = remove-Inv v id

handle_response-IsValid :
    (rt : Runtime) (c : Client) (d : Fields) (id : Json)
    → IsValid c
    → IsValid (handle_response rt c d id).0
unfolding handle_response
handle_response-IsValid rt c d id v =
    elim (Option-cases (Dict.get c.pending_requests (rt.to_str id))) [
      | inl e ↦ rw (e, handle_response) v
      | inr (p, e) ↦
          rw (e, handle_response)
            (settle_pending-IsValid c (rt.to_str id) p (Json.get d "error") (get_or d "result" null)
              e v)
    ]

sequence-IsValid :
    (c : Client) (has_id has_method : Bool)
    → IsValid c
    → IsValid (dispatch_sequence c has_id has_method).0
unfolding dispatch_sequence
sequence-IsValid c true m v = v
sequence-IsValid c false true v = v
sequence-IsValid c false false v = v

dispatch_object-IsValid :
    (rt : Runtime) (c : Client) (d : Fields) → IsValid c → IsValid (dispatch_object rt c d).0
unfolding dispatch_object
dispatch_object-IsValid rt c d v = elim (Option-cases (message_id d)) [
  | inr (id, e) ↦ rw (e, dispatch_object) (handle_response-IsValid rt c d id v)
  | inl e ↦
      rw (e, dispatch_object)
        (elim (Bool-cases (has_method d)) [
          | inl m ↦ rw m (handle_notification-IsValid rt c d v)
          | inr m ↦ rw m v
        ])
]

dispatch-IsValid : (rt : Runtime) (c : Client) (j : Json) → IsValid c → IsValid (dispatch rt c j).0
unfolding dispatch
dispatch-IsValid rt c (obj d) v = dispatch_object-IsValid rt c d v
dispatch-IsValid rt c (arr l) v = sequence-IsValid c _ _ v
dispatch-IsValid rt c (str s) v = sequence-IsValid c _ _ v
dispatch-IsValid rt c _ v = v

-- Handling any message, also one that raises, keeps the invariant.
pub handle_message-IsValid :
    (rt : Runtime) (c : Client) (m : String) → IsValid c → IsValid (handle_message_on_loop rt c m).0
unfolding handle_message_on_loop
handle_message-IsValid rt c m v = elim (Option-cases (rt.loads m)) [
  | inl e ↦ rw (e, handle_message_on_loop) v
  | inr (j, e) ↦
      rw (e, handle_message_on_loop) (dispatch-IsValid rt (call_message_handlers c m) j v)
]

fail_all-IsValid : (c : Client) (e : StdioBusError) → IsValid c → IsValid (fail_all c e)
unfolding fail_all
fail_all-IsValid c e v = fail-Inv v e

-- So does the exit of the backend, which gives each request in flight an error.
pub on_backend_closed-IsValid : (c : Client) → IsValid c → IsValid (on_backend_closed c)
unfolding on_backend_closed
on_backend_closed-IsValid c v = fail_all-IsValid c exited_error v

-- So does `stop`.
pub stop_client-IsValid : (c : Client) → IsValid c → IsValid (stop_client c)
unfolding stop_client
stop_client-IsValid c v =
    IsValid-same (close_subscriptions-SameRequests (fail_all c shutdown_error))
      (fail_all-IsValid c shutdown_error v)
