-- ===== src/Client/Requests.antt =====
-- `request` and `notify` of `AsyncStdioBus` in stdiobus/client.py, up to the wait and after it.
use stdiobus_python.Base.{ℕ, String, ◌<>◌, true, false, Option, none, some, update, if◌then◌else◌}
use stdiobus_python.Base.Int.{ℤ}
use stdiobus_python.Json.{Json, Fields, obj}
use stdiobus_python.Errors.{
  Exception, sdk, invalid_state_class, timeout_class, transport_class, raise_new,
}
use stdiobus_python.Types.Protocol.{RequestOptions}
use stdiobus_python.Client.Pending.{
  Future, waiting, resolved, rejected, cancelled, for_future, deliver_to_future,
}
use stdiobus_python.Client.State.{Client, Runtime}
use stdiobus_python.Client.Bus.{
  Bus, BackendOps, Sent, returned, raised, ready, send, build_request, build_notification,
  effective_timeout, add_pending, drop_pending,
}

-- How far `request` comes before it waits: it raises, or it waits for the future of the object at an
-- address, for so many milliseconds.
pub data Begun : Type 0 where
  begin_raised : Exception → Begun
  awaits : ℕ → ℤ → Begun

abbrev pub drop_bus : {B : Type 0} → Bus B → String → Bus B
drop_bus b id = record b { client = drop_pending b.client id }

-- After the send: `TransportError` where it reports failure, and `except Exception` on what it raises.
unfoldable pub after_send : {B : Type 0} → Bus B × Sent → String → Begun → Bus B × Begun
after_send (b, returned true) id next = (b, next)
after_send (b, returned false) id next =
    (drop_bus b id, begin_raised (sdk (raise_new transport_class "Failed to send message")))
after_send (b, raised e) id next = (drop_bus b id, begin_raised e)

module _ {B : Type 0} (rt : Runtime) (ops : BackendOps B) where
  -- `msg_id` is the new `uuid4`.
  unfoldable pub begin_request :
      Bus B
      → (msg_id method : String) → Option Fields
      → Option ℤ
      → Option String
      → RequestOptions
      → Bus B × Begun
  unfolding after_send
  begin_request b msg_id method params timeout session opts =
      let wire = build_request b.client_session_id msg_id method params opts session in
      let b' : Bus B = record b { client = add_pending b.client msg_id for_future } in
      if ready ops b
      then after_send (send ops b' (rt.dumps (obj wire))) msg_id
          (awaits b.client.next_pending (effective_timeout opts timeout b.timeout_ms))
      else (b, begin_raised (sdk (raise_new invalid_state_class "Bus not running")))

  -- `notify`: what `send` returns is not looked at, and what it raises goes to the caller.
  unfoldable pub notify : Bus B → String → Option Fields → RequestOptions → Bus B × Option Exception
  notify b method params opts =
      let wire = build_notification b.client_session_id method params opts in
      let (b', s) = send ops b (rt.dumps (obj wire)) in
      (b', elim s [ returned r ↦ none | raised e ↦ some e ])

-- How the wait ends: the future is done, `wait_for` runs out of time and cancels the future, or the
-- caller's task is cancelled.
pub data Wake : Type 0 where
  future_done timed_out task_cancelled : Wake

pub data Reply : Type 0 where
  replies : Json → Reply
  reply_raised : Exception → Reply
  -- `asyncio.CancelledError`, which is no `Exception`.
  reply_cancelled : Reply
  still_waiting : Reply

unfoldable pub reply_of : Future → Reply
reply_of (resolved r) = replies r
reply_of (rejected e) = reply_raised (sdk e)
reply_of cancelled = reply_cancelled
reply_of waiting = still_waiting

-- `except Exception: self._pending_requests.pop(msg_id, None)`, which only an exception reaches.
unfoldable pub drop_on_raise : Client → String → Reply → Client
drop_on_raise c id (reply_raised e) = drop_pending c id
drop_on_raise c id r = c

-- `Future.cancel`, which does nothing to a future that is done.
abbrev pub cancel_at : Client → ℕ → Client
cancel_at c p = record c {
  pending = update c.pending p (deliver_to_future (c.pending p) cancelled);
}

abbrev pub future_at : Client → ℕ → Future
future_at c p = elim (c.pending p).future [ none ↦ waiting | some f ↦ f ]

unfoldable pub end_request : Client → (msg_id method : String) → ℕ → Wake → Client × Reply
unfolding drop_on_raise reply_of
end_request c id method p future_done =
    let r = reply_of (future_at c p) in (drop_on_raise c id r, r)
end_request c id method p timed_out = (
  drop_pending (cancel_at c p) id,
  reply_raised (sdk (raise_new timeout_class ("Request timeout: " <> method))),
)
end_request c id method p task_cancelled = (cancel_at c p, reply_cancelled)
