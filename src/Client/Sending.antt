-- ===== src/Client/Sending.antt =====
-- How `request` and `stream_request` of stdiobus/client.py begin: the guards, what goes to the backend,
-- and the table after a failure to send.
use stdiobus_python.Base.{
  ℕ, String, ◌≡◌, true, false, Option, none, eq_iff, arith, string-Eq, Bool-cases, inl, inr,
}
use stdiobus_python.Base.Int.{ℤ}
use stdiobus_python.Base.Dict
use stdiobus_python.Base.Dict.{get-put, get-remove}
use stdiobus_python.Json.{Fields}
use stdiobus_python.Errors.{Exception, sdk, invalid_state_class, raise_new}
use stdiobus_python.Types.Protocol.{RequestOptions}
use stdiobus_python.Client.Pending
use stdiobus_python.Client.Pending.{for_future, for_stream}
use stdiobus_python.Client.State.{Client, Runtime}
use stdiobus_python.Client.Bus.{
  Bus, BackendOps, Sent, returned, raised, ready, send, add_pending, drop_pending,
}
use stdiobus_python.Client.Requests.{Begun, begin_raised, awaits, after_send, begin_request}
use stdiobus_python.Client.Stream.{
  Stream, Started, start_raised, after_stream_send, active_stream, start_stream,
}
use stdiobus_python.Client.Begins.{client-send}

-- A put and a pop of a new identifier cancel out, for every look-up.
added_dropped :
    (c : Client) (id j : String) (p : Pending.PendingRequest)
    → Dict.get c.pending_requests id ≡ none
    → Dict.get (drop_pending (add_pending c id p) id).pending_requests j
      ≡ Dict.get c.pending_requests j
unfolding add_pending drop_pending
added_dropped c id j p new =
    rw
      (
        get-remove (Dict.put c.pending_requests id c.next_pending) id j,
        get-put c.pending_requests id j,
      )
      (ground (arith, eq_iff id j))

after_send_failed :
    {B : Type 0} (r : Bus B × Sent) (c : Client) (id : String) (p : ℕ) (t : ℤ) (e : Exception)
    → r.0.client ≡ add_pending c id for_future
    → Dict.get c.pending_requests id ≡ none
    → (after_send r id (awaits p t)).1 ≡ begin_raised e
    → (j : String)
    → Dict.get (after_send r id (awaits p t)).0.client.pending_requests j
      ≡ Dict.get c.pending_requests j
unfolding after_send
after_send_failed (b, returned true) c id p t e same new h j = cc
after_send_failed (b, returned false) c id p t e same new h j =
    rw same (added_dropped c id j for_future new)
after_send_failed (b, raised x) c id p t e same new h j =
    rw same (added_dropped c id j for_future new)

after_stream_send_failed :
    {B : Type 0} (r : Bus B × Sent) (c : Client) (s : Stream) (e : Exception)
    → r.0.client ≡ add_pending c s.msg_id for_stream
    → Dict.get c.pending_requests s.msg_id ≡ none
    → (after_stream_send r s).1 ≡ start_raised e
    → (j : String)
    → Dict.get (after_stream_send r s).0.client.pending_requests j ≡ Dict.get c.pending_requests j
unfolding after_stream_send
after_stream_send_failed (b, returned true) c s e same new h j = cc
after_stream_send_failed (b, returned false) c s e same new h j =
    rw same (added_dropped c s.msg_id j for_stream new)
after_stream_send_failed (b, raised x) c s e same new h j =
    rw same (added_dropped c s.msg_id j for_stream new)

module _ {B : Type 0} (rt : Runtime) (ops : BackendOps B) (b : Bus B) (id method : String)
    (params : Option Fields) (timeout : Option ℤ) (session : Option String)
    (opts : RequestOptions) where
  abbrev pub began : Bus B × Begun
  began = begin_request rt ops b id method params timeout session opts

  -- A `request` that raises before it waits, because the bus is not running, the send fails or the
  -- send raises, leaves the table with the entries that it had.
  pub begin_request_failed :
      (e : Exception)
      → Dict.get b.client.pending_requests id ≡ none
      → began.1 ≡ begin_raised e
      → (j : String)
      → Dict.get began.0.client.pending_requests j ≡ Dict.get b.client.pending_requests j
  unfolding begin_request
  begin_request_failed e new h j = elim (Bool-cases (ready ops b)) [
    | inr off ↦ rw off
    | inl on ↦ rw on (
        after_send_failed (send ops _ _) b.client id _ _ e (client-send ops _ _) new (rw on at h) j)
  ]

  module _ (now : ℕ) where
    abbrev pub opened : Bus B × Started
    opened = start_stream rt ops b now id method params timeout session opts

    -- So does a stream that raises before its first event.
    pub start_stream_failed :
        (e : Exception)
        → Dict.get b.client.pending_requests id ≡ none
        → opened.1 ≡ start_raised e
        → (j : String)
        → Dict.get opened.0.client.pending_requests j ≡ Dict.get b.client.pending_requests j
    unfolding start_stream
    start_stream_failed e new h j = elim (Bool-cases (ready ops b)) [
      | inr off ↦ rw off
      | inl on ↦ rw on (elim (Bool-cases (active_stream b.client)) [
        | inl busy ↦ rw busy
        | inr free ↦ rw free (
            after_stream_send_failed (send ops _ _) b.client _ e (client-send ops _ _) new
              (rw free at (rw on at h)) j)
      ])
    ]

    -- While a stream is active, another is refused and nothing changes.
    pub start_stream_busy :
        ready ops b ≡ true
        → active_stream b.client ≡ true
        → opened ≡ (
          b,
          start_raised (
              sdk (
                raise_new invalid_state_class
                  "Only one active stream_request is supported at a time")),
        )
    unfolding start_stream
    start_stream_busy on busy = rw (on, busy)
