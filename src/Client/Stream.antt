-- ===== src/Client/Stream.antt =====
-- `stream_request` of `AsyncStdioBus` in stdiobus/client.py: an asynchronous generator, as the calls
-- of its `__anext__`. Times are milliseconds of the monotonic clock.
use stdiobus_python.Base.{
  ℕ, String, ◌<>◌, Bool, true, false, not, Option, none, some, List, [], ◌∷◌, update, if◌then◌else◌,
}
use stdiobus_python.Base.Int.{ℤ, pos, leb_ℤ, ◌+ℤ◌}
use stdiobus_python.Base.Dict.{values}
use stdiobus_python.Json.{Json, Fields, obj}
use stdiobus_python.Errors.{
  Exception, sdk, invalid_state_class, timeout_class, transport_class, raise_new,
}
use stdiobus_python.Types.Protocol.{RequestOptions}
use stdiobus_python.Client.Pending.{
  is_stream, PendingRequest, Item, chunk, result, error, for_stream,
}
use stdiobus_python.Client.State.{Client, Runtime}
use stdiobus_python.Client.Bus.{
  Bus, BackendOps, Sent, returned, raised, ready, send, build_request, effective_timeout,
  add_pending, drop_pending,
}

-- The generator's local variables once the request is sent.
pub record Stream : Type 0 where
  pub msg_id : String
  pub method : String
  pub address : ℕ
  pub deadline : ℤ

pub data Started : Type 0 where
  start_raised : Exception → Started
  streams : Stream → Started

-- `any(p.queue is not None for p in self._pending_requests.values())`
unfoldable pub any_stream : (ℕ → PendingRequest) → List ℕ → Bool
any_stream h [] = false
any_stream h (p ∷ ps) = let rest = any_stream h ps in if is_stream (h p) then true else rest

abbrev pub active_stream : Client → Bool
active_stream c = any_stream c.pending (values c.pending_requests)

-- The `finally` clause on a failure to send.
unfoldable pub after_stream_send : {B : Type 0} → Bus B × Sent → Stream → Bus B × Started
after_stream_send (b, returned true) s = (b, streams s)
after_stream_send (b, returned false) s = (
  record b { client = drop_pending b.client s.msg_id },
  start_raised (sdk (raise_new transport_class "Failed to send message")),
)
after_stream_send (b, raised e) s =
    (record b { client = drop_pending b.client s.msg_id }, start_raised e)

module _ {B : Type 0} (rt : Runtime) (ops : BackendOps B) where
  -- The first `__anext__`, up to the loop. `now` is `time.monotonic()`.
  unfoldable pub start_stream :
      Bus B
      → (now : ℕ) → (msg_id method : String) → Option Fields
      → Option ℤ
      → Option String
      → RequestOptions
      → Bus B × Started
  unfolding after_stream_send any_stream
  start_stream b now msg_id method params timeout session opts =
      let wire = build_request b.client_session_id msg_id method params opts session in
      let b' : Bus B = record b { client = add_pending b.client msg_id for_stream } in
      let s : Stream = record {
        msg_id = msg_id;
        method = method;
        address = b.client.next_pending;
        deadline = pos now +ℤ effective_timeout opts timeout b.timeout_ms;
      } in
      if not (ready ops b)
      then (b, start_raised (sdk (raise_new invalid_state_class "Bus not running")))
      else if active_stream b.client
      then (
        b,
        start_raised (
            sdk (
              raise_new invalid_state_class
                "Only one active stream_request is supported at a time")),
      )
      else after_stream_send (send ops b' (rt.dumps (obj wire))) s

-- What one round of the loop comes to. The generator is over after `stream_raised` and
-- `stream_closed`; after `stream_result` its next call is `after_result`. `suspends` waits for the
-- queue for the time that remains.
pub data Round : Type 0 where
  stream_chunk : String → Round
  stream_result : Json → Round
  stream_raised : Exception → Round
  suspends : Round
  stream_closed : Round

abbrev pub queue_at : Client → ℕ → List Item
queue_at c p = elim (c.pending p).queue [ none ↦ [] | some q ↦ q ]

abbrev pub set_queue : Client → ℕ → List Item → Client
set_queue c p q = record c {
  pending = update c.pending p (record (c.pending p) { queue = some q });
}

-- `kind, payload = item`, and what follows.
unfoldable pub take_item : Client → Stream → Item → List Item → Client × Round
take_item c s (chunk t) rest = (set_queue c s.address rest, stream_chunk t)
take_item c s (result r) rest = (set_queue c s.address rest, stream_result r)
take_item c s (error e) rest =
    (drop_pending (set_queue c s.address rest) s.msg_id, stream_raised (sdk e))

abbrev pub timeout_error : Stream → Exception
timeout_error s = sdk (raise_new timeout_class ("Request timeout: " <> s.method))

-- A round at the time `now`: what is in the queue comes before the deadline.
unfoldable pub next_round : Client → Stream → ℕ → Client × Round
unfolding take_item
next_round c s now = elim (queue_at c s.address) [
  | i ∷ rest ↦ take_item c s i rest
  | [] ↦
      if leb_ℤ s.deadline (pos now)
      then (drop_pending c s.msg_id, stream_raised (timeout_error s))
      else (c, suspends)
]

-- How the wait for the queue ends.
pub data Awake : Type 0 where
  item_ready wait_timed_out closed_by_consumer : Awake

unfoldable pub resume : Client → Stream → Awake → Client × Round
unfolding take_item
resume c s item_ready = elim (queue_at c s.address) [
  | i ∷ rest ↦ take_item c s i rest
  | [] ↦ (c, suspends)
]
resume c s wait_timed_out = (drop_pending c s.msg_id, stream_raised (timeout_error s))
resume c s closed_by_consumer = (drop_pending c s.msg_id, stream_closed)

-- The `return` after the result, on the consumer's next call: `finally`, then `StopAsyncIteration`.
unfoldable pub after_result : Client → Stream → Client × Round
after_result c s = (drop_pending c s.msg_id, stream_closed)
