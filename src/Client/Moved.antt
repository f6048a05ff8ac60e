-- ===== src/Client/Moved.antt =====
-- The calls and the wakes of stdiobus/client.py are sequences of moves, and so is every history.
use stdiobus_python.Base.{
  ℕ, String, refl, true, false, Option, List, [], ◌∷◌, Bool-cases, Option-cases, List-cases, inl,
  inr, nat-Eq,
}
use stdiobus_python.Base.Int.{ℤ, pos, leb_ℤ}
use stdiobus_python.Json.{Fields}
use stdiobus_python.Types.Protocol.{RequestOptions}
use stdiobus_python.Client.Pending.{Item, chunk, result, error}
use stdiobus_python.Client.State.{Client, Runtime}
use stdiobus_python.Client.Bus.{Bus, BackendOps, Sent, returned, raised, ready, send}
use stdiobus_python.Client.Begins.{client-send}
use stdiobus_python.Client.Frame.{
  SameRequests, close_subscription-SameRequests, close_subscriptions-SameRequests,
}
use stdiobus_python.Client.Teardown.{exited_error, on_backend_closed}
use stdiobus_python.Client.Requests.{
  Begun, after_send, begin_request, notify, Wake, future_done, timed_out, task_cancelled, cancel_at,
  end_request, drop_on_raise, Reply, reply_raised,
}
use stdiobus_python.Client.Stream.{
  Stream, active_stream, after_stream_send, start_stream, take_item, next_round, Awake, item_ready,
  wait_timed_out, closed_by_consumer, resume, after_result, queue_at, set_queue,
}
use stdiobus_python.Client.Lifecycle
use stdiobus_python.Client.Run
use stdiobus_python.Client.Run.{
  Event, receives, backend_exits, stops, destroys, requests, wakes, opens_stream, pulls, resumes,
  finishes, notifies, subscribes, unsubscribes, iterates,
}
use stdiobus_python.Client.Moves.{
  keeps, drops, adds, changes, is_cancelled, is_left_with, Moves, here, next, one, Moves-trans,
  fail_all-Moves, stop_client-Moves, handle_message-Moves,
}

drop_on_raise-Moves : (c : Client) (id : String) (r : Reply) → Moves c (drop_on_raise c id r)
unfolding drop_on_raise
drop_on_raise-Moves c id (reply_raised e) = one (drops c id)
drop_on_raise-Moves c id _ = here

end_request-Moves :
    (c : Client) (id method : String) (p : ℕ) (w : Wake) → Moves c (end_request c id method p w).0
unfolding end_request
end_request-Moves c id method p future_done = drop_on_raise-Moves c id _
end_request-Moves c id method p timed_out =
    next (one (changes c p is_cancelled)) (drops (cancel_at c p) id)
end_request-Moves c id method p task_cancelled = one (changes c p is_cancelled)

take_item-Moves :
    (c : Client) (s : Stream) (i : Item) (rest : List Item) → Moves c (take_item c s i rest).0
unfolding take_item
take_item-Moves c s (chunk t) rest = one (changes c s.address (is_left_with rest))
take_item-Moves c s (result r) rest = one (changes c s.address (is_left_with rest))
take_item-Moves c s (error e) rest =
    next (one (changes c s.address (is_left_with rest)))
      (drops (set_queue c s.address rest) s.msg_id)

next_round-Moves : (c : Client) (s : Stream) (now : ℕ) → Moves c (next_round c s now).0
unfolding next_round
next_round-Moves c s now = elim (List-cases (queue_at c s.address)) [
  | inr (i, rest, e) ↦ rw (e, next_round) (take_item-Moves c s i rest)
  | inl e ↦
      rw (e, next_round)
        (elim (Bool-cases (leb_ℤ s.deadline (pos now))) [
          | inl late ↦ rw late (one (drops c s.msg_id))
          | inr early ↦ rw early here
        ])
]

resume-Moves : (c : Client) (s : Stream) (a : Awake) → Moves c (resume c s a).0
unfolding resume
resume-Moves c s item_ready = elim (List-cases (queue_at c s.address)) [
  | inr (i, rest, e) ↦ rw (e, resume) (take_item-Moves c s i rest)
  | inl e ↦ rw (e, resume) here
]
resume-Moves c s wait_timed_out = one (drops c s.msg_id)
resume-Moves c s closed_by_consumer = one (drops c s.msg_id)

module _ {B : Type 0} where
  after_send-Moves :
      (c : Client) (r : Bus B × Sent) (id : String) (begun : Begun)
      → Moves c r.0.client
      → Moves c (after_send r id begun).0.client
  unfolding after_send
  after_send-Moves c (b, returned true) id begun m = m
  after_send-Moves c (b, returned false) id begun m = next m (drops b.client id)
  after_send-Moves c (b, raised e) id begun m = next m (drops b.client id)

  after_stream_send-Moves :
      (c : Client) (r : Bus B × Sent) (s : Stream)
      → Moves c r.0.client
      → Moves c (after_stream_send r s).0.client
  unfolding after_stream_send
  after_stream_send-Moves c (b, returned true) s m = m
  after_stream_send-Moves c (b, returned false) s m = next m (drops b.client s.msg_id)
  after_stream_send-Moves c (b, raised e) s m = next m (drops b.client s.msg_id)

module _ {B : Type 0} (rt : Runtime) (ops : BackendOps B) where
  sent-Moves :
      (c : Client) (b : Bus B) (m : String) → Moves c b.client → Moves c (send ops b m).0.client
  sent-Moves c b m r = rw (client-send ops b m) r

  begin_request-Moves :
      (b : Bus B) (id method : String) (params : Option Fields) (timeout : Option ℤ)
      (session : Option String) (opts : RequestOptions)
      → Moves b.client (begin_request rt ops b id method params timeout session opts).0.client
  unfolding begin_request
  begin_request-Moves b id method params timeout session opts = elim (Bool-cases (ready ops b)) [
    | inr r ↦ rw r here
    | inl r ↦
        rw r (
          after_send-Moves b.client _ id _ (sent-Moves b.client _ _ (one (adds b.client id false))))
  ]

  start_stream-Moves :
      (b : Bus B) (now : ℕ) (id method : String) (params : Option Fields) (timeout : Option ℤ)
      (session : Option String) (opts : RequestOptions)
      → Moves b.client (start_stream rt ops b now id method params timeout session opts).0.client
  unfolding start_stream
  start_stream-Moves b now id method params timeout session opts = elim (Bool-cases (ready ops b)) [
    | inr r ↦ rw r here
    | inl r ↦ elim (Bool-cases (active_stream b.client)) [
      | inl a ↦ rw (r, a) here
      | inr a ↦
          rw (r, a)
            (after_stream_send-Moves b.client _ _
              (sent-Moves b.client _ _ (one (adds b.client id true))))
    ]
  ]

  stop-Moves : (b : Bus B) → Moves b.client (Lifecycle.stop ops b).client
  unfolding Lifecycle.stop
  stop-Moves b = elim (Option-cases b.backend) [
    | inl e ↦ rw (e, Lifecycle.stop) (stop_client-Moves b.client)
    | inr (k, e) ↦ rw (e, Lifecycle.stop) (stop_client-Moves b.client)
  ]

  unchanged : (c d : Client) → SameRequests c d → Moves c d
  unchanged c d s = one (keeps s)

  step-Moves : (b : Bus B) (e : Event) → Moves b.client (Run.step rt ops b e).client
  unfolding Run.step Lifecycle.destroy notify on_backend_closed after_result
      Lifecycle.subscribe_notifications Lifecycle.iterate
  step-Moves b (receives m) = handle_message-Moves rt b.client m
  step-Moves b backend_exits = fail_all-Moves b.client exited_error
  step-Moves b stops = stop-Moves b
  step-Moves b destroys = unchanged _ _ (close_subscriptions-SameRequests b.client)
  step-Moves b (requests id method params timeout session opts) =
      begin_request-Moves b id method params timeout session opts
  step-Moves b (wakes id method p w) = end_request-Moves b.client id method p w
  step-Moves b (opens_stream now id method params timeout session opts) =
      start_stream-Moves b now id method params timeout session opts
  step-Moves b (pulls s now) = next_round-Moves b.client s now
  step-Moves b (resumes s a) = resume-Moves b.client s a
  step-Moves b (finishes s) = one (drops b.client s.msg_id)
  step-Moves b (notifies method params opts) = rw (client-send ops b _) here
  step-Moves b (subscribes n o) =
      unchanged _ _ (record { table = refl; objects = refl; next = refl })
  step-Moves b (unsubscribes p) = unchanged _ _ (close_subscription-SameRequests b.client p)
  step-Moves b (iterates p) = unchanged _ _ (record { table = refl; objects = refl; next = refl })

  pub run-Moves : (b : Bus B) (es : List Event) → Moves b.client (Run.run rt ops b es).client
  unfolding Run.run
  run-Moves b [] = here
  run-Moves b (e ∷ es) = Moves-trans (step-Moves b e) (run-Moves (Run.step rt ops b e) es)
