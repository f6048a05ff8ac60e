-- ===== src/System/Empty.antt =====
-- Operations of stdiobus/client.py that put nothing into an empty table of requests.
use stdiobus_python.Base.{
  ℕ, String, ◌≡◌, refl, ap, ◌∙◌, Bool, true, false, Option, none, some, List, [], Bool-cases,
  List-cases, Option-cases, inl, inr,
}
use stdiobus_python.Base.Dict
use stdiobus_python.Json.{Json, Fields, str, arr, obj}
use stdiobus_python.Client.State.{Client, Runtime}
use stdiobus_python.Client.Bus.{drop_pending}
use stdiobus_python.Client.Requests.{
  Wake, future_done, timed_out, task_cancelled, end_request, drop_on_raise, Reply, reply_raised,
  reply_of, future_at,
}
use stdiobus_python.Client.Stream.{
  Stream, take_item, next_round, Awake, item_ready, wait_timed_out, closed_by_consumer, resume,
  queue_at,
}
use stdiobus_python.Client.Pending.{Item, chunk, result, error}
use stdiobus_python.Client.Dispatch.{
  broadcast_chunk, chunk_text, call_message_handlers, handle_notification_on_loop, handle_response,
}
use stdiobus_python.Client.Loop.{
  message_id, has_method, dispatch_sequence, dispatch_object, dispatch, handle_message_on_loop,
}
use stdiobus_python.Base.Int.{pos, leb_ℤ}
use stdiobus_python.Client.Frame.{deliver_each-SameRequests}

abbrev pub IsEmpty : Client → Type 0
IsEmpty c = c.pending_requests ≡ []

broadcast-IsEmpty : (c : Client) (o : Option String) → IsEmpty c → IsEmpty (broadcast_chunk c o)
unfolding broadcast_chunk
broadcast-IsEmpty c none e = e
broadcast-IsEmpty c (some t) e = e

module _ (rt : Runtime) where
  notification-IsEmpty :
      (c : Client) (d : Fields) → IsEmpty c → IsEmpty (handle_notification_on_loop rt c d)
  unfolding handle_notification_on_loop
  notification-IsEmpty c d e =
      (deliver_each-SameRequests _ _ d).table ∙ broadcast-IsEmpty c (chunk_text d) e

  response-IsEmpty :
      (c : Client) (d : Fields) (id : Json) → IsEmpty c → IsEmpty (handle_response rt c d id).0
  unfolding handle_response
  response-IsEmpty c d id e =
      let absent : Dict.get c.pending_requests (rt.to_str id) ≡ none =
        ap (λ t. Dict.get t (rt.to_str id)) e ∙ unfold Dict.get in refl in
      rw (absent, handle_response) e

  sequence-IsEmpty : (c : Client) (i m : Bool) → IsEmpty c → IsEmpty (dispatch_sequence c i m).0
  unfolding dispatch_sequence
  sequence-IsEmpty c true m e = e
  sequence-IsEmpty c false true e = e
  sequence-IsEmpty c false false e = e

  object-IsEmpty : (c : Client) (d : Fields) → IsEmpty c → IsEmpty (dispatch_object rt c d).0
  unfolding dispatch_object
  object-IsEmpty c d e = elim (Option-cases (message_id d)) [
    | inr (id, i) ↦ rw (i, dispatch_object) (response-IsEmpty c d id e)
    | inl i ↦
        rw (i, dispatch_object)
          (elim (Bool-cases (has_method d)) [
            | inl m ↦ rw m (notification-IsEmpty c d e)
            | inr m ↦ rw m e
          ])
  ]

  dispatch-IsEmpty : (c : Client) (j : Json) → IsEmpty c → IsEmpty (dispatch rt c j).0
  unfolding dispatch
  dispatch-IsEmpty c (obj d) e = object-IsEmpty c d e
  dispatch-IsEmpty c (arr l) e = sequence-IsEmpty c _ _ e
  dispatch-IsEmpty c (str s) e = sequence-IsEmpty c _ _ e
  dispatch-IsEmpty c _ e = e

  pub handle_message-IsEmpty :
      (c : Client) (m : String) → IsEmpty c → IsEmpty (handle_message_on_loop rt c m).0
  unfolding handle_message_on_loop call_message_handlers
  handle_message-IsEmpty c m e = elim (Option-cases (rt.loads m)) [
    | inl i ↦ rw (i, handle_message_on_loop) e
    | inr (j, i) ↦ rw (i, handle_message_on_loop) (dispatch-IsEmpty (call_message_handlers c m) j e)
  ]

pub drop_pending-IsEmpty : (c : Client) (id : String) → IsEmpty c → IsEmpty (drop_pending c id)
unfolding drop_pending Dict.remove
drop_pending-IsEmpty c id e = ap (λ t. Dict.remove t id) e

pub end_request-IsEmpty :
    (c : Client) (id method : String) (p : ℕ) (w : Wake)
    → IsEmpty c
    → IsEmpty (end_request c id method p w).0
unfolding end_request
end_request-IsEmpty c id method p future_done e = by_reply (reply_of (future_at c p))
  where
    by_reply : (r : Reply) → IsEmpty (drop_on_raise c id r)
    by_reply (reply_raised x) = drop_pending-IsEmpty c id e
    by_reply r = e
end_request-IsEmpty c id method p timed_out e = drop_pending-IsEmpty _ id e
end_request-IsEmpty c id method p task_cancelled e = e

take_item-IsEmpty :
    (c : Client) (s : Stream) (i : Item) (rest : List Item)
    → IsEmpty c
    → IsEmpty (take_item c s i rest).0
unfolding take_item
take_item-IsEmpty c s (chunk t) rest e = e
take_item-IsEmpty c s (result r) rest e = e
take_item-IsEmpty c s (error x) rest e = drop_pending-IsEmpty _ s.msg_id e

pub next_round-IsEmpty :
    (c : Client) (s : Stream) (now : ℕ) → IsEmpty c → IsEmpty (next_round c s now).0
unfolding next_round
next_round-IsEmpty c s now e = elim (List-cases (queue_at c s.address)) [
  | inr (i, rest, q) ↦ rw (q, next_round) (take_item-IsEmpty c s i rest e)
  | inl q ↦
      rw (q, next_round)
        (elim (Bool-cases (leb_ℤ s.deadline (pos now))) [
          | inl late ↦ rw late (drop_pending-IsEmpty c s.msg_id e)
          | inr early ↦ rw early e
        ])
]

pub resume-IsEmpty : (c : Client) (s : Stream) (a : Awake) → IsEmpty c → IsEmpty (resume c s a).0
unfolding resume
resume-IsEmpty c s item_ready e = elim (List-cases (queue_at c s.address)) [
  | inr (i, rest, q) ↦ rw (q, resume) (take_item-IsEmpty c s i rest e)
  | inl q ↦ rw (q, resume) e
]
resume-IsEmpty c s wait_timed_out e = drop_pending-IsEmpty c s.msg_id e
resume-IsEmpty c s closed_by_consumer e = drop_pending-IsEmpty c s.msg_id e
