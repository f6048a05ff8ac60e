-- ===== src/Client/Wakes.antt =====
-- The wakes of the waiting coroutines of stdiobus/client.py keep the invariant of the requests.
use stdiobus_python.Base.{
  ℕ, String, ◌≡◌, ap, some, List, ◌∷◌, ◌≤◌, Bool-cases, List-cases, arith, inl, inr, ◌==◌, nat-Eq,
  nat_eq_iff,
}
use stdiobus_python.Base.Int.{pos, leb_ℤ}
use stdiobus_python.Client.Pending.{
  PendingRequest, Future, cancelled, deliver_to_future, Item, chunk, result, error,
}
use stdiobus_python.Client.State.{Client}
use stdiobus_python.Client.Requests.{
  Wake, future_done, timed_out, task_cancelled, end_request, cancel_at, drop_on_raise, Reply,
  reply_raised,
}
use stdiobus_python.Client.Stream.{
  Stream, take_item, next_round, Awake, item_ready, wait_timed_out, closed_by_consumer, resume,
  queue_at, set_queue,
}
use stdiobus_python.Client.Objects.{outcomes?, terminals}
use stdiobus_python.Client.Table.{change-Inv}
use stdiobus_python.Client.Valid.{IsValid}
use stdiobus_python.Client.Begins.{drop_pending-IsValid}

-- Taking the first item off a queue adds no outcome to it.
set_queue-IsValid :
    (c : Client) (p : ℕ) (i : Item) (rest : List Item)
    → (c.pending p).queue ≡ some (i ∷ rest)
    → IsValid c
    → IsValid (set_queue c p rest)
set_queue-IsValid c p i rest e v =
    change-Inv v _
      (λ q. elim (Bool-cases (q == p)) [
        | inl same ↦ rw (same, (nat_eq_iff q p).0 same) (omega (arith, shorter i, ap outcomes? e))
        | inr other ↦ rw other (omega arith)
      ])
      (λ q. elim (Bool-cases (q == p)) [
        | inl same ↦ rw (same, (nat_eq_iff q p).0 same, e)
        | inr other ↦ rw other
      ])
  where
    shorter : (j : Item) → terminals rest ≤ terminals (j ∷ rest)
    shorter (chunk t) = omega arith
    shorter (result r) = omega arith
    shorter (error x) = omega arith

queue-queue_at :
    (c : Client) (p : ℕ) (i : Item) (rest : List Item)
    → queue_at c p ≡ i ∷ rest
    → (c.pending p).queue ≡ some (i ∷ rest)
queue-queue_at c p i rest e = ground arith

take_item-IsValid :
    (c : Client) (s : Stream) (i : Item) (rest : List Item)
    → IsValid (set_queue c s.address rest)
    → IsValid (take_item c s i rest).0
unfolding take_item
take_item-IsValid c s (chunk t) rest v = v
take_item-IsValid c s (result r) rest v = v
take_item-IsValid c s (error e) rest v = drop_pending-IsValid _ s.msg_id v

pub next_round-IsValid :
    (c : Client) (s : Stream) (now : ℕ) → IsValid c → IsValid (next_round c s now).0
unfolding next_round
next_round-IsValid c s now v = elim (List-cases (queue_at c s.address)) [
  | inr (i, rest, e) ↦
      rw (e, next_round)
        (take_item-IsValid c s i rest
          (set_queue-IsValid c s.address i rest (queue-queue_at c s.address i rest e) v))
  | inl e ↦
      rw (e, next_round)
        (elim (Bool-cases (leb_ℤ s.deadline (pos now))) [
          | inl late ↦ rw late (drop_pending-IsValid c s.msg_id v)
          | inr early ↦ rw early v
        ])
]

pub resume-IsValid : (c : Client) (s : Stream) (a : Awake) → IsValid c → IsValid (resume c s a).0
unfolding resume
resume-IsValid c s item_ready v = elim (List-cases (queue_at c s.address)) [
  | inr (i, rest, e) ↦
      rw (e, resume)
        (take_item-IsValid c s i rest
          (set_queue-IsValid c s.address i rest (queue-queue_at c s.address i rest e) v))
  | inl e ↦ rw (e, resume) v
]
resume-IsValid c s wait_timed_out v = drop_pending-IsValid c s.msg_id v
resume-IsValid c s closed_by_consumer v = drop_pending-IsValid c s.msg_id v

queue-deliver_to_future :
    (o : PendingRequest) (f : Future) → (deliver_to_future o f).queue ≡ o.queue
unfolding deliver_to_future
queue-deliver_to_future o f = ground arith

cancel_at-IsValid : (c : Client) (p : ℕ) → IsValid c → IsValid (cancel_at c p)
cancel_at-IsValid c p v =
    change-Inv v _
      (λ q. elim (Bool-cases (q == p)) [
        | inl same ↦
            rw (same, (nat_eq_iff q p).0 same, queue-deliver_to_future (c.pending p) cancelled)
              (omega arith)
        | inr other ↦ rw other (omega arith)
      ])
      (λ q. elim (Bool-cases (q == p)) [
        | inl same ↦
            rw (same, (nat_eq_iff q p).0 same, queue-deliver_to_future (c.pending p) cancelled)
        | inr other ↦ rw other
      ])

drop_on_raise-IsValid :
    (c : Client) (id : String) (r : Reply) → IsValid c → IsValid (drop_on_raise c id r)
unfolding drop_on_raise
drop_on_raise-IsValid c id (reply_raised e) v = drop_pending-IsValid c id v
drop_on_raise-IsValid c id _ v = v

pub end_request-IsValid :
    (c : Client) (id method : String) (p : ℕ) (w : Wake)
    → IsValid c
    → IsValid (end_request c id method p w).0
unfolding end_request
end_request-IsValid c id method p future_done v = drop_on_raise-IsValid c id _ v
end_request-IsValid c id method p timed_out v =
    drop_pending-IsValid (cancel_at c p) id (cancel_at-IsValid c p v)
end_request-IsValid c id method p task_cancelled v = cancel_at-IsValid c p v
