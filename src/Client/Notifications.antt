-- ===== src/Client/Notifications.antt =====
-- Notifications in stdiobus/client.py: what a sequence of them leaves in the table and in the objects
-- of the requests in flight.
use mathlib.Core.List.{append_assoc, append-nil}
use stdiobus_python.Base.{
  ℕ, String, ◌≡◌, refl, sym, ap, ◌∙◌, true, Option, none, some, List, [], ◌∷◌, ◌++◌, map, All, In,
}
use stdiobus_python.Base.Dict.{values}
use stdiobus_python.Base.Heap.{for_each-In}
use stdiobus_python.Json.{Fields, obj}
use stdiobus_python.Client.Pending.{PendingRequest, Future, Item, chunk, deliver_chunk}
use stdiobus_python.Client.State.{Client, Runtime}
use stdiobus_python.Client.Dispatch.{
  broadcast_chunk, chunk_text, call_message_handlers, call_notification_handlers,
  handle_notification_on_loop,
}
use stdiobus_python.Client.Loop.{
  message_id, has_method, dispatch_object, dispatch, handle_message_on_loop, handle_all,
}
use stdiobus_python.Client.Frame.{deliver_each-SameRequests}
use stdiobus_python.Client.Valid.{IsValid, handle_message-IsValid}

-- The message `e.0` decodes to the dictionary `e.1`, which has a method and no identifier.
abbrev pub IsNotification : Runtime → String × Fields → Type 0
IsNotification rt e =
    (rt.loads e.0 ≡ some (obj e.1)) × (message_id e.1 ≡ none) × (has_method e.1 ≡ true)

abbrev pub chunks_of : Option String → List String
chunks_of none = []
chunks_of (some t) = t ∷ []

-- The texts of the `agent_message_chunk` notifications, in the order of arrival.
abbrev pub texts : List (String × Fields) → List String
texts [] = []
texts (e ∷ es) = chunks_of (chunk_text e.1) ++ texts es

abbrev pub messages : List (String × Fields) → List String
messages [] = []
messages (e ∷ es) = e.0 ∷ messages es

abbrev pub deliver_chunks : PendingRequest → List String → PendingRequest
deliver_chunks p [] = p
deliver_chunks p (t ∷ ts) = deliver_chunks (deliver_chunk p t) ts

deliver_chunks-append :
    (p : PendingRequest) (ts us : List String)
    → deliver_chunks p (ts ++ us) ≡ deliver_chunks (deliver_chunks p ts) us
deliver_chunks-append p [] us = refl
deliver_chunks-append p (t ∷ ts) us = deliver_chunks-append (deliver_chunk p t) ts us

broadcast_at :
    (c : Client) (o : Option String) (p : ℕ)
    → IsValid c
    → In p (values c.pending_requests)
    → ((broadcast_chunk c o).pending p ≡ deliver_chunks (c.pending p) (chunks_of o))
      × ((broadcast_chunk c o).pending_requests ≡ c.pending_requests)
unfolding broadcast_chunk
broadcast_at c none p v i = (refl, refl)
broadcast_at c (some t) p v i = (
  for_each-In (λ q. deliver_chunk q t) (values c.pending_requests) c.pending p v.distinct i,
  refl,
)

module _ (rt : Runtime) where
  notification_at :
      (c : Client) (d : Fields) (p : ℕ)
      → IsValid c
      → In p (values c.pending_requests)
      → ((handle_notification_on_loop rt c d).pending p
          ≡ deliver_chunks (c.pending p) (chunks_of (chunk_text d)))
        × ((handle_notification_on_loop rt c d).pending_requests ≡ c.pending_requests)
  unfolding handle_notification_on_loop
  notification_at c d p v i =
      let s =
        deliver_each-SameRequests
          (call_notification_handlers (broadcast_chunk c (chunk_text d)) (rt.dumps (obj d)))
          (broadcast_chunk c (chunk_text d)).subscriptions d in
      let (at, table) = broadcast_at c (chunk_text d) p v i in
      (ap (λ (h : ℕ → PendingRequest). h p) s.objects ∙ at, s.table ∙ table)

  message_at :
      (c : Client) (e : String × Fields) (p : ℕ)
      → IsNotification rt e
      → IsValid c
      → In p (values c.pending_requests)
      → ((handle_message_on_loop rt c e.0).0.pending p
          ≡ deliver_chunks (c.pending p) (chunks_of (chunk_text e.1)))
        × ((handle_message_on_loop rt c e.0).0.pending_requests ≡ c.pending_requests)
  unfolding handle_message_on_loop
  message_at c e p n v i =
      rw (n.0, handle_message_on_loop)
        (unfold dispatch in
          rw (n.1, dispatch_object)
            (rw n.2 (notification_at (call_message_handlers c e.0) e.1 p v i)))

  -- After any notifications, the table is as it was, and the object of each request in flight has got
  -- every chunk text, once and in the order of arrival.
  pub notifications_at :
      (c : Client) (es : List (String × Fields)) (p : ℕ)
      → All (IsNotification rt) es
      → IsValid c
      → In p (values c.pending_requests)
      → ((handle_all rt c (messages es)).pending p ≡ deliver_chunks (c.pending p) (texts es))
        × ((handle_all rt c (messages es)).pending_requests ≡ c.pending_requests)
  unfolding handle_all
  notifications_at c [] p n v i = (refl, refl)
  notifications_at c (e ∷ es) p n v i =
      let (at, table) = message_at c e p n.0 v i in
      let (at', table') =
        notifications_at (handle_message_on_loop rt c e.0).0 es p n.1
          (handle_message-IsValid rt c e.0 v) (rw table i) in
      (
        at'
            ∙ ap (λ q. deliver_chunks q (texts es)) at
            ∙ sym (deliver_chunks-append (c.pending p) (chunks_of (chunk_text e.1)) (texts es)),
        table' ∙ table,
      )

-- What the chunks do to an object in stream mode, and to one in future mode.
pub deliver_chunks-stream :
    (f : Option Future) (l : List String) (q : List Item) (ts : List String)
    → deliver_chunks (record { future = f; chunks = l; queue = some q }) ts
      ≡ record { future = f; chunks = l ++ ts; queue = some (q ++ map chunk ts) }
unfolding deliver_chunk
deliver_chunks-stream f l q [] = simp append-nil
deliver_chunks-stream f l q (t ∷ ts) =
    deliver_chunks-stream f (l ++ t ∷ []) (q ++ chunk t ∷ []) ts ∙ simp append_assoc

pub deliver_chunks-future :
    (f : Option Future) (l : List String) (ts : List String)
    → deliver_chunks (record { future = f; chunks = l; queue = none }) ts
      ≡ record { future = f; chunks = l ++ ts; queue = none }
unfolding deliver_chunk
deliver_chunks-future f l [] = simp append-nil
deliver_chunks-future f l (t ∷ ts) = deliver_chunks-future f (l ++ t ∷ []) ts ∙ simp append_assoc
