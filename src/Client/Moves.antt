-- ===== src/Client/Moves.antt =====
-- What can happen to the requests of stdiobus/client.py, as a relation: every operation is a sequence of
-- a few moves, so that what no move breaks holds for ever.
use stdiobus_python.Base.{
  ℕ, String, ◌≡◌, refl, Bool, true, false, Option, none, some, List, [], ◌∷◌, Bool-cases,
  Option-cases, inl, inr, update,
}
use stdiobus_python.Base.Dict
use stdiobus_python.Base.Dict.{values}
use stdiobus_python.Base.Heap.{for_each}
use stdiobus_python.Json
use stdiobus_python.Json.{Json, Fields, null, str, arr, obj, get_or}
use stdiobus_python.Errors.{StdioBusError}
use stdiobus_python.Client.Pending.{
  PendingRequest, Item, cancelled, deliver_to_future, deliver_chunk, deliver_result, deliver_error,
  for_future, for_stream,
}
use stdiobus_python.Client.State.{Client, Runtime}
use stdiobus_python.Client.Bus.{add_pending, drop_pending}
use stdiobus_python.Client.Frame.{
  SameRequests, deliver_each-SameRequests, close_subscriptions-SameRequests,
}
use stdiobus_python.Client.Dispatch.{
  broadcast_chunk, chunk_text, call_message_handlers, handle_notification_on_loop, handle_response,
  settle_pending,
}
use stdiobus_python.Client.Loop.{
  message_id, has_method, dispatch_sequence, dispatch_object, dispatch, handle_message_on_loop,
}
use stdiobus_python.Client.Teardown.{fail_all, stop_client, shutdown_error}

-- What happens to one object.
pub data Change : Type 0 where
  chunk_comes : String → Change
  result_comes : Json → Change
  error_comes : StdioBusError → Change
  is_cancelled : Change
  is_left_with : List Item → Change

abbrev pub apply : Change → PendingRequest → PendingRequest
apply (chunk_comes t) o = deliver_chunk o t
apply (result_comes r) o = deliver_result o r
apply (error_comes e) o = deliver_error o e
apply is_cancelled o = deliver_to_future o cancelled
apply (is_left_with q) o = record o { queue = some q }

abbrev pub change : Client → ℕ → Change → Client
change c p g = record c { pending = update c.pending p (apply g (c.pending p)) }

pub data Move : Client → Client → Type 0 where
  keeps : {c c' : Client} → SameRequests c c' → Move c c'
  drops : (c : Client) (id : String) → Move c (drop_pending c id)
  clears : (c : Client) → Move c (record c { pending_requests = [] })
  adds :
      (c : Client) (id : String) (is_stream : Bool)
      → Move c (add_pending c id (elim is_stream [ true ↦ for_stream | false ↦ for_future ]))
  changes : (c : Client) (p : ℕ) (g : Change) → Move c (change c p g)

pub data Moves (c : Client) : Client → Type 0 where
  here : Moves c c
  next : {d e : Client} → Moves c d → Move d e → Moves c e

pub one : {c d : Client} → Move c d → Moves c d
one m = next here m

pub Moves-trans : {c d e : Client} → Moves c d → Moves d e → Moves c e
Moves-trans r here = r
Moves-trans r (next s m) = next (Moves-trans r s) m

-- What no move breaks.
pub Moves-keep {κ} :
    (P : Client → Type κ)
    → ((c d : Client) → Move c d → P c → P d)
    → {c d : Client} → Moves c d
    → P c
    → P d
Moves-keep P step here h = h
Moves-keep P step (next r m) h = step _ _ m (Moves-keep P step r h)

-- Changing each object of a list is a sequence of changes.
each-Moves :
    (g : Change) (ps : List ℕ) (c : Client)
    → Moves c (record c { pending = for_each (apply g) ps c.pending })
unfolding for_each
each-Moves g [] c = here
each-Moves g (p ∷ ps) c = Moves-trans (one (changes c p g)) (each-Moves g ps (change c p g))

pub fail_all-Moves : (c : Client) (e : StdioBusError) → Moves c (fail_all c e)
unfolding fail_all
fail_all-Moves c e = next (each-Moves (error_comes e) (values c.pending_requests) c) (clears _)

pub stop_client-Moves : (c : Client) → Moves c (stop_client c)
unfolding stop_client
stop_client-Moves c =
    next (fail_all-Moves c shutdown_error) (keeps (close_subscriptions-SameRequests _))

broadcast-Moves : (c : Client) (o : Option String) → Moves c (broadcast_chunk c o)
unfolding broadcast_chunk
broadcast-Moves c none = here
broadcast-Moves c (some t) = each-Moves (chunk_comes t) (values c.pending_requests) c

called :
    (c d : Client)
    → d.pending_requests ≡ c.pending_requests
    → d.pending ≡ c.pending
    → d.next_pending ≡ c.next_pending
    → Moves c d
called c d t o n = one (keeps (record { table = t; objects = o; next = n }))

settle-Moves :
    (c : Client) (p : ℕ) (e : Option Json) (r : Json) → Moves c (settle_pending c p e r).0
unfolding settle_pending
settle-Moves c p none r = one (changes c p (result_comes _))
settle-Moves c p (some (obj x)) r = one (changes c p (error_comes _))
settle-Moves c p (some _) r = here

module _ (rt : Runtime) where
  notification-Moves : (c : Client) (d : Fields) → Moves c (handle_notification_on_loop rt c d)
  unfolding handle_notification_on_loop
  notification-Moves c d =
      Moves-trans (broadcast-Moves c (chunk_text d))
        (Moves-trans (called _ _ refl refl refl) (one (keeps (deliver_each-SameRequests _ _ d))))

  response-Moves : (c : Client) (d : Fields) (id : Json) → Moves c (handle_response rt c d id).0
  unfolding handle_response drop_pending
  response-Moves c d id = elim (Option-cases (Dict.get c.pending_requests (rt.to_str id))) [
    | inl e ↦ rw (e, handle_response) here
    | inr (p, e) ↦
        rw (e, handle_response)
          (Moves-trans (one (drops c (rt.to_str id)))
            (settle-Moves _ p (Json.get d "error") (get_or d "result" null)))
  ]

  sequence-Moves : (c : Client) (i m : Bool) → Moves c (dispatch_sequence c i m).0
  unfolding dispatch_sequence
  sequence-Moves c true m = here
  sequence-Moves c false true = here
  sequence-Moves c false false = here

  object-Moves : (c : Client) (d : Fields) → Moves c (dispatch_object rt c d).0
  unfolding dispatch_object
  object-Moves c d = elim (Option-cases (message_id d)) [
    | inr (id, i) ↦ rw (i, dispatch_object) (response-Moves c d id)
    | inl i ↦
        rw (i, dispatch_object)
          (elim (Bool-cases (has_method d)) [
            | inl m ↦ rw m (notification-Moves c d)
            | inr m ↦ rw m here
          ])
  ]

  dispatch-Moves : (c : Client) (j : Json) → Moves c (dispatch rt c j).0
  unfolding dispatch
  dispatch-Moves c (obj d) = object-Moves c d
  dispatch-Moves c (arr l) = sequence-Moves c _ _
  dispatch-Moves c (str s) = sequence-Moves c _ _
  dispatch-Moves c _ = here

  pub handle_message-Moves : (c : Client) (m : String) → Moves c (handle_message_on_loop rt c m).0
  unfolding handle_message_on_loop call_message_handlers
  handle_message-Moves c m = elim (Option-cases (rt.loads m)) [
    | inl i ↦ rw (i, handle_message_on_loop) (called _ _ refl refl refl)
    | inr (j, i) ↦
        rw (i, handle_message_on_loop)
          (Moves-trans (called c (call_message_handlers c m) refl refl refl)
            (dispatch-Moves (call_message_handlers c m) j))
  ]
