-- ===== src/Client/Streaming.antt =====
-- `stream_request` and `request` of stdiobus/client.py as their callers see them: the events of a
-- stream, the value of a request, time-outs, and the cleaning up of the table.
use stdiobus_python.Base.{
  ℕ, String, ◌+◌, ◌≡◌, refl, sym, ap, ◌∙◌, none, some, List, [], ◌∷◌, ◌++◌, map, All, arith, length,
  eq_refl, update_self, string-Eq, nat-Eq, Bool-cases, List-cases, inl, inr,
}
use stdiobus_python.Base.Int.{pos, leb_ℤ}
use stdiobus_python.Base.Dict
use stdiobus_python.Base.Dict.{get-remove, get-put}
use stdiobus_python.Json
use stdiobus_python.Json.{Json, Fields, null, get_or}
use stdiobus_python.Errors.{Exception}
use stdiobus_python.Client.Pending.{PendingRequest, Item, chunk, result, error, waiting, resolved}
use stdiobus_python.Client.State.{Client, Runtime}
use stdiobus_python.Client.Bus.{drop_pending}
use stdiobus_python.Client.Requests.{
  Wake, future_done, timed_out, task_cancelled, Reply, replies, reply_raised, reply_cancelled,
  end_request, reply_of, drop_on_raise, future_at,
}
use stdiobus_python.Client.Stream.{
  Stream, Round, stream_chunk, stream_result, stream_raised, stream_closed, next_round, take_item,
  resume, Awake, item_ready, wait_timed_out, closed_by_consumer, after_result, queue_at, set_queue,
}
use stdiobus_python.Client.Valid.{IsValid}
use stdiobus_python.Client.Notifications.{IsNotification, texts}
use stdiobus_python.Client.Responses.{IsResponse}
use stdiobus_python.Client.Dispatch.{attach_text}
use stdiobus_python.Client.Aggregation.{answered, stream_delivery, future_delivery}

-- One pull of the consumer at each of the times, and what the pulls give.
unfoldable pub pull_all : Client → Stream → List ℕ → List Round
pull_all c s [] = []
pull_all c s (now ∷ later) = (next_round c s now).1 ∷ pull_all (next_round c s now).0 s later

next_round-queued :
    (c : Client) (s : Stream) (now : ℕ) (i : Item) (rest : List Item)
    → (c.pending s.address).queue ≡ some (i ∷ rest)
    → next_round c s now ≡ take_item c s i rest
unfolding next_round
next_round-queued c s now i rest e = rw (e, next_round)

-- What is in the queue comes before the deadline: while there is an item, a pull does the same
-- whatever the clock says.
pub next_round_clock :
    (c : Client) (s : Stream) (now later : ℕ) (i : Item) (rest : List Item)
    → (c.pending s.address).queue ≡ some (i ∷ rest)
    → next_round c s now ≡ next_round c s later
next_round_clock c s now later i rest e =
    next_round-queued c s now i rest e ∙ sym (next_round-queued c s later i rest e)

module _ (s : Stream) (r : Json) where
  -- A stream whose queue holds chunks and then a result yields each chunk, in order, and then the
  -- result, at whatever times the consumer pulls, after the deadline too.
  pub pull_all-chunks :
      (c : Client) (ts : List String) (times : List ℕ)
      → (c.pending s.address).queue ≡ some (map chunk ts ++ result r ∷ [])
      → length times ≡ length ts + 1
      → pull_all c s times ≡ map stream_chunk ts ++ stream_result r ∷ []
  unfolding pull_all take_item
  pull_all-chunks c [] (now ∷ []) e n = rw (next_round-queued c s now (result r) [] e)
  pull_all-chunks c (t ∷ ts) (now ∷ times) e n =
      rw (next_round-queued c s now (chunk t) (map chunk ts ++ result r ∷ []) e) (
        ap (◌∷◌ (stream_chunk t)) (
          pull_all-chunks (set_queue c s.address (map chunk ts ++ result r ∷ [])) ts times
            (ap (λ (o : PendingRequest). o.queue) (update_self c.pending s.address _))
            (omega arith)))
  pull_all-chunks c [] [] e n = absurd (omega arith)
  pull_all-chunks c [] (now ∷ now' ∷ times) e n = absurd (omega arith)
  pull_all-chunks c (t ∷ ts) [] e n = absurd (omega arith)

end_resolved :
    (c : Client) (id method : String) (p : ℕ) (r : Json)
    → (c.pending p).future ≡ some (resolved r)
    → end_request c id method p future_done ≡ (c, replies r)
unfolding end_request
end_resolved c id method p r e =
    let found : future_at c p ≡ resolved r = rw (e, future_at) in
    ap (λ f. (drop_on_raise c id (reply_of f), reply_of f)) found

module _ (rt : Runtime) (c : Client) (es : List (String × Fields)) (m : String) (d : Fields)
    (id : String) (p : ℕ) (notes : All (IsNotification rt) es) (response : IsResponse rt m d id)
    (v : IsValid c) (known : Dict.get c.pending_requests id ≡ some p)
    (fine : Json.get d "error" ≡ none) where
  -- The consumer of a stream, whenever it pulls after the response has come, gets one event for each
  -- chunk text, in the order of arrival, and then one result event with the aggregated text.
  pub stream_events :
      (s : Stream) (times : List ℕ)
      → s.address ≡ p
      → c.pending p ≡ record { future = none; chunks = []; queue = some [] }
      → length times ≡ length (texts es) + 1
      → pull_all (answered rt c es m d id p).0 s times
        ≡ map stream_chunk (texts es)
          ++ stream_result (attach_text (texts es) (get_or d "result" null)) ∷ []
  stream_events s times here new n =
      let (q, _, _) = stream_delivery rt c es m d id p notes response v known [] [] fine new in
      pull_all-chunks s _ _ (texts es) times (rw here q) n

  -- The caller of `request` gets for the same messages the same result, and its identifier is in the
  -- table no more.
  pub request_reply :
      (method : String)
      → c.pending p ≡ record { future = some waiting; chunks = []; queue = none }
      → ((end_request (answered rt c es m d id p).0 id method p future_done).1
          ≡ replies (attach_text (texts es) (get_or d "result" null)))
        × (Dict.get
              (end_request (answered rt c es m d id p).0 id method p future_done).0.pending_requests
              id
            ≡ none)
  request_reply method new =
      let (f, gone, _) = future_delivery rt c es m d id p notes response v known [] fine new in
      rw (end_resolved (answered rt c es m d id p).0 id method p _ f) (refl, gone)

abbrev pub IsOver : Round → Type 0
IsOver (stream_raised e) = Unit {0}
IsOver stream_closed = Unit {0}
IsOver _ = ⊥

pub get-drop_pending :
    (c : Client) (id : String) → Dict.get (drop_pending c id).pending_requests id ≡ none
unfolding drop_pending
get-drop_pending c id = rw (get-remove c.pending_requests id id, eq_refl id)

take_item_cleanup :
    (c : Client) (s : Stream) (i : Item) (rest : List Item)
    → IsOver (take_item c s i rest).1
    → Dict.get (take_item c s i rest).0.pending_requests s.msg_id ≡ none
unfolding take_item
take_item_cleanup c s (chunk t) rest o = elim o [ ]
take_item_cleanup c s (result r) rest o = elim o [ ]
take_item_cleanup c s (error e) rest o = get-drop_pending _ s.msg_id

next_round_cleanup :
    (c : Client) (s : Stream) (now : ℕ)
    → IsOver (next_round c s now).1
    → Dict.get (next_round c s now).0.pending_requests s.msg_id ≡ none
unfolding next_round
next_round_cleanup c s now = elim (List-cases (queue_at c s.address)) [
  | inr (i, rest, e) ↦ rw (e, next_round) (take_item_cleanup c s i rest)
  | inl e ↦
      rw (e, next_round)
        (elim (Bool-cases (leb_ℤ s.deadline (pos now))) [
          | inl late ↦ rw late (λ o. get-drop_pending c s.msg_id)
          | inr early ↦ rw early (λ o. absurd o)
        ])
]

resume_cleanup :
    (c : Client) (s : Stream) (a : Awake)
    → IsOver (resume c s a).1
    → Dict.get (resume c s a).0.pending_requests s.msg_id ≡ none
unfolding resume
resume_cleanup c s item_ready = elim (List-cases (queue_at c s.address)) [
  | inr (i, rest, e) ↦ rw (e, resume) (take_item_cleanup c s i rest)
  | inl e ↦ rw (e, resume) (λ o. absurd o)
]
resume_cleanup c s wait_timed_out = λ o. get-drop_pending c s.msg_id
resume_cleanup c s closed_by_consumer = λ o. get-drop_pending c s.msg_id

-- A run of the generator's body: the consumer's next call at a time, the end of a wait, or the call
-- after the result.
pub data Turn : Type 0 where
  asks : ℕ → Turn
  wakes : Awake → Turn
  returns : Turn

unfoldable pub turn : Client → Stream → Turn → Client × Round
turn c s (asks now) = next_round c s now
turn c s (wakes a) = resume c s a
turn c s returns = after_result c s

-- However a stream ends, by an error from its queue, by a time-out before or during a wait, by the
-- consumer, or by its return after the result, its identifier is in the table no more.
pub stream_cleanup :
    (c : Client) (s : Stream) (t : Turn)
    → IsOver (turn c s t).1
    → Dict.get (turn c s t).0.pending_requests s.msg_id ≡ none
unfolding turn after_result
stream_cleanup c s (asks now) o = next_round_cleanup c s now o
stream_cleanup c s (wakes a) o = resume_cleanup c s a o
stream_cleanup c s returns o = get-drop_pending c s.msg_id

-- A `request` that raises, also by a time-out, leaves no entry.
pub request_cleanup :
    (c : Client) (id method : String) (p : ℕ) (w : Wake) (e : Exception)
    → (end_request c id method p w).1 ≡ reply_raised e
    → Dict.get (end_request c id method p w).0.pending_requests id ≡ none
unfolding end_request
request_cleanup c id method p future_done e h = raised_gone (reply_of (future_at c p)) h
  where
    raised_gone :
        (r : Reply)
        → r ≡ reply_raised e
        → Dict.get (drop_on_raise c id r).pending_requests id ≡ none
    raised_gone r h = rw (h, drop_on_raise) (get-drop_pending c id)
request_cleanup c id method p timed_out e h = get-drop_pending _ id
request_cleanup c id method p task_cancelled e h = cc

-- But one whose task is cancelled leaves its entry where it was, under its identifier.
pub request_cancelled_stays :
    (c : Client) (id method : String) (p : ℕ)
    → ((end_request c id method p task_cancelled).0.pending_requests ≡ c.pending_requests)
      × ((end_request c id method p task_cancelled).1 ≡ reply_cancelled)
unfolding end_request
request_cancelled_stays c id method p = (refl, refl)
