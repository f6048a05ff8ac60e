-- ===== src/Client/Aggregation.antt =====
-- Streaming in stdiobus/client.py: what a request gets for any notifications and the response that
-- follows, in stream mode and in future mode, and on an error response.
use stdiobus_python.Base.{
  ℕ, String, ◌≡◌, refl, ap, ◌∙◌, none, some, List, [], ◌∷◌, ◌++◌, map, All, eq_refl, update_self,
  string-Eq,
}
use stdiobus_python.Base.Int.{pos}
use stdiobus_python.Base.Dict
use stdiobus_python.Base.Dict.{values, get-remove}
use stdiobus_python.Base.Heap.{get-In}
use stdiobus_python.Json
use stdiobus_python.Json.{Json, Fields, null, int, str, obj, get_or}
use stdiobus_python.Errors.{attribute_error, error_from_code}
use stdiobus_python.Errors
use stdiobus_python.Client.Pending.{
  PendingRequest, waiting, resolved, Item, chunk, result, error, deliver_result, deliver_error,
}
use stdiobus_python.Client.State.{Client, Runtime}
use stdiobus_python.Client.Dispatch.{Outcome, call_message_handlers, settle_pending, attach_text}
use stdiobus_python.Client.Loop.{handle_message_on_loop, handle_all}
use stdiobus_python.Client.Valid.{IsValid}
use stdiobus_python.Client.Notifications.{
  IsNotification, texts, messages, deliver_chunks, notifications_at, deliver_chunks-stream,
  deliver_chunks-future,
}
use stdiobus_python.Client.Responses.{IsResponse, popped, response_known}

-- What the response leaves, once its identifier is found: the result with the text attached, or the
-- mapped error.
pub settled_result :
    (c : Client) (p : ℕ) (r : Json) (o : PendingRequest)
    → c.pending p ≡ o
    → ((settle_pending c p none r).0.pending p ≡ deliver_result o (attach_text o.chunks r))
      × ((settle_pending c p none r).0.pending_requests ≡ c.pending_requests)
      × ((settle_pending c p none r).1 ≡ none)
unfolding settle_pending
settled_result c p r o e = (rw (update_self c.pending p, e), refl, refl)

abbrev pub wire_error : Fields → Errors.StdioBusError
wire_error x =
    error_from_code (get_or x "code" (int (pos 99))) (get_or x "message" (str "Unknown error"))
      (get_or x "data" null)

pub settled_error :
    (c : Client) (p : ℕ) (x : Fields) (r : Json) (o : PendingRequest)
    → c.pending p ≡ o
    → ((settle_pending c p (some (obj x)) r).0.pending p ≡ deliver_error o (wire_error x))
      × ((settle_pending c p (some (obj x)) r).0.pending_requests ≡ c.pending_requests)
      × ((settle_pending c p (some (obj x)) r).1 ≡ none)
unfolding settle_pending
settled_error c p x r o e = (rw (update_self c.pending p, e), refl, refl)

module _ (rt : Runtime) (c : Client) (es : List (String × Fields)) (m : String) (d : Fields)
    (id : String) (p : ℕ) where
  -- The client after the notifications, and what the response does then.
  abbrev pub noted : Client
  noted = handle_all rt c (messages es)

  abbrev pub answered : Outcome
  answered = handle_message_on_loop rt noted m

  gone :
      noted.pending_requests ≡ c.pending_requests
      → Dict.get (Dict.remove noted.pending_requests id) id ≡ none
  gone table = rw (get-remove noted.pending_requests id id, eq_refl id)

  module _ (notes : All (IsNotification rt) es) (response : IsResponse rt m d id) (v : IsValid c)
      (known : Dict.get c.pending_requests id ≡ some p) where
    settled :
        (o : PendingRequest)
        → c.pending p ≡ o
        → (noted.pending p ≡ deliver_chunks o (texts es))
          × (noted.pending_requests ≡ c.pending_requests)
          × (answered
              ≡ settle_pending (popped noted m id) p (Json.get d "error") (get_or d "result" null))
    settled o e =
        let (at, table) =
          notifications_at rt c es p notes v (get-In c.pending_requests id p known) in
        (
          at ∙ ap (λ x. deliver_chunks x (texts es)) e,
          table,
          response_known rt noted m d id p response (rw table known),
        )

    -- A stream gets every chunk, in order, and then one result, whose text is that of all chunks.
    pub stream_delivery :
        (l : List String) (q : List Item)
        → Json.get d "error" ≡ none
        → c.pending p ≡ record { future = none; chunks = l; queue = some q }
        → ((answered.0.pending p).queue
            ≡ some (
                q
                ++ map chunk (texts es)
                ++ result (attach_text (l ++ texts es) (get_or d "result" null)) ∷ []))
          × (Dict.get answered.0.pending_requests id ≡ none)
          × (answered.1 ≡ none)
    unfolding call_message_handlers deliver_result
    stream_delivery l q fine e =
        let (at, table, eq) = settled _ e in
        let (a, b, x) =
          settled_result (popped noted m id) p (get_or d "result" null) _
            (at ∙ deliver_chunks-stream none l q (texts es)) in
        rw (eq, fine)
          (ap (λ (o : PendingRequest). o.queue) a, ap (λ t. Dict.get t id) b ∙ gone table, x)

    -- A call of `request` that waits gets the same result.
    pub future_delivery :
        (l : List String)
        → Json.get d "error" ≡ none
        → c.pending p ≡ record { future = some waiting; chunks = l; queue = none }
        → ((answered.0.pending p).future
            ≡ some (resolved (attach_text (l ++ texts es) (get_or d "result" null))))
          × (Dict.get answered.0.pending_requests id ≡ none)
          × (answered.1 ≡ none)
    unfolding call_message_handlers deliver_result
    future_delivery l fine e =
        let (at, table, eq) = settled _ e in
        let (a, b, x) =
          settled_result (popped noted m id) p (get_or d "result" null) _
            (at ∙ deliver_chunks-future (some waiting) l (texts es)) in
        rw (eq, fine)
          (ap (λ (o : PendingRequest). o.future) a, ap (λ t. Dict.get t id) b ∙ gone table, x)

    -- An error response with an error object ends a stream after the chunks that came before it, with
    -- the error that its `code`, `message` and `data` stand for.
    pub stream_error_delivery :
        (l : List String) (q : List Item) (x : Fields)
        → Json.get d "error" ≡ some (obj x)
        → c.pending p ≡ record { future = none; chunks = l; queue = some q }
        → ((answered.0.pending p).queue
            ≡ some (q ++ map chunk (texts es) ++ error (wire_error x) ∷ []))
          × (Dict.get answered.0.pending_requests id ≡ none)
          × (answered.1 ≡ none)
    unfolding call_message_handlers deliver_error
    stream_error_delivery l q x failed e =
        let (at, table, eq) = settled _ e in
        let (a, b, y) =
          settled_error (popped noted m id) p x (get_or d "result" null) _
            (at ∙ deliver_chunks-stream none l q (texts es)) in
        rw (eq, failed)
          (ap (λ (o : PendingRequest). o.queue) a, ap (λ t. Dict.get t id) b ∙ gone table, y)
