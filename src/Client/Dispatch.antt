-- ===== src/Client/Dispatch.antt =====
-- The message handling of `AsyncStdioBus` in stdiobus/client.py, on the owning loop.
use stdiobus_python.Base.{
  ℕ, String, Option, none, some, List, [], ◌∷◌, ◌++◌, map, update, ◌==◌, nat-Eq, string-Eq,
  if◌then◌else◌, is_empty,
}
use stdiobus_python.Base.Int.{pos}
use stdiobus_python.Base.Heap.{for_each}
use stdiobus_python.Base.Dict
use stdiobus_python.Base.Dict.{values}
use stdiobus_python.Json
use stdiobus_python.Json.{Json, Fields, null, bool, int, float, str, arr, obj, get_or, mem_str}
use stdiobus_python.Errors.{Exception, attribute_error, error_from_code}
use stdiobus_python.Client.Pending.{deliver_chunk, deliver_result, deliver_error, join}
use stdiobus_python.Client.Subscription.{deliver_queue, close_queue}
use stdiobus_python.Client.State.{Client, Runtime, on_message, on_notification}

-- A method that returns nothing: the new state, and what it raised.
abbrev pub Outcome : Type 0
Outcome = Client × Option Exception

-- `for handler in handlers`: an exception of a handler is caught and printed.
unfoldable pub call_message_handlers : Client → String → Client
call_message_handlers c m = record c {
  calls = c.calls ++ map (λ h. on_message h m) c.message_handlers;
}

unfoldable pub call_notification_handlers : Client → String → Client
call_notification_handlers c m = record c {
  calls = c.calls ++ map (λ h. on_notification h m) c.notification_handlers;
}

-- self._subscriptions.discard(sub)
unfoldable pub discard : List ℕ → ℕ → List ℕ
discard [] p = []
discard (q ∷ qs) p = let rest = discard qs p in if q == p then rest else q ∷ rest

unfoldable pub remove_subscription : Client → ℕ → Client
remove_subscription c p = record c { subscriptions = discard c.subscriptions p }

-- `close` of the subscription at `p`.
unfoldable pub close_subscription : Client → ℕ → Client
unfolding remove_subscription
close_subscription c p =
    if (c.subs p).closed
    then c
    else remove_subscription (record c { subs = update c.subs p (close_queue (c.subs p)) }) p

-- `_deliver` of the subscription at `p`.
unfoldable pub deliver : Client → ℕ → Fields → Client
unfolding remove_subscription
deliver c p n =
    let (s, closes) = deliver_queue (c.subs p) n in
    let c' : Client = record c { subs = update c.subs p s } in
    if closes then remove_subscription c' p else c'

unfoldable pub deliver_each : Client → List ℕ → Fields → Client
deliver_each c [] n = c
deliver_each c (p ∷ ps) n = deliver_each (deliver c p n) ps n

-- A field that is a dictionary.
unfoldable pub get_obj : Fields → String → Option Fields
get_obj d k = elim (Json.get d k) [ some (obj e) ↦ some e | _ ↦ none ]

-- The text of an `agent_message_chunk` notification, if it is one and its text is not empty.
unfoldable pub content_text : Fields → Option String
unfolding get_obj
content_text update = elim (get_obj update "content") [
  | none ↦ none
  | some content ↦ elim (Json.get content "text") [
    | some (str text) ↦ if is_empty text then none else some text
    | _ ↦ none
  ]
]

unfoldable pub chunk_text : Fields → Option String
unfolding get_obj content_text
chunk_text d = elim (get_obj d "params") [
  | none ↦ none
  | some params ↦ elim (get_obj params "update") [
    | none ↦ none
    | some update ↦ elim (Json.get update "sessionUpdate") [
      | some (str s) ↦ if s == "agent_message_chunk" then content_text update else none
      | _ ↦ none
    ]
  ]
]

-- `for pending in self._pending_requests.values(): pending.deliver_chunk(text)`
unfoldable pub broadcast_chunk : Client → Option String → Client
broadcast_chunk c none = c
broadcast_chunk c (some text) = record c {
  pending = for_each (λ p. deliver_chunk p text) (values c.pending_requests) c.pending;
}

module _ (rt : Runtime) where
  unfoldable pub handle_notification_on_loop : Client → Fields → Client
  unfolding broadcast_chunk call_notification_handlers
  handle_notification_on_loop c d =
      let c1 = broadcast_chunk c (chunk_text d) in
      let c2 = call_notification_handlers c1 (rt.dumps (obj d)) in
      deliver_each c2 c2.subscriptions d

-- The error branch of a response: `error.get` raises on what is no dictionary.
unfoldable pub fail_pending : Client → ℕ → Json → Outcome
fail_pending c p (obj e) = (
  record c {
    pending = update c.pending p (
        deliver_error (c.pending p) (
          error_from_code (get_or e "code" (int (pos 99)))
            (get_or e "message" (str "Unknown error")) (get_or e "data" null)));
  },
  none,
)
fail_pending c p _ = (c, some attribute_error)

-- `result["text"] = aggregated_text`, where there is any and the result is a dictionary.
unfoldable pub attach_text : List String → Json → Json
attach_text chunks (obj r) =
    let text = join chunks in if is_empty text then obj r else obj (Json.put r "text" (str text))
attach_text chunks r = r

unfoldable pub complete_pending : Client → ℕ → Json → Outcome
unfolding attach_text
complete_pending c p r = (
  record c {
    pending =
        update c.pending p (deliver_result (c.pending p) (attach_text (c.pending p).chunks r));
  },
  none,
)

-- The response's `error`, where the key is there, or else its `result`.
unfoldable pub settle_pending : Client → ℕ → (error : Option Json) → (result : Json) → Outcome
unfolding fail_pending complete_pending
settle_pending c p (some e) r = fail_pending c p e
settle_pending c p none r = complete_pending c p r

module _ (rt : Runtime) where
  -- A response with the identifier `id`.
  unfoldable pub handle_response : Client → Fields → Json → Outcome
  unfolding settle_pending
  handle_response c d id =
      let msg_id = rt.to_str id in
      elim (Dict.get c.pending_requests msg_id) [
        | none ↦ (c, none)
        | some p ↦
            let c' : Client = record c {
              pending_requests = Dict.remove c.pending_requests msg_id;
            } in
            settle_pending c' p (Json.get d "error") (get_or d "result" null)
      ]
