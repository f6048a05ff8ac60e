-- ===== src/Client/Concurrent.antt =====
-- Several requests of stdiobus/client.py at once, and their responses in any order.
use stdiobus_python.Base.{
  ℕ, String, ◌≡◌, ◌≢◌, refl, sym, ap, ◌∙◌, Bool, true, false, Option, none, some, List, [], ◌∷◌,
  map, All, In, Distinct, eq_refl, ◌==◌, string-Eq, if◌then◌else◌, Bool-cases, if-false, inl, inr,
}
use stdiobus_python.Base.Dict
use stdiobus_python.Base.Dict.{get-remove}
use stdiobus_python.Json
use stdiobus_python.Json.{Json, Fields, null, obj, get_or}
use stdiobus_python.Client.Pending.{
  PendingRequest, Future, waiting, resolved, rejected, deliver_result, deliver_error,
}
use stdiobus_python.Client.State.{Client, Runtime}
use stdiobus_python.Client.Dispatch.{Outcome, attach_text, call_message_handlers, settle_pending}
use stdiobus_python.Client.Loop.{handle_message_on_loop, handle_all}
use stdiobus_python.Client.Responses.{IsResponse, popped, response_known, response_isolated}
use stdiobus_python.Client.Aggregation.{wire_error, settled_result, settled_error}
use stdiobus_python.Client.Late.{settled-table}

-- A request in flight, with the texts that it has collected, and its response.
pub record Answer : Type 0 where
  pub id : String
  pub address : ℕ
  pub chunks : List String
  pub message : String
  pub fields : Fields

-- The outcome that a response stands for: its result, its error, or none where `error` is no dictionary.
abbrev pub outcome : List String → Option Json → Json → Future
outcome l none r = resolved (attach_text l r)
outcome l (some (obj x)) r = rejected (wire_error x)
outcome l (some _) r = waiting

abbrev pub expected : Answer → Future
expected a = outcome a.chunks (Json.get a.fields "error") (get_or a.fields "result" null)

-- The request waits, or its future is done and it is in the table no more.
abbrev pub Awaits : Client → Answer → Type 0
Awaits c a =
    (Dict.get c.pending_requests a.id ≡ some a.address)
    × (c.pending a.address ≡ record { future = some waiting; chunks = a.chunks; queue = none })

abbrev pub IsAnswered : Client → Answer → Type 0
IsAnswered c a =
    ((c.pending a.address).future ≡ some (expected a)) × (Dict.get c.pending_requests a.id ≡ none)

settle_outcome :
    (c : Client) (p : ℕ) (l : List String) (e : Option Json) (r : Json)
    → c.pending p ≡ record { future = some waiting; chunks = l; queue = none }
    → ((settle_pending c p e r).0.pending p).future ≡ some (outcome l e r)
unfolding settle_pending deliver_result deliver_error
settle_outcome c p l none r w = ap (λ (o : PendingRequest). o.future) (settled_result c p r _ w).0
settle_outcome c p l (some (obj x)) r w =
    ap (λ (o : PendingRequest). o.future) (settled_error c p x r _ w).0
settle_outcome c p l (some _) r w = ap (λ (o : PendingRequest). o.future) w

none_left : (t : Bool) (o : Option ℕ) → o ≡ none → (if t then none else o) ≡ none
none_left true o e = refl
none_left false o e = e

abbrev pub addresses : List Answer → List ℕ
addresses = map (λ a. a.address)

abbrev pub texts : List Answer → List String
texts = map (λ a. a.message)

module _ (rt : Runtime) where
  abbrev pub Responds : Answer → Type 0
  Responds a = IsResponse rt a.message a.fields a.id

  abbrev after : Client → Answer → Client
  after c a = (handle_message_on_loop rt c a.message).0

  module _ (c : Client) (b : Answer) (response : Responds b) (w : Awaits c b) where
    answered : IsAnswered (after c b) b
    unfolding call_message_handlers
    answered =
        let table =
          settled-table (popped c b.message b.id) b.address (Json.get b.fields "error")
            (get_or b.fields "result" null) in
        let settled = response_known rt c b.message b.fields b.id b.address response w.0 in
        (
          ap (λ (r : Outcome). (r.0.pending b.address).future) settled
              ∙ settle_outcome (popped c b.message b.id) b.address b.chunks
                  (Json.get b.fields "error") (get_or b.fields "result" null) w.1,
          ap (λ (r : Outcome). Dict.get r.0.pending_requests b.id) settled
              ∙ ap (λ t. Dict.get t b.id) table
              ∙ removed,
        )
      where
        removed : Dict.get (Dict.remove c.pending_requests b.id) b.id ≡ none
        removed = rw (get-remove c.pending_requests b.id b.id, eq_refl b.id) refl

    isolated :
        (a : Answer)
        → a.address ≢ b.address
        → ((after c b).pending a.address ≡ c.pending a.address)
          × (Dict.get (after c b).pending_requests a.id
              ≡ (if b.id == a.id then none else Dict.get c.pending_requests a.id))
    isolated a ne =
        response_isolated rt c b.message b.fields b.id b.address response w.0 a.address a.id ne

    other_id :
        (a : Answer)
        → a.address ≢ b.address
        → Dict.get c.pending_requests a.id ≡ some a.address
        → (b.id == a.id) ≡ false
    other_id a ne known = elim (Bool-cases (b.id == a.id)) [
      | inr other ↦ other
      | inl same ↦
          let id : b.id ≡ a.id = (string-Eq.same_iff b.id a.id).0 same in
          let both : some a.address ≡ some b.address =
            sym known ∙ ap (λ i. Dict.get c.pending_requests i) (sym id) ∙ w.0 in
          absurd (ne (cc both))
    ]

    keeps_waiting : (a : Answer) → a.address ≢ b.address → Awaits c a → Awaits (after c b) a
    keeps_waiting a ne (known, waits) =
        let (same, table) = isolated a ne in
        (table ∙ if-false _ _ _ (other_id a ne known) ∙ known, same ∙ waits)

    answered_stays :
        (a : Answer) → a.address ≢ b.address → IsAnswered c a → IsAnswered (after c b) a
    answered_stays a ne (f, gone) =
        let (same, table) = isolated a ne in
        (
          ap (λ (o : PendingRequest). o.future) same ∙ f,
          table ∙ none_left (b.id == a.id) (Dict.get c.pending_requests a.id) gone,
        )

    keep_waiting :
        (l : List Answer)
        → ¬ In b.address (addresses l)
        → All (Awaits c) l
        → All (Awaits (after c b)) l
    keep_waiting [] out v = tt
    keep_waiting (a ∷ l) out v =
        (keeps_waiting a (λ e. out (inl (sym e))) v.0, keep_waiting l (λ i. out (inr i)) v.1)

  -- What is answered stays answered while the responses to other requests come.
  stays_answered :
      (l : List Answer) (c : Client) (a : Answer)
      → All Responds l
      → Distinct (addresses l)
      → All (Awaits c) l
      → ¬ In a.address (addresses l)
      → IsAnswered c a
      → IsAnswered (handle_all rt c (texts l)) a
  unfolding handle_all
  stays_answered [] c a r d v out done = done
  stays_answered (b ∷ l) c a r d v out done =
      stays_answered l (after c b) a r.1 d.1 (keep_waiting c b r.0 v.0 l d.0 v.1) (λ i. out (inr i))
        (answered_stays c b r.0 v.0 a (λ e. out (inl e)) done)

  -- The responses to requests that wait, with or without an error, come in any order: each request gets the
  -- outcome that its own response stands for, and its identifier is in the table no more.
  pub answers_any_order :
      (l : List Answer) (c : Client)
      → All Responds l
      → Distinct (addresses l)
      → All (Awaits c) l
      → All (IsAnswered (handle_all rt c (texts l))) l
  unfolding handle_all
  answers_any_order [] c r d v = tt
  answers_any_order (a ∷ l) c r d v =
      let waits = keep_waiting c a r.0 v.0 l d.0 v.1 in
      (
        stays_answered l (after c a) a r.1 d.1 waits d.0 (answered c a r.0 v.0),
        answers_any_order l (after c a) r.1 d.1 waits,
      )
