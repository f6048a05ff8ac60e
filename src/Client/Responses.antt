-- ===== src/Client/Responses.antt =====
-- Responses in stdiobus/client.py: which request a response settles, what it delivers, and what it
-- leaves alone.
use stdiobus_python.Base.{
  ℕ, String, ◌≡◌, ◌≢◌, refl, ap, ◌∙◌, Option, none, some, update_ne, ◌==◌, string-Eq, if◌then◌else◌,
}
use stdiobus_python.Base.Dict
use stdiobus_python.Base.Dict.{values, get-remove}
use stdiobus_python.Json
use stdiobus_python.Json.{Json, Fields, null, int, str, obj, get_or}
use stdiobus_python.Client.State.{Client, Runtime}
use stdiobus_python.Client.Dispatch.{call_message_handlers, handle_response, settle_pending}
use stdiobus_python.Client.Loop.{message_id, dispatch_object, dispatch, handle_message_on_loop}

-- The message `m` decodes to the dictionary `d`, whose identifier reads `id`.
abbrev pub IsResponse : Runtime → (m : String) → Fields → (id : String) → Type 0
IsResponse rt m d id =
    (j : Json) × (rt.loads m ≡ some (obj d)) × (message_id d ≡ some j) × (rt.to_str j ≡ id)

-- The client after the raw handlers of `m`, with `id` popped.
abbrev pub popped : Client → (m id : String) → Client
popped c m id = record (call_message_handlers c m) {
  pending_requests = Dict.remove c.pending_requests id;
}

module _ (rt : Runtime) (c : Client) (m : String) (d : Fields) (id : String) where
  pub response_known :
      (p : ℕ)
      → IsResponse rt m d id
      → Dict.get c.pending_requests id ≡ some p
      → handle_message_on_loop rt c m
        ≡ settle_pending (popped c m id) p (Json.get d "error") (get_or d "result" null)
  unfolding handle_message_on_loop call_message_handlers handle_response
  response_known p (j, decoded, named, reads) known =
      let found : Dict.get c.pending_requests (rt.to_str j) ≡ some p = rw reads known in
      rw (decoded, handle_message_on_loop)
        (unfold dispatch in rw (named, dispatch_object) (rw (found, handle_response) (rw reads)))

  -- A response with an identifier that is not in the table changes nothing but the record of the raw
  -- handlers' calls.
  pub response_unknown :
      IsResponse rt m d id
      → Dict.get c.pending_requests id ≡ none
      → handle_message_on_loop rt c m ≡ (call_message_handlers c m, none)
  unfolding handle_message_on_loop call_message_handlers handle_response
  response_unknown (j, decoded, named, reads) unknown =
      rw (decoded, handle_message_on_loop)
        (unfold dispatch in rw (named, dispatch_object) (rw (reads, handle_response) (rw unknown)))

-- A known identifier leaves the table, and no other does; every other object is as it was.
module _ (rt : Runtime) (c : Client) (m : String) (d : Fields) (id : String) (p : ℕ) where
  settle_frame :
      (c' : Client) (e : Option Json) (r : Json) (q : ℕ)
      → q ≢ p
      → ((settle_pending c' p e r).0.pending q ≡ c'.pending q)
        × ((settle_pending c' p e r).0.pending_requests ≡ c'.pending_requests)
  unfolding settle_pending
  settle_frame c' none r q ne = (update_ne c'.pending p q _ ne, refl)
  settle_frame c' (some (obj x)) r q ne = (update_ne c'.pending p q _ ne, refl)
  settle_frame c' (some _) r q ne = (refl, refl)

  -- A response with an identifier in the table, whatever it holds, takes that identifier out and keeps
  -- every other; and every object but the one under it stays as it was.
  pub response_isolated :
      IsResponse rt m d id
      → Dict.get c.pending_requests id ≡ some p
      → (q : ℕ) (j : String) → q ≢ p
      → ((handle_message_on_loop rt c m).0.pending q ≡ c.pending q)
        × (Dict.get (handle_message_on_loop rt c m).0.pending_requests j
            ≡ (if id == j then none else Dict.get c.pending_requests j))
  unfolding call_message_handlers
  response_isolated r known q j ne =
      let (same, table) =
        settle_frame (popped c m id) (Json.get d "error") (get_or d "result" null) q ne in
      rw (response_known rt c m d id p r known)
        (same, ap (λ t. Dict.get t j) table ∙ get-remove c.pending_requests id j)
