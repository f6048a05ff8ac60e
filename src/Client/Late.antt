-- ===== src/Client/Late.antt =====
-- Responses of stdiobus/client.py that come too late, or a second time.
use stdiobus_python.Base.{ℕ, String, ◌≡◌, refl, ◌∙◌, Option, none, some, ap, eq_refl, string-Eq}
use stdiobus_python.Base.Dict
use stdiobus_python.Base.Dict.{get-remove}
use stdiobus_python.Json
use stdiobus_python.Json.{Json, Fields, null, obj, get_or}
use stdiobus_python.Client.State.{Client, Runtime}
use stdiobus_python.Client.Dispatch.{call_message_handlers, settle_pending}
use stdiobus_python.Client.Loop.{handle_message_on_loop}
use stdiobus_python.Client.Requests.{timed_out, cancel_at, end_request}
use stdiobus_python.Client.Responses.{IsResponse, popped, response_known, response_unknown}
use stdiobus_python.Client.Streaming.{get-drop_pending}

pub settled-table :
    (c : Client) (p : ℕ) (e : Option Json) (r : Json)
    → (settle_pending c p e r).0.pending_requests ≡ c.pending_requests
unfolding settle_pending
settled-table c p none r = refl
settled-table c p (some (obj x)) r = refl
settled-table c p (some _) r = refl

module _ (rt : Runtime) (c : Client) (id : String) where
  -- A response that comes after its request has run out of time changes nothing but the record of the raw
  -- handlers' calls, and raises nothing.
  pub late_response :
      (method : String) (p : ℕ) (m : String) (d : Fields)
      → IsResponse rt m d id
      → let c' = (end_request c id method p timed_out).0 in
        handle_message_on_loop rt c' m ≡ (call_message_handlers c' m, none)
  unfolding end_request
  late_response method p m d r =
      response_unknown rt _ m d id r (get-drop_pending (cancel_at c p) id)

  -- A request is answered once: after a response to it, whatever that holds, any other with the same
  -- identifier changes nothing but the record of the raw handlers' calls, and raises nothing.
  pub response_once :
      (p : ℕ) (m : String) (d : Fields) (m' : String) (d' : Fields)
      → IsResponse rt m d id
      → Dict.get c.pending_requests id ≡ some p
      → IsResponse rt m' d' id
      → let c' = (handle_message_on_loop rt c m).0 in
        handle_message_on_loop rt c' m' ≡ (call_message_handlers c' m', none)
  response_once p m d m' d' r known r' = response_unknown rt _ m' d' id r' gone
    where
      gone : Dict.get (handle_message_on_loop rt c m).0.pending_requests id ≡ none
      gone = rw (response_known rt c m d id p r known) (
          ap (λ t. Dict.get t id)
            (settled-table (popped c m id) p (Json.get d "error") (get_or d "result" null))
          ∙ rw (get-remove c.pending_requests id id, eq_refl id) refl)
