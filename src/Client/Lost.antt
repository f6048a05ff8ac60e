-- ===== src/Client/Lost.antt =====
-- An error response of stdiobus/client.py whose `error` is no dictionary, such as `"error": null`
-- beside a result.
use stdiobus_python.Base.{ℕ, String, ◌≡◌, refl, none, some, eq_refl, string-Eq}
use stdiobus_python.Base.Dict
use stdiobus_python.Base.Dict.{values, get-remove}
use stdiobus_python.Json
use stdiobus_python.Json.{Json, Fields, null, int, str, obj, get_or}
use stdiobus_python.Errors.{attribute_error}
use stdiobus_python.Client.State.{Client, Runtime}
use stdiobus_python.Client.Dispatch.{call_message_handlers, settle_pending}
use stdiobus_python.Client.Loop.{handle_message_on_loop}
use stdiobus_python.Client.Responses.{IsResponse, popped, response_known}

abbrev pub IsObject : Json → Type 0
IsObject (obj x) = Unit {0}
IsObject _ = ⊥

lost :
    (c : Client) (p : ℕ) (x r : Json)
    → ¬ IsObject x
    → settle_pending c p (some x) r ≡ (c, some attribute_error)
unfolding settle_pending
lost c p (obj x) r no_object = absurd (no_object tt)
lost c p null r no_object = refl
lost c p _ r no_object = refl

-- Handling a response whose `error` is there and is no dictionary raises `AttributeError` after the
-- request has left the table: the objects of all requests stay as they were, so the request that it
-- answers gets neither a result nor an error, and no later response can reach it.
pub response_lost :
    (rt : Runtime) (c : Client) (m : String) (d : Fields) (id : String) (p : ℕ) (x : Json)
    → IsResponse rt m d id
    → Dict.get c.pending_requests id ≡ some p
    → Json.get d "error" ≡ some x
    → ¬ IsObject x
    → ((handle_message_on_loop rt c m).1 ≡ some attribute_error)
      × ((handle_message_on_loop rt c m).0.pending ≡ c.pending)
      × (Dict.get (handle_message_on_loop rt c m).0.pending_requests id ≡ none)
unfolding call_message_handlers
response_lost rt c m d id p x response known there no_object =
    rw (response_known rt c m d id p response known, there, lost (popped c m id) p x _ no_object)
      (refl, refl, rw (get-remove c.pending_requests id id, eq_refl id))
