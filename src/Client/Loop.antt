-- ===== src/Client/Loop.antt =====
-- `_handle_message_on_loop` of `AsyncStdioBus` in stdiobus/client.py, whole, and the shim
-- `_handle_message` that brings a message from another thread to the owning loop.
use text.Mathlib.Text.{find?}
use stdiobus_python.Base.{
  ℕ, String, Bool, true, false, Option, none, some, List, [], ◌∷◌, ◌++◌, ◌==◌, nat-Eq,
  if◌then◌else◌,
}
use stdiobus_python.Json
use stdiobus_python.Json.{Json, Fields, null, obj, arr, str, mem_str}
use stdiobus_python.Errors.{Exception, type_error, attribute_error}
use stdiobus_python.Client.State.{Client, Runtime}
use stdiobus_python.Client.Dispatch.{
  Outcome, call_message_handlers, handle_notification_on_loop, handle_response,
}

-- data["id"], where it is there and not `None`
unfoldable pub message_id : Fields → Option Json
message_id d = elim (Json.get d "id") [ none ↦ none | some null ↦ none | some v ↦ some v ]

-- "method" in data
unfoldable pub has_method : Fields → Bool
has_method d = elim (Json.get d "method") [ none ↦ false | some v ↦ true ]

-- A list or a text that holds "id" is then indexed by "id", which raises `TypeError`; one that holds
-- "method" alone goes on to `data.get`, which raises `AttributeError`.
unfoldable pub dispatch_sequence : Client → (has_id has_method : Bool) → Outcome
dispatch_sequence c true m = (c, some type_error)
dispatch_sequence c false true = (c, some attribute_error)
dispatch_sequence c false false = (c, none)

unfoldable pub contains : String → String → Bool
contains s t = elim (find? s t) [ none ↦ false | some i ↦ true ]

module _ (rt : Runtime) where
  unfoldable pub dispatch_object : Client → Fields → Outcome
  unfolding message_id has_method
  dispatch_object c d = elim (message_id d) [
    | some id ↦ handle_response rt c d id
    | none ↦ if has_method d then (handle_notification_on_loop rt c d, none) else (c, none)
  ]

  -- Of a decoded value that is neither a dictionary, a list nor a text, `"id" in data` raises.
  unfoldable pub dispatch : Client → Json → Outcome
  unfolding dispatch_object dispatch_sequence contains
  dispatch c (obj d) = dispatch_object c d
  dispatch c (arr l) = dispatch_sequence c (mem_str l "id") (mem_str l "method")
  dispatch c (str s) = dispatch_sequence c (contains s "id") (contains s "method")
  dispatch c _ = (c, some type_error)

  unfoldable pub handle_message_on_loop : Client → String → Outcome
  unfolding dispatch call_message_handlers
  handle_message_on_loop c m =
      let c' = call_message_handlers c m in
      elim (rt.loads m) [ none ↦ (c', none) | some v ↦ dispatch c' v ]

-- The client with its owning loop, a number, and the callbacks that `call_soon_threadsafe` has put
-- there, which the loop runs in the order of the calls.
pub record Shim : Type 0 where
  pub client : Client
  pub loop : Option ℕ
  pub scheduled : List String

module _ (rt : Runtime) where
  -- `running` is the running loop of the calling thread.
  unfoldable pub handle_message : Shim → Option ℕ → String → Shim × Option Exception
  handle_message s running m = elim s.loop [
    | none ↦ let (c, e) = handle_message_on_loop rt s.client m in (record s { client = c }, e)
    | some l ↦ elim running [
      | none ↦ (record s { scheduled = s.scheduled ++ m ∷ [] }, none)
      | some r ↦
          if r == l
          then (let (c, e) = handle_message_on_loop rt s.client m in (record s { client = c }, e))
          else (record s { scheduled = s.scheduled ++ m ∷ [] }, none)
    ]
  ]

  -- The loop runs its callbacks. One that raises ends only itself.
  unfoldable pub handle_all : Client → List String → Client
  handle_all c [] = c
  handle_all c (m ∷ ms) = handle_all (handle_message_on_loop rt c m).0 ms

  unfoldable pub run_scheduled : Shim → Shim
  unfolding handle_all
  run_scheduled s = record s { client = handle_all s.client s.scheduled; scheduled = [] }
