-- ===== src/Client/Bus.antt =====
-- `AsyncStdioBus` of stdiobus/client.py as a whole: its state, the backend that it drives through the
-- interface of stdiobus/backends/base.py, and the messages that it builds.
use stdiobus_python.Base.{
  ℕ, zero, suc, String, Bool, false, Option, none, some, List, update, or_text, if◌then◌else◌,
}
use stdiobus_python.Base.Int.{ℤ, pos}
use stdiobus_python.Base.Dict
use stdiobus_python.Json.{Json, Fields, str, obj, end, field, put, put_text, is_end}
use stdiobus_python.Errors.{Exception}
use stdiobus_python.Types.Enums.{BusState, is_running_state}
use stdiobus_python.Types.Protocol.{RequestOptions, identity_dict, audit_dict}
use stdiobus_python.Client.Pending.{PendingRequest}
use stdiobus_python.Client.State.{Client}

-- What a call of `send` comes to: it returns, or it raises.
pub data Sent : Type 0 where
  returned : Bool → Sent
  raised : Exception → Sent

-- The abstract methods of `Backend`, over the backend's own state. `stop` and `start` are the whole
-- of the awaited call.
pub record BackendOps (B : Type 0) : Type 0 where
  pub get_state : B → BusState
  pub send : B → String → B × Sent
  pub start : B → B × Option Exception
  pub stop : B → B
  pub destroy : B → B

-- Backend.is_running
abbrev pub is_running : {B : Type 0} → BackendOps B → B → Bool
is_running ops b = is_running_state (ops.get_state b)

-- `released` holds the backends that the object has let go, in the state in which it left them.
pub record Bus (B : Type 0) : Type 0 where
  pub client : Client
  pub backend : Option B
  pub released : List B
  pub client_session_id : String
  pub agent_session_id : Json
  pub timeout_ms : ℤ
  pub loop : Option ℕ

-- `a or b` where `a` is an optional integer
abbrev pub or_int : Option ℤ → ℤ → ℤ
or_int none d = d
or_int (some (pos zero)) d = d
or_int (some n) d = n

abbrev pub or_int? : Option ℤ → Option ℤ → Option ℤ
or_int? none d = d
or_int? (some (pos zero)) d = d
or_int? (some n) d = some n

-- `opts.timeout_ms or timeout_ms or self._timeout_ms`
unfoldable pub effective_timeout : RequestOptions → Option ℤ → ℤ → ℤ
effective_timeout opts given own = or_int (or_int? opts.timeout_ms given) own

-- `opts.session_id or session_id or self._client_session_id`
unfoldable pub effective_session : RequestOptions → Option String → String → String
effective_session opts given own = or_text opts.session_id (or_text given own)

-- The `_ext` dictionary: an `Identity` or an `AuditEvent` is always true.
unfoldable pub extensions : RequestOptions → Fields
extensions opts =
    let d : Fields = elim opts.identity [
      | none ↦ end
      | some i ↦ field "identity" (obj (identity_dict i)) end
    ] in
    elim opts.audit [ none ↦ d | some a ↦ put d "audit" (obj (audit_dict a)) ]

abbrev pub put_params : Fields → Option Fields → Fields
put_params d none = d
put_params d (some p) = if is_end p then d else put d "params" (obj p)

abbrev pub put_ext : Fields → Fields → Fields
put_ext d e = if is_end e then d else put d "_ext" (obj e)

unfoldable pub build_request :
    (own : String) (msg_id method : String)
    → Option Fields
    → RequestOptions
    → Option String
    → Fields
unfolding effective_session extensions
build_request own msg_id method params opts session =
    let d0 : Fields =
      field "jsonrpc" (str "2.0") (field "id" (str msg_id) (field "method" (str method) end)) in
    let d1 = put_params d0 params in
    let d2 = put d1 "sessionId" (str (effective_session opts session own)) in
    let d3 = put_text d2 "agentId" opts.agent_id in put_ext d3 (extensions opts)

-- The message that `notify` sends.
unfoldable pub build_notification : (own method : String) → Option Fields → RequestOptions → Fields
unfolding extensions
build_notification own method params opts =
    let d0 : Fields = field "jsonrpc" (str "2.0") (field "method" (str method) end) in
    let d1 = put_params d0 params in
    let d2 = put d1 "sessionId" (str (or_text opts.session_id own)) in
    let d3 = put_text d2 "agentId" opts.agent_id in put_ext d3 (extensions opts)

-- `self._pending_requests[msg_id] = pending`, with a new object.
unfoldable pub add_pending : Client → String → PendingRequest → Client
add_pending c id p = record c {
  pending_requests = Dict.put c.pending_requests id c.next_pending;
  pending = update c.pending c.next_pending p;
  next_pending = suc c.next_pending;
}

-- `self._pending_requests.pop(msg_id, None)`
unfoldable pub drop_pending : Client → String → Client
drop_pending c id = record c { pending_requests = Dict.remove c.pending_requests id }

module _ {B : Type 0} (ops : BackendOps B) where
  -- `send`
  unfoldable pub send : Bus B → String → Bus B × Sent
  send b m = elim b.backend [
    | none ↦ (b, returned false)
    | some k ↦ (let (k', s) = ops.send k m in (record b { backend = some k' }, s))
  ]

  -- `self._backend is None or not self._backend.is_running()` fails
  unfoldable pub ready : Bus B → Bool
  ready b = elim b.backend [ none ↦ false | some k ↦ is_running ops k ]
