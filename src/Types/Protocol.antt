-- ===== src/Types/Protocol.antt =====
-- The protocol types of stdiobus/types.py: extensions, the hello handshake, identity, audit, the
-- options of a request and the events of a stream.
use stdiobus_python.Base.{String, false, Option, none, some, if◌then◌else◌}
use stdiobus_python.Base.Int.{ℤ}
use stdiobus_python.Json.{Json, bool, str, obj, Fields, end, field, put, get_or, put_text, is_end}

-- `version` and `active` may be any value that the other side sent.
pub record ExtensionInfo : Type 0 where
  pub version : Json
  pub required : Json
  pub active : Json

pub data Extensions : Type 0 where
  no_more : Extensions
  extension : String → ExtensionInfo → Extensions → Extensions

pub record HelloParams : Type 0 where
  pub protocol_version : String
  pub extensions : Extensions

-- The dictionary comprehension of `HelloParams.to_dict`.
unfoldable pub extensions_dict : Extensions → Fields
extensions_dict no_more = end
extensions_dict (extension k v l) =
    field k (obj (field "version" v.version (field "required" v.required end))) (extensions_dict l)

unfoldable pub hello_params_dict : HelloParams → Fields
unfolding extensions_dict
hello_params_dict p =
    field "protocolVersion" (str p.protocol_version)
      (field "extensions" (obj (extensions_dict p.extensions)) end)

pub record HelloResult : Type 0 where
  pub negotiated_protocol_version : Json
  pub session_id : Json
  pub extensions : Extensions

abbrev from_value : Fields → ExtensionInfo
from_value v = record {
  version = get_or v "selected" (get_or v "version" (str ""));
  required = bool false;
  active = get_or v "active" (bool false);
}

-- The loop of `HelloResult.from_dict`: `v.get` raises on a value that is no dictionary.
unfoldable pub read_extensions : Fields → Option Extensions
read_extensions end = some no_more
read_extensions (field k (obj v) l) = elim (read_extensions l) [
  | none ↦ none
  | some rest ↦ some (extension k (from_value v) rest)
]
read_extensions (field k v l) = none

-- `HelloResult.from_dict`: `none` is the `AttributeError` of a value that is no dictionary.
unfoldable pub hello_result_fields : Fields → Option HelloResult
unfolding read_extensions
hello_result_fields d = elim (get_or d "extensions" (obj end)) [
  | obj l ↦ elim (read_extensions l) [
    | none ↦ none
    | some es ↦ some (record {
      negotiated_protocol_version = get_or d "negotiatedProtocolVersion" (str "");
      session_id = get_or d "sessionId" (str "");
      extensions = es;
    })
  ]
  | _ ↦ none
]

unfoldable pub hello_result : Json → Option HelloResult
unfolding hello_result_fields
hello_result (obj d) = hello_result_fields d
hello_result _ = none

pub record Identity : Type 0 where
  pub subject_id : String
  pub role : String
  pub asserted_by : String

unfoldable pub identity_dict : Identity → Fields
identity_dict i =
    field "subjectId" (str i.subject_id)
      (field "role" (str i.role) (field "assertedBy" (str i.asserted_by) end))

pub record AuditEvent : Type 0 where
  pub event_id : String
  pub action : String
  pub parent_event_id : Option String
  pub timestamp : Option String
  pub actor : Option Fields
  pub resource : Option String
  pub outcome : Option String

-- `if v: d[k] = v` for an optional dictionary.
abbrev pub put_fields : Fields → String → Option Fields → Fields
put_fields d k none = d
put_fields d k (some v) = if is_end v then d else put d k (obj v)

unfoldable pub audit_dict : AuditEvent → Fields
audit_dict a =
    let d0 : Fields = field "eventId" (str a.event_id) (field "action" (str a.action) end) in
    let d1 = put_text d0 "parentEventId" a.parent_event_id in
    let d2 = put_text d1 "timestamp" a.timestamp in
    let d3 = put_fields d2 "actor" a.actor in
    let d4 = put_text d3 "resource" a.resource in put_text d4 "outcome" a.outcome

pub record RequestOptions : Type 0 where
  pub timeout_ms : Option ℤ
  pub session_id : Option String
  pub agent_id : Option String
  pub identity : Option Identity
  pub audit : Option AuditEvent

-- `RequestOptions()`
abbrev pub no_options : RequestOptions
no_options = record {
  timeout_ms = none;
  session_id = none;
  agent_id = none;
  identity = none;
  audit = none;
}

-- A `StreamEvent` of either type.
pub data StreamEvent : Type 0 where
  chunk_event : String → StreamEvent
  result_event : Json → StreamEvent
