-- ===== src/Client/Wire.antt =====
-- The messages that stdiobus/client.py builds: `_build_request` and the one of `notify`.
use stdiobus_python.Base.{
  String, ◌≡◌, refl, ◌∙◌, false, Option, none, some, ◌==◌, string-Eq, is_empty, Bool-cases, inl,
  inr,
}
use stdiobus_python.Json.{Fields, str, obj, end, field, get, put, get-put, put_text, is_end}
use stdiobus_python.Types.Protocol.{RequestOptions}
use stdiobus_python.Client.Bus.{build_request, effective_session, extensions, put_params, put_ext}

-- What a conditional write leaves under another key.
module _ (d : Fields) (k j : String) (ne : (k == j) ≡ false) where
  get-put_text : (o : Option String) → get (put_text d k o) j ≡ get d j
  get-put_text none = refl
  get-put_text (some s) = elim (Bool-cases (is_empty s)) [
    | inl e ↦ rw e
    | inr e ↦ rw e (rw (get-put d k j (str s)) (rw ne))
  ]

get-put_params :
    (d : Fields) (p : Option Fields) (j : String)
    → ("params" == j) ≡ false
    → get (put_params d p) j ≡ get d j
get-put_params d none j ne = refl
get-put_params d (some p) j ne = elim (Bool-cases (is_end p)) [
  | inl e ↦ rw e
  | inr e ↦ rw e (rw (get-put d "params" j (obj p)) (rw ne))
]

get-put_ext : (d e : Fields) (j : String) → ("_ext" == j) ≡ false → get (put_ext d e) j ≡ get d j
get-put_ext d e j ne = elim (Bool-cases (is_end e)) [
  | inl h ↦ rw h
  | inr h ↦ rw h (rw (get-put d "_ext" j (obj e)) (rw ne))
]

optional_fields :
    (d : Fields) (agent : Option String) (e : Fields) (j : String)
    → ("_ext" == j) ≡ false
    → ("agentId" == j) ≡ false
    → get (put_ext (put_text d "agentId" agent) e) j ≡ get d j
optional_fields d agent e j h a =
    get-put_ext (put_text d "agentId" agent) e j h ∙ get-put_text d "agentId" j a agent

-- Whatever the caller's parameters and options, a request carries the protocol's version, its own
-- identifier and method, and the session of the options, else of the argument, else of the client.
pub build_request_fields :
    (own id method : String) (params : Option Fields) (opts : RequestOptions)
    (session : Option String)
    → let d = build_request own id method params opts session in
      (get d "jsonrpc" ≡ some (str "2.0"))
      × (get d "id" ≡ some (str id))
      × (get d "method" ≡ some (str method))
      × (get d "sessionId" ≡ some (str (effective_session opts session own)))
unfolding build_request get
build_request_fields own id method params opts session = (
  early "jsonrpc" refl refl refl refl,
  early "id" refl refl refl refl,
  early "method" refl refl refl refl,
  optional_fields d2 opts.agent_id (extensions opts) "sessionId" refl refl
      ∙ get-put (put_params d0 params) "sessionId" "sessionId" _,
)
  where
    d0 : Fields
    d0 = field "jsonrpc" (str "2.0") (field "id" (str id) (field "method" (str method) end))

    d2 : Fields
    d2 = put (put_params d0 params) "sessionId" (str (effective_session opts session own))

    early :
        (j : String)
        → ("_ext" == j) ≡ false
        → ("agentId" == j) ≡ false
        → ("sessionId" == j) ≡ false
        → ("params" == j) ≡ false
        → get (put_ext (put_text d2 "agentId" opts.agent_id) (extensions opts)) j ≡ get d0 j
    early j e a t p =
        optional_fields d2 opts.agent_id (extensions opts) j e a
        ∙ get-put (put_params d0 params) "sessionId" j _
        ∙ rw t (get-put_params d0 params j p)
