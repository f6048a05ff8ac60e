-- ===== src/Errors/Conversion.antt =====
-- `error_from_code` and `to_dict` of stdiobus/errors.py.
use stdiobus_python.Base.{◌≡◌, refl, ◌∙◌, Option, none, some}
use stdiobus_python.Base.Int.{ℤ, pos}
use stdiobus_python.Json.{Json, null, int, get, put, get_or}
use stdiobus_python.Errors.Codes.{
  ErrorCode, value, internal, of_int, of_json, of_int-value, of_int_sound,
}
use stdiobus_python.Errors.{
  StdioBusError, ErrorClass, stdio_bus_class, invalid_argument_class, internal_class, class_code,
  error_class, class_or_internal, error_from_code, to_dict, error_code,
}

class_code-error_class : (c : ErrorCode) → class_code (error_class c) ≡ c
unfolding class_code error_class
class_code-error_class internal = refl
class_code-error_class _ = refl

-- For every canonical code, sent as its number, the error that is built has that code, and it keeps
-- the message and the details.
pub error_from_code_canonical :
    (c : ErrorCode) (m d : Json)
    → (error_code (error_from_code (int (pos (value c))) m d) ≡ c)
      × ((error_from_code (int (pos (value c))) m d).message ≡ m)
      × ((error_from_code (int (pos (value c))) m d).details ≡ d)
unfolding error_from_code of_json
error_from_code_canonical c m d = (rw of_int-value (class_code-error_class c), refl, refl)

class_code-class_or_internal :
    (o : Option ErrorCode)
    → class_code (class_or_internal o) ≡ (elim o [ none ↦ internal | some c ↦ c ])
unfolding class_or_internal
class_code-class_or_internal none = unfold class_code in refl
class_code-class_or_internal (some c) = class_code-error_class c

-- An integer that no canonical code has gives an internal error, never an exception of its own.
pub error_from_code_unknown :
    (n : ℤ) (m d : Json)
    → ((c : ErrorCode) → ¬ (n ≡ pos (value c)))
    → error_code (error_from_code (int n) m d) ≡ internal
unfolding error_from_code of_json
error_from_code_unknown n m d h =
    class_code-class_or_internal (of_int n) ∙ not_found (of_int n) refl
  where
    not_found :
        (o : Option ErrorCode) → of_int n ≡ o → (elim o [ none ↦ internal | some c ↦ c ]) ≡ internal
    not_found none e = refl
    not_found (some c) e = absurd (h c (of_int_sound n c e))

-- An instance of the base class `StdioBusError` cannot be told from an `InternalError` on the wire.
abbrev pub wire_class : ErrorClass → ErrorClass
wire_class stdio_bus_class = internal_class
wire_class c = c

error_class-class_code : (c : ErrorClass) → error_class (class_code c) ≡ wire_class c
unfolding error_class class_code
error_class-class_code invalid_argument_class = refl
error_class-class_code _ = refl

rebuild :
    (c : ErrorClass) (m d : Json)
    → let e : StdioBusError = record { class = c; message = m; details = d } in
      error_from_code
        (get_or (to_dict e) "code" null)
        (get_or (to_dict e) "message" null)
        (get_or (to_dict e) "details" null)
      ≡ record { class = wire_class c; message = m; details = d }
unfolding to_dict error_from_code of_json get put
rebuild c m null = rw (of_int-value, error_class-class_code)
rebuild c m _ = rw (of_int-value, error_class-class_code)

-- Rebuilding an error from the `code`, `message` and `details` of its `to_dict` (absent details are
-- `None`) gives the same class, message and details, but the bare base class becomes `InternalError`.
pub error_from_code-to_dict :
    (e : StdioBusError)
    → error_from_code
        (get_or (to_dict e) "code" null)
        (get_or (to_dict e) "message" null)
        (get_or (to_dict e) "details" null)
      ≡ record { class = wire_class e.class; message = e.message; details = e.details }
error_from_code-to_dict e = rebuild e.class e.message e.details
