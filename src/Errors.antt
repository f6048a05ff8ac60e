-- ===== src/Errors.antt =====
-- stdiobus/errors.py: the exception classes, `error_from_code`, and the dictionary of an error; with
-- the exceptions of the language that the client's code can raise.
mod Codes
pub mod Conversion
pub mod Tests
unfoldable pub use Codes.{value, name, of_int, of_json}
pub use Codes.{
  ErrorCode, invalid_argument, invalid_state, timeout, cancelled, transport_error,
  negotiation_failed, policy_denied, unavailable, resource_exhausted, not_supported, internal,
  of_int-value, of_int_sound,
}
use stdiobus_python.Base.{String, ◌<>◌, Option, none, some}
use stdiobus_python.Base.Int.{pos}
use stdiobus_python.Json.{Json, null, int, str, Fields, end, field, put}

-- The subclasses of `StdioBusError`, and the class itself.
pub data ErrorClass : Type 0 where
  stdio_bus_class invalid_argument_class invalid_state_class timeout_class cancelled_class
        transport_class negotiation_failed_class :
      ErrorClass
  policy_denied_class unavailable_class resource_exhausted_class not_supported_class
        internal_class :
      ErrorClass

-- The class attribute `code`.
unfoldable pub class_code : ErrorClass → ErrorCode
class_code stdio_bus_class = internal
class_code invalid_argument_class = invalid_argument
class_code invalid_state_class = invalid_state
class_code timeout_class = timeout
class_code cancelled_class = cancelled
class_code transport_class = transport_error
class_code negotiation_failed_class = negotiation_failed
class_code policy_denied_class = policy_denied
class_code unavailable_class = unavailable
class_code resource_exhausted_class = resource_exhausted
class_code not_supported_class = not_supported
class_code internal_class = internal

-- The message and the details are what the wire gave; `null` is `None`.
pub record StdioBusError : Type 0 where
  pub class : ErrorClass
  pub message : Json
  pub details : Json

abbrev pub error_code : StdioBusError → ErrorCode
error_code e = class_code e.class

abbrev pub raise_new : ErrorClass → String → StdioBusError
raise_new c m = record { class = c; message = str m; details = null }

-- The table `error_classes` of `error_from_code`.
unfoldable pub error_class : ErrorCode → ErrorClass
error_class invalid_argument = invalid_argument_class
error_class invalid_state = invalid_state_class
error_class timeout = timeout_class
error_class cancelled = cancelled_class
error_class transport_error = transport_class
error_class negotiation_failed = negotiation_failed_class
error_class policy_denied = policy_denied_class
error_class unavailable = unavailable_class
error_class resource_exhausted = resource_exhausted_class
error_class not_supported = not_supported_class
error_class internal = internal_class

unfoldable pub class_or_internal : Option ErrorCode → ErrorClass
unfolding error_class
class_or_internal none = internal_class
class_or_internal (some c) = error_class c

unfoldable pub error_from_code : Json → Json → Json → StdioBusError
unfolding class_or_internal
error_from_code code message details = record {
  class = class_or_internal (of_json code);
  message = message;
  details = details;
}

abbrev put_details : Fields → Json → Fields
put_details d null = d
put_details d v = put d "details" v

-- e.to_dict()
unfoldable pub to_dict : StdioBusError → Fields
unfolding class_code
to_dict e =
    put_details
      (field "code" (int (pos (value (class_code e.class)))) (field "message" e.message end))
      e.details

-- str(e), where `text` is `str` of the message.
unfoldable pub to_text : (Json → String) → StdioBusError → String
unfolding class_code
to_text text e = "[" <> name (class_code e.class) <> "] " <> text e.message

-- What a call can raise: an error of the library, or one of the language.
pub data Exception : Type 0 where
  sdk : StdioBusError → Exception
  value_error : String → Exception
  type_error attribute_error import_error : Exception
