-- ===== src/Errors/Tests.antt =====
-- Runs of stdiobus/errors.py at concrete inputs.
use stdiobus_python.Base.{◌≡◌, refl, some}
use stdiobus_python.Base.Int.{pos}
use stdiobus_python.Json.{null, float, str, get_or}
use stdiobus_python.Errors.{
  internal, timeout, StdioBusError, stdio_bus_class, timeout_class, internal_class, error_code,
  error_from_code, to_dict, to_text, raise_new, of_json, class_code, name,
}
use stdiobus_python.Errors.Conversion.{error_from_code-to_dict}

abbrev bare : StdioBusError
bare = raise_new stdio_bus_class "boom"

error_from_code-to_dict_example :
    error_from_code
      (get_or (to_dict bare) "code" null)
      (get_or (to_dict bare) "message" null)
      (get_or (to_dict bare) "details" null)
    ≡ raise_new internal_class "boom"
error_from_code-to_dict_example = error_from_code-to_dict bare

float_code : error_code (error_from_code (float (some (pos 3)) "3.0") (str "late") null) ≡ timeout
unfolding error_from_code of_json class_code
float_code = refl

text_code : error_code (error_from_code (str "3") (str "late") null) ≡ internal
unfolding error_from_code of_json class_code
text_code = refl

timeout_text : to_text (λ m. "late") (raise_new timeout_class "late") ≡ "[TIMEOUT] late"
unfolding to_text name
timeout_text = refl
