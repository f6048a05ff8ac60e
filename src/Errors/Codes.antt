-- ===== src/Errors/Codes.antt =====
-- stdiobus/errors.py: `ErrorCode`, with its values, its names and the call `ErrorCode(x)`.
use stdiobus_python.Base.{
  ℕ, String, ◌≡◌, refl, sym, ap, true, Option, none, some, List, [], ◌∷◌, arith, ◌==◌, nat-Eq,
  if◌then◌else◌,
}
use stdiobus_python.Base.Int.{ℤ, pos, negsuc}
use stdiobus_python.Json.{Json, bool, int, float}

pub data ErrorCode : Type 0 where
  invalid_argument invalid_state timeout cancelled transport_error negotiation_failed : ErrorCode
  policy_denied unavailable resource_exhausted not_supported internal : ErrorCode

-- code.value
unfoldable pub value : ErrorCode → ℕ
value invalid_argument = 1
value invalid_state = 2
value timeout = 3
value cancelled = 4
value transport_error = 5
value negotiation_failed = 6
value policy_denied = 7
value unavailable = 8
value resource_exhausted = 9
value not_supported = 10
value internal = 99

-- code.name
unfoldable pub name : ErrorCode → String
name invalid_argument = "INVALID_ARGUMENT"
name invalid_state = "INVALID_STATE"
name timeout = "TIMEOUT"
name cancelled = "CANCELLED"
name transport_error = "TRANSPORT_ERROR"
name negotiation_failed = "NEGOTIATION_FAILED"
name policy_denied = "POLICY_DENIED"
name unavailable = "UNAVAILABLE"
name resource_exhausted = "RESOURCE_EXHAUSTED"
name not_supported = "NOT_SUPPORTED"
name internal = "INTERNAL"

abbrev pub members : List ErrorCode
members =
    invalid_argument ∷ invalid_state ∷ timeout ∷ cancelled ∷ transport_error ∷ negotiation_failed
    ∷ policy_denied ∷ unavailable ∷ resource_exhausted ∷ not_supported ∷ internal ∷ []

unfoldable pub find_value : List ErrorCode → ℕ → Option ErrorCode
find_value [] n = none
find_value (c ∷ cs) n = if value c == n then some c else find_value cs n

-- `ErrorCode(n)`, with `none` for its `ValueError`.
unfoldable pub of_int : ℤ → Option ErrorCode
unfolding find_value value
of_int (pos n) = find_value members n
of_int (negsuc n) = none

-- The same for any decoded value: `True`, `False` and an integral float equal an integer, and no
-- other value is a member.
unfoldable pub of_json : Json → Option ErrorCode
unfolding of_int
of_json (int n) = of_int n
of_json (bool true) = some invalid_argument
of_json (float (some n) s) = of_int n
of_json _ = none

-- Looking a member's value up gives that member.
pub of_int-value : (c : ErrorCode) → of_int (pos (value c)) ≡ some c
unfolding of_int
of_int-value invalid_argument = refl
of_int-value _ = refl

find_value_sound :
    (cs : List ErrorCode) (n : ℕ) (c : ErrorCode) → find_value cs n ≡ some c → value c ≡ n
unfolding find_value
find_value_sound [] n c h = cc
find_value_sound (d ∷ cs) n c h = ground (arith, find_value_sound cs n c)

-- What a look-up finds has the value that was looked up.
pub of_int_sound : (n : ℤ) (c : ErrorCode) → of_int n ≡ some c → n ≡ pos (value c)
unfolding of_int
of_int_sound (pos n) c h = ap pos (sym (find_value_sound members n c h))
of_int_sound (negsuc n) c h = cc
