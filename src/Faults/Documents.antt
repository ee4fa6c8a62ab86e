-- ===== src/Faults/Documents.antt =====
-- fault-control/fault_control.py: the patterns of identifiers, and the checks of values.
use zkdeal_cloud_deployer_in.Base.{
  Bool, List, Option, String, [], false, if◌then◌else◌, nat_eq, none, some, true, within, ℕ, ◌&&◌,
  ◌||◌, ◌∷◌,
}
use zkdeal_cloud_deployer_in.Base.Lists.{all_of, any_of, contains, length}
use zkdeal_cloud_deployer_in.Base.Text.{codes, head_tail, is_lower_digit, is_lower_hex, is_upper}
use zkdeal_cloud_deployer_in.Base.Json.{
  Fields, Json, arr, bool, float, has_exactly, int, negsuc, null, obj, pos, str, ℤ,
}
use zkdeal_cloud_deployer_in.Base.Outcome.{check, err, ok}
use zkdeal_cloud_deployer_in.Faults.Model.{Fault, Result, invalid_request, unexpected}

abbrev is_one_of : List ℕ → ℕ → Bool
is_one_of marks c = any_of (nat_eq c) marks

abbrev is_alphanumeric : ℕ → Bool
is_alphanumeric c = is_lower_digit c || is_upper c

-- `^[A-Za-z0-9._:-]{least,most}$`
unfoldable pub is_mark_word : ℕ → ℕ → String → Bool
unfolding is_lower_digit is_upper
is_mark_word least most s =
    all_of (λ c. is_alphanumeric c || is_one_of (codes "._:-") c) (codes s)
    && within least (length (codes s)) most

-- `IDEMPOTENCY` and `CORRELATION`
abbrev pub is_idempotency_key : String → Bool
is_idempotency_key s = is_mark_word 8 200 s

abbrev pub is_correlation_id : String → Bool
is_correlation_id s = is_mark_word 8 128 s

-- `CANDIDATE`, `^[a-z0-9][a-z0-9._-]{7,79}$`
unfoldable pub is_candidate : String → Bool
unfolding head_tail is_lower_digit
is_candidate s =
    head_tail is_lower_digit (λ c. is_lower_digit c || is_one_of (codes "._-") c) 7 79 (codes s)

-- `CONTAINER`, `^[A-Za-z0-9][A-Za-z0-9_.-]{0,127}$`
unfoldable pub is_container_name : String → Bool
unfolding head_tail is_lower_digit is_upper
is_container_name s =
    head_tail is_alphanumeric (λ c. is_alphanumeric c || is_one_of (codes "_.-") c) 0 127 (codes s)

-- The rest of a text after a fixed prefix.
unfoldable pub after_prefix : List ℕ → List ℕ → Option (List ℕ)
after_prefix [] cs = some cs
after_prefix (p ∷ ps) [] = none
after_prefix (p ∷ ps) (c ∷ cs) = if nat_eq p c then after_prefix ps cs else none

-- `prefix` and then `count` characters of a class
unfoldable pub prefixed_word : String → (ℕ → Bool) → ℕ → ℕ → String → Bool
unfolding after_prefix
prefixed_word prefix test least most s = elim (after_prefix (codes prefix) (codes s)) [
  | none ↦ false
  | some rest ↦ all_of test rest && within least (length rest) most
]

-- `fc-[0-9a-f]{40}`
unfoldable pub is_operation_id : String → Bool
unfolding prefixed_word is_lower_hex
is_operation_id s = prefixed_word "fc-" is_lower_hex 40 40 s

-- `TOKEN`, `^sha256:[0-9a-f]{64}$`
unfoldable pub is_hosted_token : String → Bool
unfolding prefixed_word is_lower_hex
is_hosted_token s = prefixed_word "sha256:" is_lower_hex 64 64 s

-- `exact_keys`
unfoldable pub exact_keys : Fields → List String → Result (Unit {0})
exact_keys value expected = check (has_exactly value expected) invalid_request

-- `isinstance(value, int)`, booleans left out
abbrev pub strict_int : Json → Option ℤ
strict_int (int z) = some z
strict_int other = none

unfoldable pub in_bounds : Option ℤ → ℕ → ℕ → Result ℕ
in_bounds none minimum maximum = err invalid_request
in_bounds (some (negsuc n)) minimum maximum = err invalid_request
in_bounds (some (pos n)) minimum maximum =
    if within minimum n maximum then ok n else err invalid_request

-- `bounded_int`
unfoldable pub bounded_int : Json → ℕ → ℕ → Result ℕ
unfolding in_bounds
bounded_int value minimum maximum = in_bounds (strict_int value) minimum maximum

-- `value in {…}` for a set of texts: a list or an object is not hashable, which raises a `TypeError`.
unfoldable pub member_of : Json → List String → Result Bool
member_of (arr items) expected = err unexpected
member_of (obj fields) expected = err unexpected
member_of (str s) expected = ok (contains expected s)
member_of null expected = ok false
member_of (bool b) expected = ok false
member_of (int z) expected = ok false
member_of (float t) expected = ok false

-- `dict(value)` of a dictionary
unfoldable pub as_fields : Json → Fault → Result Fields
as_fields (obj fields) fault = ok fields
as_fields null fault = err fault
as_fields (bool b) fault = err fault
as_fields (int z) fault = err fault
as_fields (float t) fault = err fault
as_fields (str s) fault = err fault
as_fields (arr items) fault = err fault

unfoldable pub as_text : Json → Fault → Result String
as_text (str s) fault = ok s
as_text null fault = err fault
as_text (bool b) fault = err fault
as_text (int z) fault = err fault
as_text (float t) fault = err fault
as_text (arr items) fault = err fault
as_text (obj fields) fault = err fault

-- A text that is one of a set, or a fault
unfoldable pub text_in : Fault → Json → List String → Result String
unfolding member_of as_text
text_in fault value allowed = elim (member_of value allowed) [
  | err other ↦ err other
  | ok false ↦ err fault
  | ok true ↦ as_text value fault
]
