-- ===== src/Sanitizer/Response.antt =====
-- The answer of the language model (`validate_llm_response`). `json.loads` is a parameter: `none`
-- is its JSONDecodeError.
pub mod Schema
use somethingremotelygood.Base.{
  ℕ, Bool, true, false, ◌&&◌, ◌||◌, not, Option, none, some, [], ◌∷◌, Bytes, codes, eqb, ◌==◌,
  Result, ok, raised, attribute_error, type_error, key_error, if◌then◌else◌,
}
use somethingremotelygood.Base.Results.{◌>>=◌}
use somethingremotelygood.Json.{
  Json, null, boolean, number, string, array, object, Fields, get, has_key,
}

abbrev pub risk_level : Bytes
risk_level = codes "risk_level"

abbrev pub findings : Bytes
findings = codes "findings"

abbrev pub open_brace : ℕ
open_brace = b'{'

abbrev pub close_brace : ℕ
close_brace = b'}'

-- The text up to its last closing brace.
abbrev pub extend : ℕ → Option Bytes → Option Bytes
extend c none = if c == close_brace then some (c ∷ []) else none
extend c (some t) = some (c ∷ t)

unfoldable pub up_to_close : Bytes → Option Bytes
up_to_close [] = none
up_to_close (c ∷ s) = extend c (up_to_close s)

-- `re.search(r'\{[\s\S]*\}', text)`: from the first opening brace to the last closing one
unfoldable pub find_braces : Bytes → Option Bytes
unfolding up_to_close
find_braces [] = none
find_braces (c ∷ s) =
    let rest = find_braces s in if c == open_brace then up_to_close (c ∷ s) else rest

-- `data["risk_level"] not in valid_risk`; a list or an object cannot be looked up in a set
unfoldable pub is_valid_risk : Json → Result Bool
is_valid_risk (string s) =
    ok (eqb s (codes "benign") || (eqb s (codes "suspicious") || eqb s (codes "malicious")))
is_valid_risk (array items) = raised type_error
is_valid_risk (object fields) = raised type_error
is_valid_risk _ = ok false

-- `isinstance(data["findings"], list)`
abbrev pub is_list : Json → Bool
is_list (array items) = true
is_list _ = false

-- `required_keys.issubset(data.keys())`
unfoldable pub has_required : Fields → Bool
unfolding has_key
has_required fields =
    has_key risk_level fields
    && (has_key (codes "summary") fields
        && (has_key findings fields && has_key (codes "recommendation") fields))

abbrev pub subscript : Option Json → Result Json
subscript none = raised key_error
subscript (some v) = ok v

-- the checks of an object that has the keys
unfoldable pub check_values : Fields → Result (Option Json)
unfolding is_valid_risk get
check_values fields = do
  risk ← subscript (get risk_level fields)
  valid ← is_valid_risk risk
  if not valid then ok none else (do
    value ← subscript (get findings fields)
    ok (if is_list value then some (object fields) else none))

unfoldable pub check_fields : Fields → Result (Option Json)
unfolding has_required check_values
check_fields fields = if not (has_required fields) then ok none else check_values fields

-- What `json.loads` read; `data.keys()` needs an object.
unfoldable pub check_response : Json → Result (Option Json)
unfolding check_fields
check_response (object fields) = check_fields fields
check_response _ = raised attribute_error

module _ (loads : Bytes → Option Json) where
  unfoldable pub validate_llm_response : Bytes → Result (Option Json)
  unfolding check_response find_braces
  validate_llm_response response_text = elim (loads response_text) [
    | some j ↦ check_response j
    | none ↦ elim (find_braces response_text) [
      | none ↦ ok none
      | some part ↦ elim (loads part) [ none ↦ ok none | some j ↦ check_response j ]
    ]
  ]
