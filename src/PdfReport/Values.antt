-- ===== src/PdfReport/Values.antt =====
-- Python's operations on what `json.load` gave: `get`, truth, iteration, slices and `str`.
use somethingremotelygood.Base.{
  ℕ, zero, suc, Bool, true, false, not, Option, none, some, [], ◌∷◌, Bytes, length, take, Result,
  ok, raised, attribute_error, type_error, key_error,
}
use somethingremotelygood.Json.{
  Json, null, boolean, number, string, array, object, Items, nil, cons, Fields, end, field, get,
}

-- What the script uses of Python: `str` of a value that is no text, whether the text of a number
-- stands for zero, `str.upper` and `str.lower`.
pub record Python : Type 0 where
  pub str_other : Json → Bytes
  pub is_zero : Bytes → Bool
  pub upper : Bytes → Bytes
  pub lower : Bytes → Bytes

abbrev pub or_default : Json → Option Json → Json
or_default default none = default
or_default default (some v) = v

-- `d.get(key, default)`
unfoldable pub get_or : Bytes → Json → Json → Result Json
unfolding get
get_or key default (object fields) = ok (or_default default (get key fields))
get_or key default _ = raised attribute_error

-- `str(v)`
abbrev pub str : Python → Json → Bytes
str python (string s) = s
str python v = python.str_other v

abbrev pub chars : Bytes → Items
chars [] = nil
chars (c ∷ s) = cons (string (c ∷ [])) (chars s)

abbrev pub keys : Fields → Items
keys end = nil
keys (field k v fields) = cons (string k) (keys fields)

-- `for x in v`
abbrev pub items_of : Json → Result Items
items_of (array items) = ok items
items_of (string s) = ok (chars s)
items_of (object fields) = ok (keys fields)
items_of _ = raised type_error

-- `if v:`
abbrev pub truthy : Python → Json → Bool
truthy python null = false
truthy python (boolean b) = b
truthy python (number s) = not (python.is_zero s)
truthy python (string []) = false
truthy python (string (c ∷ s)) = true
truthy python (array nil) = false
truthy python (array (cons v items)) = true
truthy python (object end) = false
truthy python (object (field k v fields)) = true

abbrev pub take_items : ℕ → Items → Items
take_items zero items = nil
take_items (suc n) nil = nil
take_items (suc n) (cons v items) = cons v (take_items n items)

abbrev pub count_items : Items → ℕ
count_items nil = 0
count_items (cons v items) = suc (count_items items)

-- `v[:n]` of a list or a text; a dict looks for the slice as a key
abbrev pub first_of : ℕ → Json → Result Items
first_of n (array items) = ok (take_items n items)
first_of n (string s) = ok (chars (take n s))
first_of n (object fields) = raised key_error
first_of n _ = raised type_error

-- `len(v)` of a value that has a slice
abbrev pub size_of : Json → ℕ
size_of (array items) = count_items items
size_of (string s) = length s
size_of _ = 0
