-- ===== src/Json.antt =====
-- The values that Python's `json` reads: objects, lists and scalars.
use somethingremotelygood.Base.{Bool, true, false, Option, none, some, Bytes, eqb, if◌then◌else◌}

-- A number is held as its text.
mutual
  pub data Json : Type 0 where
    null : Json
    boolean : Bool → Json
    number : Bytes → Json
    string : Bytes → Json
    array : Items → Json
    object : Fields → Json

  pub data Items : Type 0 where
    nil : Items
    cons : Json → Items → Items

  pub data Fields : Type 0 where
    end : Fields
    field : Bytes → Json → Fields → Fields

-- `data[key]`, and `none` for a key that is not there; each key is there once.
unfoldable pub get : Bytes → Fields → Option Json
get key end = none
get key (field k v rest) = let later = get key rest in if eqb k key then some v else later

-- `key in data.keys()`
unfoldable pub has_key : Bytes → Fields → Bool
has_key key end = false
has_key key (field k v rest) = let later = has_key key rest in if eqb k key then true else later
