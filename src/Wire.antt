-- ===== src/Wire.antt =====
-- Python's `struct` with the format ">I", and `bytes(list)`, as the wrapper scripts use them:
-- big-endian 32-bit words in byte strings.
pub mod Laws
use somethingremotelygood.Base.{
  ℕ, ◌+◌, ◌*◌, ◌/◌, ◌%◌, ◌^◌, ◌<◌, Bool, true, false, List, [], ◌∷◌, Bytes, Result, ok, raised,
  struct_error, value_error, ltb, if◌then◌else◌, ◌&&◌,
}

-- The four bytes of a word, the highest first.
abbrev pub word : ℕ → Bytes
word n = (n / 2 ^ 24 % 256) ∷ (n / 2 ^ 16 % 256) ∷ (n / 2 ^ 8 % 256) ∷ (n % 256) ∷ []

-- `struct.pack(">I", n)`: a number that needs more than 32 bits is refused.
unfoldable pub pack : ℕ → Result Bytes
pack n = if ltb n (2 ^ 32) then ok (word n) else raised struct_error

-- `struct.unpack(">I", s)[0]`: the string must have four bytes.
unfoldable pub unpack : Bytes → Result ℕ
unpack (a ∷ b ∷ c ∷ d ∷ []) = ok (a * 2 ^ 24 + b * 2 ^ 16 + c * 2 ^ 8 + d)
unpack _ = raised struct_error

abbrev pub all_bytes : List ℕ → Bool
all_bytes [] = true
all_bytes (x ∷ xs) = ltb x 256 && all_bytes xs

-- `bytes(xs)`: every number must be below 256.
unfoldable pub to_bytes : List ℕ → Result Bytes
to_bytes xs = if all_bytes xs then ok xs else raised value_error

abbrev pub IsByte : ℕ → Type 0
IsByte b = b < 256
