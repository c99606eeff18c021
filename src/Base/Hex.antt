-- ===== src/Base/Hex.antt =====
-- Bytes in hex (`bytes.fromhex`).
use Prim.Native.Nat.{ℕ, ◌+◌, ◌-◌, ◌*◌}
use mathlib.Core.Bool.{Bool, ◌&&◌, ◌||◌}
use mathlib.Core.Option.{Option, none, some}
use mathlib.Core.List.{[], ◌∷◌}
use somethingremotelygood.Base.Tests.{leb, ◌==◌, if◌then◌else◌}
use somethingremotelygood.Base.Lists.{Bytes}
use somethingremotelygood.Base.Results.{Result, ok, raised, value_error}

-- `bytes.fromhex`: pairs of hex digits, with white space between the pairs
abbrev hex_digit : ℕ → Option ℕ
hex_digit c =
    if leb b'0' c && leb c b'9'
    then some (c - b'0')
    else if leb b'a' c && leb c b'f'
    then some (c - b'a' + 10)
    else if leb b'A' c && leb c b'F'
    then some (c - b'A' + 10)
    else none

abbrev is_blank : ℕ → Bool
is_blank c = c == 32 || (leb 9 c && leb c 13)

abbrev hex_byte : Option ℕ → Option ℕ → Result Bytes → Result Bytes
hex_byte (some a) (some b) (ok rest) = ok ((a * 16 + b) ∷ rest)
hex_byte (some a) (some b) r = r
hex_byte _ _ r = raised value_error

unfoldable pub fromhex : Bytes → Result Bytes
fromhex [] = ok []
fromhex (a ∷ []) = if is_blank a then ok [] else raised value_error
fromhex (a ∷ b ∷ rest) =
    let skipped = fromhex (b ∷ rest) in
    let paired = hex_byte (hex_digit a) (hex_digit b) (fromhex rest) in
    if is_blank a then skipped else paired
