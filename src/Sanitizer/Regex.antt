-- ===== src/Sanitizer/Regex.antt =====
-- The regular expressions of Python's `re` as far as the patterns use them, on code points, with
-- IGNORECASE: literals, classes, `*`, `+`, `?`, alternatives, and `search`.
pub mod Matches
use somethingremotelygood.Base.Texts.{is_space}
use somethingremotelygood.Base.{
  ℕ, ◌+◌, Bool, true, false, ◌&&◌, ◌||◌, List, [], ◌∷◌, Bytes, leb, ◌==◌, if◌then◌else◌,
}

-- `char` holds the test of one code point.
pub data Regex : Type 0 where
  nothing : Regex
  empty : Regex
  char : (ℕ → Bool) → Regex
  seq : Regex → Regex → Regex
  alt : Regex → Regex → Regex
  star : Regex → Regex

-- Does the expression match the empty text?
unfoldable pub nullable : Regex → Bool
nullable nothing = false
nullable empty = true
nullable (char t) = false
nullable (seq r q) = nullable r && nullable q
nullable (alt r q) = nullable r || nullable q
nullable (star r) = true

-- What must match behind the code point `c`.
unfoldable pub derive : ℕ → Regex → Regex
unfolding nullable
derive c nothing = nothing
derive c empty = nothing
derive c (char t) = if t c then empty else nothing
derive c (seq r q) =
    let front = seq (derive c r) q in
    let back = derive c q in if nullable r then alt front back else front
derive c (alt r q) = alt (derive c r) (derive c q)
derive c (star r) = seq (derive c r) (star r)

-- Does a prefix of the text match?
unfoldable pub match_prefix : Regex → Bytes → Bool
unfolding derive
match_prefix r [] = nullable r
match_prefix r (c ∷ s) = nullable r || match_prefix (derive c r) s

-- `pattern.search(line)`: does some part of the text match?
unfoldable pub search_in : Regex → Bytes → Bool
unfolding match_prefix
search_in r [] = match_prefix r []
search_in r (c ∷ s) = match_prefix r (c ∷ s) || search_in r s

-- The lower case letter that IGNORECASE compares: the ASCII letters, and the four other letters
-- that fold to one.
unfoldable pub fold_case : ℕ → ℕ
fold_case c =
    if leb 65 c && leb c 90
    then c + 32
    else if c == 0x130 || c == 0x131
    then b'i'
    else if c == 0x17f
    then b's'
    else if c == 0x212a
    then b'k'
    else c

-- A literal text, in lower case in the pattern.
unfoldable pub literal : Bytes → Regex
unfolding fold_case
literal [] = empty
literal (l ∷ s) = seq (char (λ c. fold_case c == l)) (literal s)

-- `\s`, `r*`, `r+`, `r?`
unfoldable pub space : Regex
unfolding is_space
space = char is_space

unfoldable pub plus : Regex → Regex
plus r = seq r (star r)

unfoldable pub optional : Regex → Regex
optional r = alt r empty
