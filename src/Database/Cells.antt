-- ===== src/Database/Cells.antt =====
-- The fields of a row that sqlcipher prints, as Python values (`execute`): an integer, a float, or
-- the text itself.
pub mod Numbers
use somethingremotelygood.Base.{
  ℕ, zero, suc, ◌+◌, ◌-◌, ◌*◌, Bool, true, false, ◌&&◌, ◌||◌, Option, none, some, List, [], ◌∷◌,
  ◌++◌, Bytes, codes, leb, ltb, ◌==◌, map, if◌then◌else◌,
}
use somethingremotelygood.Base.Texts.{strip, strip_right, newline, split_lines, split}
use somethingremotelygood.Sanitizer.Regex.{
  Regex, empty, char, seq, alt, star, optional, nullable, derive,
}

-- A float is held as its text.
pub data Cell : Type 0 where
  positive : ℕ → Cell
  negative : ℕ → Cell
  real : Bytes → Cell
  text : Bytes → Cell

abbrev pub is_digit : ℕ → Bool
is_digit c = leb b'0' c && leb c b'9'

abbrev underscore : ℕ
underscore = 95

-- The digits of `int(val)`, with single underscores between them; `true`: the last was a digit.
unfoldable pub read_digits : ℕ → Bool → Bytes → Option ℕ
read_digits n seen [] = if seen then some n else none
read_digits n seen (c ∷ s) =
    let digit = read_digits (n * 10 + (c - b'0')) true s in
    let rest = read_digits n false s in
    if is_digit c then digit else if c == underscore && seen then rest else none

abbrev minus : ℕ → Cell
minus zero = Cell.positive zero
minus (suc n) = Cell.negative (suc n)

abbrev pub signed : (ℕ → Cell) → Option ℕ → Option Cell
signed f none = none
signed f (some n) = some (f n)

abbrev pub from_sign : Bytes → Option Cell
from_sign [] = none
from_sign (c ∷ s) =
    if c == b'-'
    then signed minus (read_digits 0 false s)
    else if c == b'+'
    then signed positive (read_digits 0 false s)
    else signed positive (read_digits 0 false (c ∷ s))

abbrev pub digits_in : Bytes → ℕ
digits_in [] = 0
digits_in (c ∷ s) = (if is_digit c then 1 else 0) + digits_in s

-- `sys.int_info.default_max_str_digits`
abbrev pub max_digits : ℕ
max_digits = 4300

-- `int(val)`; `none` is its ValueError, which is also raised for more than 4300 digits
unfoldable pub int_of : Bytes → Option Cell
unfolding read_digits strip
int_of val = if ltb max_digits (digits_in (strip val)) then none else from_sign (strip val)

abbrev one : ℕ → Regex
one c = char (λ d. d == c)

-- a letter in either case
abbrev letters : Bytes → Regex
letters [] = empty
letters (c ∷ s) = seq (char (λ d. d == c || d + 32 == c)) (letters s)

abbrev digit_run : Regex
digit_run = seq (char is_digit) (star (alt (char is_digit) (seq (one underscore) (char is_digit))))

abbrev sign : Regex
unfolding optional
sign = optional (alt (one b'+') (one b'-'))

abbrev exponent : Regex
unfolding optional
exponent = optional (seq (alt (one b'e') (one b'E')) (seq sign digit_run))

-- The texts that `float` reads, without the white space around them.
unfoldable pub float_syntax : Regex
unfolding optional
float_syntax = seq sign (
    alt
      (alt (seq digit_run (seq (optional (seq (one b'.') (optional digit_run))) exponent))
        (seq (one b'.') (seq digit_run exponent)))
      (alt (letters (codes "inf")) (alt (letters (codes "infinity")) (letters (codes "nan")))))

-- Does the whole text match?
unfoldable pub match_whole : Regex → Bytes → Bool
unfolding derive nullable
match_whole r [] = nullable r
match_whole r (c ∷ s) = match_whole (derive c r) s

unfoldable pub convert : Bytes → Cell
unfolding int_of float_syntax match_whole strip
convert val = elim (int_of val) [
  | some n ↦ n
  | none ↦ if match_whole float_syntax (strip val) then real val else text val
]

-- `_SEP`
abbrev pub separator : Bytes
separator = codes "||<SEP>||"

-- the loop over the lines: an empty line is skipped
unfoldable pub rows_of : List Bytes → List (List Cell)
unfolding convert split
rows_of [] = []
rows_of ([] ∷ lines) = rows_of lines
rows_of ((c ∷ s) ∷ lines) = map convert (split separator (c ∷ s)) ∷ rows_of lines

-- what `execute` makes of the output
unfoldable pub read_rows : Bytes → List (List Cell)
unfolding rows_of strip strip_right split_lines
read_rows output = elim (strip output) [
  | [] ↦ []
  | c ∷ s ↦ rows_of (split_lines (strip_right (λ d. d == newline) output))
]
