-- ===== src/Sanitizer/Lines.antt =====
-- Limits, filter and numbering of the lines (`filter_injection_patterns` to
-- `format_numbered_commands`, `sanitize_commands`).
pub mod Filter
pub mod Limits
pub mod Blocks
use somethingremotelygood.Base.{
  ℕ, zero, suc, ◌+◌, ◌-◌, ◌/◌, ◌%◌, List, [], ◌∷◌, ◌++◌, Bytes, codes, length, take, map, ltb,
  if◌then◌else◌,
}
use somethingremotelygood.Base.Texts.{newline}
use somethingremotelygood.Sanitizer.Patterns.{is_injection}

abbrev pub max_lines : ℕ
max_lines = 500

abbrev pub max_line_length : ℕ
max_line_length = 200

-- The decimal digits of a number; `n + 1` rounds are more than enough.
unfoldable pub digits : ℕ → ℕ → Bytes
digits zero n = []
digits (suc fuel) n =
    let front = digits fuel (n / 10) in
    if ltb n 10 then (b'0' + n) ∷ [] else front ++ ((b'0' + n % 10) ∷ [])

unfoldable pub decimal : ℕ → Bytes
unfolding digits
decimal n = digits (suc n) n

-- f"[FILTERED: line {n}]"
unfoldable pub filter_mark : ℕ → Bytes
unfolding decimal
filter_mark n = codes "[FILTERED: line " ++ decimal n ++ codes "]"

-- the loop of `filter_injection_patterns`, at index `i`
unfoldable pub filter_from : ℕ → List Bytes → List Bytes
unfolding filter_mark is_injection
filter_from i [] = []
filter_from i (line ∷ lines) =
    (if is_injection line then filter_mark (i + 1) else line) ∷ filter_from (i + 1) lines

unfoldable pub filter_injection_patterns : List Bytes → List Bytes
unfolding filter_from
filter_injection_patterns lines = filter_from 0 lines

unfoldable pub limit_length : List Bytes → List Bytes
limit_length lines = map (take max_line_length) (take max_lines lines)

-- `{i:>4}`: spaces in front, up to four places
abbrev pub pad : ℕ → Bytes → Bytes
pad zero s = s
pad (suc n) s = b' ' ∷ pad n s

unfoldable pub numbered_line : ℕ → Bytes → Bytes
unfolding decimal
numbered_line i line =
    codes "  " ++ (pad (4 - length (decimal i)) (decimal i) ++ (codes "| " ++ line))

unfoldable pub number_from : ℕ → List Bytes → List Bytes
unfolding numbered_line
number_from i [] = []
number_from i (line ∷ lines) = numbered_line i line ∷ number_from (i + 1) lines

-- "\n".join(lines)
unfoldable pub join_lines : List Bytes → Bytes
join_lines [] = []
join_lines (line ∷ []) = line
join_lines (line ∷ next ∷ lines) = line ++ (newline ∷ join_lines (next ∷ lines))

unfoldable pub format_numbered_commands : List Bytes → Bytes
unfolding number_from join_lines
format_numbered_commands lines = join_lines (number_from 1 lines)

unfoldable pub sanitize_commands : List Bytes → Bytes × List Bytes
unfolding format_numbered_commands filter_injection_patterns limit_length
sanitize_commands raw_lines =
    let lines = filter_injection_patterns (limit_length raw_lines) in
    (format_numbered_commands lines, lines)
