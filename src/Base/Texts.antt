-- ===== src/Base/Texts.antt =====
-- Python's methods on texts that several parts use: `split`, `splitlines`, `strip`, `in`. A text is
-- the list of its code points.
use Prim.Native.Nat.{ℕ, zero, suc, ◌-◌}
use mathlib.Core.Logic.{◌≢◌}
use mathlib.Core.Bool.{Bool, true, false, ◌&&◌, ◌||◌}
use mathlib.Core.List.{List, [], ◌∷◌}
use somethingremotelygood.Base.Tests.{leb, ◌==◌, if◌then◌else◌}
use somethingremotelygood.Base.Lists.{length, All, Bytes}

abbrev pub newline : ℕ
newline = 10

-- A character in front of the first line.
abbrev pub push : ℕ → List Bytes → List Bytes
push c [] = (c ∷ []) ∷ []
push c (line ∷ lines) = (c ∷ line) ∷ lines

-- `s.split("\n")`
unfoldable pub split_lines : Bytes → List Bytes
split_lines [] = [] ∷ []
split_lines (c ∷ s) = if c == newline then [] ∷ split_lines s else push c (split_lines s)

abbrev pub IsLine : Bytes → Type 0
IsLine = All (λ c. c ≢ newline)

-- `str.isspace`
unfoldable pub is_space : ℕ → Bool
is_space c =
    (leb 9 c && leb c 13)
    || ((leb 28 c && leb c 32)
        || ((c == 0x85)
            || ((c == 0xa0)
                || ((c == 0x1680)
                    || ((leb 0x2000 c && leb c 0x200a)
                        || ((leb 0x2028 c && leb c 0x2029)
                            || ((c == 0x202f) || ((c == 0x205f) || (c == 0x3000)))))))))

-- `s.lstrip()`, with the test of the characters that go
unfoldable pub strip_left : (ℕ → Bool) → Bytes → Bytes
strip_left test [] = []
strip_left test (c ∷ s) = let rest = strip_left test s in if test c then rest else c ∷ s

abbrev keep : (ℕ → Bool) → ℕ → Bytes → Bytes
keep test c [] = if test c then [] else c ∷ []
keep test c (d ∷ s) = c ∷ d ∷ s

-- `s.rstrip()`
unfoldable pub strip_right : (ℕ → Bool) → Bytes → Bytes
strip_right test [] = []
strip_right test (c ∷ s) = keep test c (strip_right test s)

-- `s.strip()`
unfoldable pub strip : Bytes → Bytes
unfolding strip_left strip_right is_space
strip s = strip_left is_space (strip_right is_space s)

-- `s.startswith(part)`
abbrev pub starts : Bytes → Bytes → Bool
starts [] text = true
starts (c ∷ part) [] = false
starts (c ∷ part) (d ∷ text) = c == d && starts part text

-- `part in text`
unfoldable pub contains : Bytes → Bytes → Bool
contains part [] = starts part []
contains part (c ∷ text) = starts part (c ∷ text) || contains part text

-- `s.split(sep)`, with the characters of a separator that are still to be skipped
unfoldable pub split_from : Bytes → ℕ → Bytes → List Bytes
split_from sep k [] = [] ∷ []
split_from sep (suc k) (c ∷ s) = split_from sep k s
split_from sep zero (c ∷ s) = elim (starts sep (c ∷ s)) [
  | true ↦ [] ∷ split_from sep (length sep - 1) s
  | false ↦ push c (split_from sep zero s)
]

unfoldable pub split : Bytes → Bytes → List Bytes
unfolding split_from
split sep s = split_from sep zero s

abbrev is_break : ℕ → Bool
is_break c =
    (leb 10 c && leb c 13)
    || ((leb 28 c && leb c 30) || ((c == 0x85) || (leb 0x2028 c && leb c 0x2029)))

-- `s.splitlines()`; `true`: a carriage return was just seen
unfoldable pub splitlines_from : Bool → Bytes → List Bytes
splitlines_from cr [] = []
splitlines_from cr (c ∷ s) = elim (cr && c == newline) [
  | true ↦ splitlines_from false s
  | false ↦ elim (is_break c) [
    | true ↦ [] ∷ splitlines_from (c == 13) s
    | false ↦ push c (splitlines_from false s)
  ]
]

unfoldable pub splitlines : Bytes → List Bytes
unfolding splitlines_from
splitlines s = splitlines_from false s
