-- ===== src/Sanitizer/Lines/Limits.antt =====
-- How many lines are passed on, and how long they are.
use somethingremotelygood.Base.{All-append}
use somethingremotelygood.Base.{
  ℕ, zero, suc, ◌+◌, ◌/◌, ◌%◌, ◌≤◌, ◌<◌, List, [], ◌∷◌, ◌++◌, Bytes, codes, length, take, map, All,
  length-append, length-take, length-map, ◌≡◌, inl, inr, refl, arith, dec_lt, lt→ltb, le→not-ltb,
  Bool-cases, if◌then◌else◌, min,
}
use somethingremotelygood.Sanitizer.Patterns.{is_injection}
use somethingremotelygood.Sanitizer.Lines.{
  max_lines, max_line_length, digits, decimal, filter_mark, filter_from, filter_injection_patterns,
  limit_length, sanitize_commands,
}

-- A number below a thousand has three digits at most.
pub digits_step :
    (fuel n : ℕ) → 10 ≤ n → digits (suc fuel) n ≡ digits fuel (n / 10) ++ ((b'0' + n % 10) ∷ [])
unfolding digits
digits_step fuel n h = rw (le→not-ltb n 10 h)

pub digits_last : (fuel n : ℕ) → n < 10 → digits (suc fuel) n ≡ (b'0' + n) ∷ []
unfolding digits
digits_last fuel n h = rw (lt→ltb n 10 h)

-- What holds of the ten digits holds of every character of the decimal text.
digits-All :
    (P : ℕ → Type 0) (fuel n : ℕ) → ((d : ℕ) → d < 10 → P (b'0' + d)) → All P (digits fuel n)
digits-All P zero n h = unfold digits in tt
digits-All P (suc fuel) n h = elim (dec_lt n 10) [
  | yes small ↦ rw (digits_last fuel n small) (h n small, tt)
  | no big ↦ rw (digits_step fuel n (omega arith)) (
      All-append P (digits fuel (n / 10)) ((b'0' + n % 10) ∷ []) (digits-All P fuel (n / 10) h)
        (h (n % 10) (omega arith), tt))
]

pub decimal-All : (P : ℕ → Type 0) (n : ℕ) → ((d : ℕ) → d < 10 → P (b'0' + d)) → All P (decimal n)
unfolding decimal
decimal-All P n h = digits-All P (suc n) n h

-- one more digit in front
length-digits_step :
    (fuel n k : ℕ)
    → 1 ≤ k
    → length (digits fuel (n / 10)) ≤ k
    → length (digits (suc fuel) n) ≤ suc k
length-digits_step fuel n k pos h = elim (dec_lt n 10) [
  | yes small ↦ rw (digits_last fuel n small) (omega arith)
  | no big ↦
      rw (digits_step fuel n (omega arith))
        (omega (arith, length-append {0} (digits fuel (n / 10)) ((b'0' + n % 10) ∷ [])))
]

length-digits_one : (fuel n : ℕ) → n < 10 → length (digits fuel n) ≤ 1
length-digits_one zero n h = unfold digits in omega arith
length-digits_one (suc fuel) n h = rw (digits_last fuel n h) (omega arith)

length-digits_two : (fuel n : ℕ) → n < 100 → length (digits fuel n) ≤ 2
length-digits_two zero n h = unfold digits in omega arith
length-digits_two (suc fuel) n h =
    length-digits_step fuel n 1 (omega arith) (length-digits_one fuel (n / 10) (omega arith))

pub length-decimal : (n : ℕ) → n < 1000 → length (decimal n) ≤ 3
unfolding decimal
length-decimal n h =
    length-digits_step n n 2 (omega arith) (length-digits_two n (n / 10) (omega arith))

length-filter_mark : (n : ℕ) → n < 1000 → length (filter_mark n) ≤ 20
unfolding filter_mark
length-filter_mark n h = omega (
  arith,
  length-append {0} (codes "[FILTERED: line " ++ decimal n) (codes "]"),
  length-append {0} (codes "[FILTERED: line ") (decimal n),
  length-decimal n h,
)

abbrev pub IsShort : Bytes → Type 0
IsShort line = length line ≤ max_line_length

take-IsShort : (lines : List Bytes) → All IsShort (map (take max_line_length) lines)
take-IsShort [] = tt
take-IsShort (line ∷ lines) =
    (omega (arith, length-take {0} max_line_length line), take-IsShort lines)

filter_from-IsShort :
    (i : ℕ) (lines : List Bytes)
    → i + length lines ≤ 500
    → All IsShort lines
    → All IsShort (filter_from i lines)
unfolding filter_from
filter_from-IsShort i [] few h = tt
filter_from-IsShort i (line ∷ lines) few h =
    (short_line i line (omega arith) h.0, filter_from-IsShort (i + 1) lines (omega arith) h.1)
  where
    short_line :
        (i : ℕ) (line : Bytes)
        → i < 500
        → IsShort line
        → IsShort (if is_injection line then filter_mark (i + 1) else line)
    short_line i line small s = elim (Bool-cases (is_injection line)) [
      | inl e ↦ rw e (omega (arith, length-filter_mark (i + 1) (omega arith)))
      | inr e ↦ rw e s
    ]

length-filter_from : (i : ℕ) (lines : List Bytes) → length (filter_from i lines) ≡ length lines
unfolding filter_from
length-filter_from i [] = refl
length-filter_from i (line ∷ lines) = omega (arith, length-filter_from (i + 1) lines)

-- At most 500 lines of at most 200 characters are passed on, and no line is added: there are as
-- many as the history has, or 500.
pub sanitize_limits :
    (raw_lines : List Bytes)
    → (length (sanitize_commands raw_lines).1 ≡ min max_lines (length raw_lines))
      × All IsShort (sanitize_commands raw_lines).1
unfolding sanitize_commands filter_injection_patterns limit_length
sanitize_limits raw_lines =
    let kept = map (take max_line_length) (take max_lines raw_lines) in
    let count : length kept ≡ min max_lines (length raw_lines) = omega (
      arith,
      length-map (take max_line_length) (take max_lines raw_lines),
      length-take {0} max_lines raw_lines,
    ) in
    (
      omega (arith, length-filter_from 0 kept),
      filter_from-IsShort 0 kept (omega arith) (take-IsShort (take max_lines raw_lines)),
    )
