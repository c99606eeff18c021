-- ===== src/Sanitizer/Prompt/Contained.antt =====
-- The history stays inside its block of the prompt.
use somethingremotelygood.Base.{
  ℕ, zero, suc, ◌+◌, List, [], ◌∷◌, ◌++◌, Bytes, codes, take, map, All, All-append, ◌==◌, ◌≡◌, ◌≢◌,
  inl, inr, refl, ap, ◌∙◌, arith, Bool-cases, if◌then◌else◌,
}
use somethingremotelygood.Base.Texts.{newline, split_lines, push, IsLine}
use somethingremotelygood.Sanitizer.Patterns.{is_injection}
use somethingremotelygood.Sanitizer.Lines.{
  decimal, filter_mark, filter_from, filter_injection_patterns, limit_length,
  format_numbered_commands, number_from, numbered_line, sanitize_commands, max_lines,
  max_line_length,
}
use somethingremotelygood.Sanitizer.Lines.Blocks.{decimal-IsLine, split-format}
use somethingremotelygood.Sanitizer.Prompt.{
  prompt_before, prompt_after, end_line, build_analysis_prompt,
}

push-append :
    (c : ℕ) (s : Bytes) (ls : List Bytes)
    → (l : Bytes) × (rest : List Bytes) × (split_lines s ≡ l ∷ rest)
    → push c (split_lines s ++ ls) ≡ push c (split_lines s) ++ ls
push-append c s ls h = let (l, rest, e) = h in rw e refl

split_lines_some : (s : Bytes) → (l : Bytes) × (rest : List Bytes) × (split_lines s ≡ l ∷ rest)
unfolding split_lines
split_lines_some [] = ([], [], refl)
split_lines_some (c ∷ s) = elim (Bool-cases (c == newline)) [
  | inl e ↦ ([], split_lines s, rw (e, split_lines) refl)
  | inr e ↦ let (l, rest, q) = split_lines_some s in (c ∷ l, rest, rw (e, split_lines) (rw q refl))
]

-- A newline cuts a text in two.
split-newline : (a b : Bytes) → split_lines (a ++ (newline ∷ b)) ≡ split_lines a ++ split_lines b
unfolding split_lines
split-newline [] b = refl
split-newline (c ∷ a) b = elim (Bool-cases (c == newline)) [
  | inl e ↦ rw (e, split_lines) (ap (λ (ls : List Bytes). [] ∷ ls) (split-newline a b))
  | inr e ↦
      rw (e, split_lines)
        (ap (push c) (split-newline a b) ∙ push-append c a (split_lines b) (split_lines_some a))
]

take-IsLine : (n : ℕ) (line : Bytes) → IsLine line → IsLine (take n line)
take-IsLine zero line h = tt
take-IsLine (suc n) [] h = tt
take-IsLine (suc n) (c ∷ line) h = (h.0, take-IsLine n line h.1)

take-lines : (n : ℕ) (lines : List Bytes) → All IsLine lines → All IsLine (take n lines)
take-lines zero lines h = tt
take-lines (suc n) [] h = tt
take-lines (suc n) (line ∷ lines) h = (h.0, take-lines n lines h.1)

limit-IsLine : (n : ℕ) (lines : List Bytes) → All IsLine lines → All IsLine (map (take n) lines)
limit-IsLine n [] h = tt
limit-IsLine n (line ∷ lines) h = (take-IsLine n line h.0, limit-IsLine n lines h.1)

filter_mark-IsLine : (n : ℕ) → IsLine (filter_mark n)
unfolding filter_mark
filter_mark-IsLine n =
    All-append (λ (c : ℕ). c ≢ newline) (codes "[FILTERED: line " ++ decimal n) (codes "]")
      (All-append (λ (c : ℕ). c ≢ newline) (codes "[FILTERED: line ") (decimal n) (omega arith)
        (decimal-IsLine n))
      (omega arith)

filter_from-IsLine :
    (i : ℕ) (lines : List Bytes) → All IsLine lines → All IsLine (filter_from i lines)
unfolding filter_from
filter_from-IsLine i [] h = tt
filter_from-IsLine i (line ∷ lines) h = (marked, filter_from-IsLine (i + 1) lines h.1)
  where
    marked : IsLine (if is_injection line then filter_mark (i + 1) else line)
    marked = elim (Bool-cases (is_injection line)) [
      | inl e ↦ rw e (filter_mark-IsLine (i + 1))
      | inr e ↦ rw e h.0
    ]

abbrev first : Bytes → ℕ
first [] = 0
first (c ∷ s) = c

numbered_line-ne-end : (i : ℕ) (line : Bytes) → numbered_line i line ≢ end_line
unfolding numbered_line
numbered_line-ne-end i line e = omega (arith, ap first e)

-- A numbered line begins with a space, the end of the block does not.
number_from-ne-end : (i : ℕ) (lines : List Bytes) → All (λ l. l ≢ end_line) (number_from i lines)
unfolding number_from
number_from-ne-end i [] = tt
number_from-ne-end i (line ∷ lines) =
    (numbered_line-ne-end i line, number_from-ne-end (i + 1) lines)

filtered-IsLine :
    (raw_lines : List Bytes) → All IsLine raw_lines → All IsLine (sanitize_commands raw_lines).1
unfolding sanitize_commands filter_injection_patterns limit_length
filtered-IsLine raw_lines h =
    filter_from-IsLine 0 (map (take max_line_length) (take max_lines raw_lines))
      (limit-IsLine max_line_length (take max_lines raw_lines) (take-lines max_lines raw_lines h))

filtered_some : (raw_lines : List Bytes) → raw_lines ≢ [] → (sanitize_commands raw_lines).1 ≢ []
unfolding sanitize_commands filter_injection_patterns limit_length filter_from
filtered_some [] ne e = ne refl
filtered_some (line ∷ lines) ne e = cc

-- The lines of the prompt for a history of one or more newline-free commands are those before the
-- history, the sanitized commands with their numbers, and those after it; no numbered command is
-- the line that ends the history.
pub sanitized-prompt :
    (raw_lines : List Bytes) (user_id anomaly_summary : Bytes)
    → raw_lines ≢ []
    → All IsLine raw_lines
    → let (formatted, filtered) = sanitize_commands raw_lines in
      (split_lines (build_analysis_prompt formatted user_id anomaly_summary)
        ≡ split_lines (prompt_before user_id anomaly_summary)
          ++ (number_from 1 filtered ++ split_lines prompt_after))
      × All (λ l. l ≢ end_line) (number_from 1 filtered)
unfolding build_analysis_prompt sanitize_commands
sanitized-prompt raw_lines user_id anomaly_summary ne h =
    let filtered = (sanitize_commands raw_lines).1 in
    let before = prompt_before user_id anomaly_summary in
    (
      split-newline before (format_numbered_commands filtered ++ (newline ∷ prompt_after))
          ∙ ap (λ (ls : List Bytes). split_lines before ++ ls)
              (split-newline (format_numbered_commands filtered) prompt_after
                ∙ ap (λ (ls : List Bytes). ls ++ split_lines prompt_after)
                    (split-format filtered (filtered_some raw_lines ne)
                      (filtered-IsLine raw_lines h))),
      number_from-ne-end 1 filtered,
    )
