-- ===== src/Sanitizer/Lines/Blocks.antt =====
-- The numbered history as a block of text: its lines are those of the commands.
use somethingremotelygood.Base.{
  ℕ, zero, suc, ◌+◌, ◌-◌, List, [], ◌∷◌, ◌++◌, Bytes, length, All, All-append, ◌≡◌, ◌≢◌, refl, ap,
  ◌∙◌, arith,
}
use somethingremotelygood.Base.Texts.{newline, split_lines, IsLine}
use somethingremotelygood.Sanitizer.Lines.{
  decimal, pad, numbered_line, number_from, join_lines, format_numbered_commands,
}
use somethingremotelygood.Sanitizer.Lines.Limits.{decimal-All}

split-line : (line : Bytes) → IsLine line → split_lines line ≡ line ∷ []
unfolding split_lines
split-line [] h = refl
split-line (c ∷ line) h = ground (arith, split-line line h.1)

split-line_more :
    (line rest : Bytes)
    → IsLine line
    → split_lines (line ++ (newline ∷ rest)) ≡ line ∷ split_lines rest
unfolding split_lines
split-line_more [] rest h = refl
split-line_more (c ∷ line) rest h = ground (arith, split-line_more line rest h.1)

-- Joining lines and cutting the text again gives the lines back.
split-join :
    (lines : List Bytes) → lines ≢ [] → All IsLine lines → split_lines (join_lines lines) ≡ lines
unfolding join_lines
split-join [] ne h = absurd (ne refl)
split-join (line ∷ []) ne h = split-line line h.0
split-join (line ∷ next ∷ lines) ne h =
    split-line_more line (join_lines (next ∷ lines)) h.0
    ∙ ap (λ (ls : List Bytes). line ∷ ls) (split-join (next ∷ lines) (λ e. cc) h.1)

pub decimal-IsLine : (n : ℕ) → IsLine (decimal n)
decimal-IsLine n = decimal-All (λ c. c ≢ newline) n (λ d h. omega arith)

pad-IsLine : (n : ℕ) (s : Bytes) → IsLine s → IsLine (pad n s)
pad-IsLine zero s h = h
pad-IsLine (suc n) s h = (omega arith, pad-IsLine n s h)

numbered-IsLine : (i : ℕ) (line : Bytes) → IsLine line → IsLine (numbered_line i line)
unfolding numbered_line
numbered-IsLine i line h =
    let n = pad (4 - length (decimal i)) (decimal i) in
    (
      omega arith,
      (
        omega arith,
        All-append (λ (c : ℕ). c ≢ newline) n _
            (pad-IsLine (4 - length (decimal i)) (decimal i) (decimal-IsLine i))
            (omega arith, (omega arith, h)),
      ),
    )

number_from-IsLine :
    (i : ℕ) (lines : List Bytes) → All IsLine lines → All IsLine (number_from i lines)
unfolding number_from
number_from-IsLine i [] h = tt
number_from-IsLine i (line ∷ lines) h =
    (numbered-IsLine i line h.0, number_from-IsLine (i + 1) lines h.1)

-- The text of the commands has a line for each command, with its number from 1 on in front: no
-- command can add a line of its own or end the block.
pub split-format :
    (lines : List Bytes)
    → lines ≢ []
    → All IsLine lines
    → split_lines (format_numbered_commands lines) ≡ number_from 1 lines
unfolding format_numbered_commands
split-format [] ne h = absurd (ne refl)
split-format (line ∷ lines) ne h =
    split-join (number_from 1 (line ∷ lines)) (unfold number_from in λ e. cc)
      (number_from-IsLine 1 (line ∷ lines) h)
