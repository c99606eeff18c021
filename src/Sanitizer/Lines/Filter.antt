-- ===== src/Sanitizer/Lines/Filter.antt =====
-- Which lines are replaced.
use somethingremotelygood.Base.{
  ℕ, ◌+◌, true, List, [], ◌∷◌, Bytes, ◌≡◌, ◌↔◌, ◌⊎◌, inl, inr, arith, Bool-cases, if◌then◌else◌,
}
use somethingremotelygood.Sanitizer.Regex.{Regex, search_in}
use somethingremotelygood.Sanitizer.Regex.Matches.{Occurs, search_in_iff}
use somethingremotelygood.Sanitizer.Patterns.{injection_patterns, some_match, is_injection}
use somethingremotelygood.Sanitizer.Lines.{filter_mark, filter_from, filter_injection_patterns}

-- One of the patterns occurs in the line.
abbrev pub SomeOccurs : List Regex → Bytes → Type 0
SomeOccurs [] line = ⊥
SomeOccurs (r ∷ rs) line = Occurs r line ⊎ SomeOccurs rs line

some_match_iff : (rs : List Regex) (line : Bytes) → (some_match rs line ≡ true) ↔ SomeOccurs rs line
unfolding some_match
some_match_iff [] line = (λ h. cc, λ h. absurd h)
some_match_iff (r ∷ rs) line = (
  λ h. elim (Bool-cases (search_in r line)) [
    | inl e ↦ inl ((search_in_iff r line).0 e)
    | inr e ↦ inr ((some_match_iff rs line).0 (rw e at h))
  ],
  λ s. elim s [
    | inl o ↦ rw ((search_in_iff r line).1 o)
    | inr o ↦ ground (arith, (some_match_iff rs line).1 o)
  ],
)

-- The result, line by line: from index `i` on, a line in which a pattern occurs is replaced by the
-- mark with its number, and every other line is kept.
abbrev pub Filtered : ℕ → List Bytes → List Bytes → Type 0
Filtered i [] [] = Unit
Filtered i [] (out ∷ outs) = ⊥
Filtered i (line ∷ lines) [] = ⊥
Filtered i (line ∷ lines) (out ∷ outs) =
    ((SomeOccurs injection_patterns line × (out ≡ filter_mark (i + 1)))
      ⊎ (¬ (SomeOccurs injection_patterns line) × (out ≡ line)))
    × Filtered (i + 1) lines outs

filter_line :
    (i : ℕ) (line : Bytes)
    → let out = if is_injection line then filter_mark (i + 1) else line in
      (SomeOccurs injection_patterns line × (out ≡ filter_mark (i + 1)))
      ⊎ (¬ (SomeOccurs injection_patterns line) × (out ≡ line))
unfolding is_injection
filter_line i line = elim (Bool-cases (some_match injection_patterns line)) [
  | inl e ↦ inl ((some_match_iff injection_patterns line).0 e, rw e)
  | inr e ↦ inr (λ o. cc ((some_match_iff injection_patterns line).1 o), rw e)
]

filter_from-Filtered : (i : ℕ) (lines : List Bytes) → Filtered i lines (filter_from i lines)
unfolding filter_from
filter_from-Filtered i [] = tt
filter_from-Filtered i (line ∷ lines) = (filter_line i line, filter_from-Filtered (i + 1) lines)

-- The filter replaces exactly the lines in which a pattern occurs, each by the mark with its number
-- from 1 on, and keeps all others as they are.
pub filter-Filtered : (lines : List Bytes) → Filtered 0 lines (filter_injection_patterns lines)
unfolding filter_injection_patterns
filter-Filtered lines = filter_from-Filtered 0 lines
