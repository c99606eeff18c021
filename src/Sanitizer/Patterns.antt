-- ===== src/Sanitizer/Patterns.antt =====
-- INJECTION_PATTERNS
use somethingremotelygood.Base.{Bool, false, ◌||◌, List, [], ◌∷◌, Bytes, codes, String}
use somethingremotelygood.Sanitizer.Regex.{
  Regex, seq, alt, star, literal, space, plus, optional, search_in,
}

-- the pieces of a pattern, one behind the other
abbrev row : List Regex → Regex
row [] = Regex.empty
row (r ∷ rs) = seq r (row rs)

abbrev word : String → Regex
word s = literal (codes s)

-- `\s+` and `\s*`
abbrev gap : Regex
gap = plus space

abbrev maybe_gap : Regex
maybe_gap = star space

-- `(s\s+)?`
abbrev maybe_word : String → Regex
maybe_word s = optional (seq (word s) gap)

unfoldable pub injection_patterns : List Regex
unfolding literal space plus optional
injection_patterns =
    row (word "ignore" ∷ gap ∷ maybe_word "all" ∷ word "previous" ∷ gap ∷ word "instructions" ∷ [])
    ∷ row (word "ignore" ∷ gap ∷ maybe_word "all" ∷ word "above" ∷ [])
    ∷ row (word "disregard" ∷ gap ∷ maybe_word "all" ∷ word "previous" ∷ [])
    ∷ row (word "you" ∷ gap ∷ word "are" ∷ gap ∷ word "now" ∷ gap ∷ [])
    ∷ row (word "new" ∷ gap ∷ word "instruction" ∷ optional (word "s") ∷ maybe_gap ∷ word ":" ∷ [])
    ∷ row (word "system" ∷ maybe_gap ∷ word ":" ∷ [])
    ∷ row (word "assistant" ∷ maybe_gap ∷ word ":" ∷ [])
    ∷ row (
        word "<"
        ∷ maybe_gap
        ∷ optional (word "/")
        ∷ maybe_gap
        ∷ word "system"
        ∷ maybe_gap
        ∷ word ">"
        ∷ [])
    ∷ word "[inst]"
    ∷ row (word "human" ∷ maybe_gap ∷ word ":" ∷ [])
    ∷ row (word "pretend" ∷ gap ∷ word "you" ∷ gap ∷ word "are" ∷ [])
    ∷ row (
        word "act"
        ∷ gap
        ∷ word "as"
        ∷ gap
        ∷ maybe_word "if"
        ∷ maybe_word "you"
        ∷ maybe_word "are"
        ∷ optional (word "a")
        ∷ optional (word "n")
        ∷ space
        ∷ [])
    ∷ row (word "forget" ∷ gap ∷ alt (word "everything") (word "all") ∷ [])
    ∷ row (
        word "override"
        ∷ gap
        ∷ maybe_word "your"
        ∷ alt (word "instructions") (alt (word "rules") (word "guidelines"))
        ∷ [])
    ∷ []

-- `for pattern in INJECTION_PATTERNS: if pattern.search(line)`
unfoldable pub some_match : List Regex → Bytes → Bool
some_match [] line = false
some_match (r ∷ rs) line = search_in r line || some_match rs line

unfoldable pub is_injection : Bytes → Bool
unfolding some_match injection_patterns search_in
is_injection line = some_match injection_patterns line
