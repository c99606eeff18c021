-- ===== src/Database/Bind/Literals.antt =====
-- No value leaves its literal: a reader of SQL texts finds the values again.
use somethingremotelygood.Base.{
  ℕ, Bool, true, false, ◌&&◌, ◌||◌, not, Option, none, some, List, [], ◌∷◌, ◌++◌, Bytes, length,
  map, ok, append_assoc, ◌≡◌, refl, ap, arith, ◌==◌, Bool-cases, inl, inr, if◌then◌else◌,
}
use somethingremotelygood.Database.Bind.{text, literal, quote, mark, escape, literal, bind_params}
use somethingremotelygood.Database.Bind.Counts.{
  marks, marks_taken, marks_kept, bind_params_taken, bind_params_kept,
}

abbrev put : ℕ → Option (Bytes × Bytes) → Option (Bytes × Bytes)
put c none = none
put c (some (s, rest)) = some (c ∷ s, rest)

-- A string literal as SQL reads it, behind the opening quote: two quotes stand for one, and a
-- single quote ends it. `true`: a quote was just seen.
unfoldable pub read_string : Bool → Bytes → Option (Bytes × Bytes)
read_string false [] = none
read_string true [] = some ([], [])
read_string false (c ∷ s) = if c == quote then read_string true s else put c (read_string false s)
read_string true (c ∷ s) = if c == quote then put quote (read_string false s) else some ([], c ∷ s)

-- The text does not begin with a quote.
abbrev unquoted : Bytes → Bool
unquoted [] = true
unquoted (c ∷ s) = not (c == quote)

read_end : (rest : Bytes) → unquoted rest ≡ true → read_string true rest ≡ some ([], rest)
unfolding read_string
read_end [] h = refl
read_end (c ∷ rest) h = ground arith

-- The literal of a text reads as that text.
pub read_string-escape :
    (s rest : Bytes)
    → unquoted rest ≡ true
    → read_string false (escape s ++ (quote ∷ rest)) ≡ some (s, rest)
unfolding escape read_string
read_string-escape [] rest h = read_end rest h
read_string-escape (c ∷ s) rest h = elim (Bool-cases (c == quote)) [
  | inl e ↦ rw e (rw (eq_quote c e) (ap (put quote) (read_string-escape s rest h)))
  | inr e ↦ rw e (rw e (ap (put c) (read_string-escape s rest h)))
]
  where
    eq_quote : (c : ℕ) → c == quote ≡ true → c ≡ quote
    eq_quote c e = ground arith

-- The values in a text that follows a template: at each mark of the template stands a string
-- literal, and every other character is the template's.
abbrev add : Bytes → Option (List Bytes) → Option (List Bytes)
add v none = none
add v (some vs) = some (v ∷ vs)

unfoldable pub read_values : Bytes → Bytes → Option (List Bytes)
unfolding read_string
read_values [] [] = some []
read_values [] (d ∷ s) = none
read_values (c ∷ sql) [] = none
read_values (c ∷ sql) (d ∷ s) = elim (c == mark) [
  | false ↦ if d == c then read_values sql s else none
  | true ↦ elim (d == quote) [
    | false ↦ none
    | true ↦ elim (read_string false s) [ none ↦ none | some r ↦ add r.0 (read_values sql r.1) ]
  ]
]

-- Between two marks there is another character, and no quote stands behind a mark.
abbrev plain_start : Bytes → Bool
plain_start [] = true
plain_start (c ∷ s) = not (c == quote) && not (c == mark)

abbrev pub spaced : Bytes → Bool
spaced [] = true
spaced (c ∷ s) = (not (c == mark) || plain_start s) && spaced s

-- A bound text, with what is read in it.
pub record IsBound (sql : Bytes) (vals : List Bytes) : Type 0 where
  pub bound : Bytes
  pub binds : bind_params sql (map text vals) ≡ ok bound
  pub reads : read_values sql bound ≡ some vals
  pub starts : plain_start sql ≡ true → unquoted bound ≡ true

read_values_taken :
    (c : ℕ) (sql v b : Bytes) (vs : List Bytes)
    → c == mark ≡ true
    → unquoted b ≡ true
    → read_values sql b ≡ some vs
    → read_values (c ∷ sql) (literal (text v) ++ b) ≡ some (v ∷ vs)
unfolding read_values literal
read_values_taken c sql v b vs e u q =
    rw (e, read_values)
      (rw (append_assoc (escape v) (quote ∷ []) b, read_string-escape v b u) (ap (add v) q))

same_char : (c : ℕ) → c == c ≡ true
same_char c = ground arith

read_values_kept :
    (c : ℕ) (sql b : Bytes) (vs : List Bytes)
    → c == mark ≡ false
    → read_values sql b ≡ some vs
    → read_values (c ∷ sql) (c ∷ b) ≡ some vs
unfolding read_values
read_values_kept c sql b vs e q = rw (e, same_char c, read_values) q

at_mark :
    (c : ℕ) (sql v : Bytes) (vs : List Bytes)
    → c == mark ≡ true
    → spaced (c ∷ sql) ≡ true
    → IsBound sql vs
    → IsBound (c ∷ sql) (v ∷ vs)
at_mark c sql v vs e sp h = record {
  bound = literal (text v) ++ h.bound;
  binds = bind_params_taken c sql (text v) (map text vs) h.bound e h.binds;
  reads = read_values_taken c sql v h.bound vs e (h.starts (ground arith)) h.reads;
  starts = λ s. ground arith;
}

at_other :
    (c : ℕ) (sql : Bytes) (vs : List Bytes)
    → c == mark ≡ false
    → IsBound sql vs
    → IsBound (c ∷ sql) vs
at_other c sql vs e h = record {
  bound = c ∷ h.bound;
  binds = bind_params_kept c sql (map text vs) h.bound e h.binds;
  reads = read_values_kept c sql h.bound vs e h.reads;
  starts = λ s. ground arith;
}

rest_spaced : (c : ℕ) (sql : Bytes) → spaced (c ∷ sql) ≡ true → spaced sql ≡ true
rest_spaced c sql h = ground arith

bind_IsBound :
    (sql : Bytes) (vals : List Bytes)
    → spaced sql ≡ true
    → marks sql ≡ length vals
    → IsBound sql vals
bind_IsBound [] [] sp n = record {
  bound = [];
  binds = unfold bind_params in refl;
  reads = unfold read_values in refl;
  starts = λ s. refl;
}
bind_IsBound [] (v ∷ vs) sp n = absurd (unfold marks in omega arith)
bind_IsBound (c ∷ sql) [] sp n = elim (Bool-cases (c == mark)) [
  | inl e ↦ absurd (omega (arith, marks_taken c sql e))
  | inr e ↦
      at_other c sql [] e
        (bind_IsBound sql [] (rest_spaced c sql sp) (omega (arith, marks_kept c sql e)))
]
bind_IsBound (c ∷ sql) (v ∷ vs) sp n = elim (Bool-cases (c == mark)) [
  | inl e ↦
      at_mark c sql v vs e sp
        (bind_IsBound sql vs (rest_spaced c sql sp) (omega (arith, marks_taken c sql e)))
  | inr e ↦
      at_other c sql (v ∷ vs) e
        (bind_IsBound sql (v ∷ vs) (rest_spaced c sql sp) (omega (arith, marks_kept c sql e)))
]

-- Text values bound into a template with as many marks, in which something other than a mark or a
-- quote stands behind each mark, are read back by a reader of SQL string literals, each at its mark,
-- whatever characters they have.
pub bind_params-values :
    (sql : Bytes) (vals : List Bytes)
    → spaced sql ≡ true
    → marks sql ≡ length vals
    → (bound : Bytes) × (bind_params sql (map text vals) ≡ ok bound)
      × (read_values sql bound ≡ some vals)
bind_params-values sql vals sp n = let h = bind_IsBound sql vals sp n in (h.bound, h.binds, h.reads)
