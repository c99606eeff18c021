-- ===== src/PdfReport/History/Highlights.antt =====
-- Which lines of the history are red.
use somethingremotelygood.Base.{
  ℕ, ◌+◌, ◌<◌, true, false, ◌&&◌, List, [], ◌∷◌, Bytes, codes, map, All, All-append, leb, ◌==◌, ◌≡◌,
  ◌≢◌, inl, inr, refl, arith, Bool-cases, if◌then◌else◌,
}
use somethingremotelygood.Base.Texts.{contains, starts}
use somethingremotelygood.Sanitizer.Lines.{decimal, filter_mark}
use somethingremotelygood.Sanitizer.Lines.Limits.{decimal-All}
use somethingremotelygood.PdfReport.Values.{Python}
use somethingremotelygood.PdfReport.History.{keywords, some_in, is_highlighted}

-- `str.lower` on an ASCII text.
abbrev pub lower_code : ℕ → ℕ
lower_code c = if leb b'A' c && leb c b'Z' then c + 32 else c

abbrev pub LowersAscii : Python → Type 0
LowersAscii python = (s : Bytes) → All (λ c. c < 128) s → python.lower s ≡ map lower_code s

module _ (P : ℕ → Type 0) where
  -- What holds of every character of a text holds of every character of a part of it.
  starts-All : (part text : Bytes) → starts part text ≡ true → All P text → All P part
  starts-All [] text e h = tt
  starts-All (c ∷ part) [] e h = cc
  starts-All (c ∷ part) (d ∷ text) e h = elim (Bool-cases (c == d)) [
    | inl q ↦
        (let same : c ≡ d = ground arith in (rw same h.0, starts-All part text (rw q at e) h.1))
    | inr q ↦ absurd (false_true (rw q at e))
  ]
    where
      false_true : false ≡ true → ⊥
      false_true q = cc

  contains-All : (part text : Bytes) → contains part text ≡ true → All P text → All P part
  unfolding contains
  contains-All part [] e h = starts-All part [] e h
  contains-All part (c ∷ text) e h = elim (Bool-cases (starts part (c ∷ text))) [
    | inl q ↦ starts-All part (c ∷ text) q h
    | inr q ↦ contains-All part text (rw q at e) h.1
  ]

-- Any character but a slash, c, v, b, m, p, u and the capital F. The mark of a filtered line has no
-- other in small letters, and each keyword has one of those eight.
abbrev IsOther : ℕ → Type 0
IsOther c =
    (c ≢ 47) × (c ≢ 99) × (c ≢ 118) × (c ≢ 98) × (c ≢ 109) × (c ≢ 112) × (c ≢ 117) × (c ≢ 70)

none_in :
    (kws : List Bytes) (text : Bytes)
    → All IsOther text
    → All (λ kw. ¬ All IsOther kw) kws
    → some_in kws text ≡ false
unfolding contains
none_in [] text h k = refl
none_in (kw ∷ kws) text h k = elim (Bool-cases (contains kw text)) [
  | inl e ↦ absurd (k.0 (contains-All IsOther kw text e h))
  | inr e ↦ rw e (none_in kws text h k.1)
]

keywords-IsOther : All (λ kw. ¬ All IsOther kw) keywords
keywords-IsOther = (
  λ h. omega arith,
  (
    λ h. omega arith,
    (
      λ h. omega arith,
      (
        λ h. omega arith,
        (
          λ h. omega arith,
          (
            λ h. omega arith,
            (λ h. omega arith, (λ h. omega arith, (λ h. omega arith, (λ h. omega arith, tt)))),
          ),
        ),
      ),
    ),
  ),
)

All-map : (P : ℕ → Type 0) (f : ℕ → ℕ) (s : Bytes) → All (λ c. P (f c)) s → All P (map f s)
All-map P f [] h = tt
All-map P f (c ∷ s) h = (h.0, All-map P f s h.1)

filter_mark-All :
    (P : ℕ → Type 0) (n : ℕ)
    → All P (codes "[FILTERED: line ")
    → All P (codes "]")
    → ((d : ℕ) → d < 10 → P (b'0' + d))
    → All P (filter_mark n)
unfolding filter_mark
filter_mark-All P n h k digit =
    All-append P (codes "[FILTERED: line ") _ h
      (All-append P (decimal n) (codes "]") (decimal-All P n digit) k)

-- No mark of a line that the sanitizer filtered is red, with a `lower` that is right on ASCII: the
-- keyword for it has capitals, and is looked for in small letters.
pub filter_mark_plain :
    (python : Python) → LowersAscii python → (n : ℕ) → is_highlighted python (filter_mark n) ≡ false
unfolding is_highlighted
filter_mark_plain python low n =
    let small : All IsOther (map lower_code (filter_mark n)) =
      All-map IsOther lower_code (filter_mark n) (
        filter_mark-All (λ c. IsOther (lower_code c)) n (omega arith) (omega arith)
          (λ d h. ground arith)) in
    rw
      (low (filter_mark n)
        (filter_mark-All (λ c. c < 128) n (omega arith) (omega arith) (λ d h. omega arith)))
      (none_in keywords (map lower_code (filter_mark n)) small keywords-IsOther)
