-- ===== src/Sanitizer/Regex/Matches.antt =====
-- Which texts an expression matches, as a relation, and that `search` decides it.
use mathlib.Core.Logic.{∥∥₁_elim}
use somethingremotelygood.Base.{
  ℕ, Bool, true, false, ◌&&◌, ◌||◌, [], ◌∷◌, ◌++◌, Bytes, ◌≡◌, ◌⊎◌, ◌↔◌, inl, inr, refl, sym, ap,
  ◌∙◌, subst, arith, Bool-cases, if◌then◌else◌,
}
use somethingremotelygood.Sanitizer.Regex.{Regex, nullable, derive, match_prefix, search_in}

-- A round of a star takes at least one code point.
pub data Matches : Regex → Bytes → Type 0 where
  empty : Matches Regex.empty []
  char : (t : ℕ → Bool) (c : ℕ) → t c ≡ true → Matches (Regex.char t) (c ∷ [])
  seq :
      {r q : Regex} {s : Bytes} (a b : Bytes)
      → s ≡ a ++ b
      → Matches r a
      → Matches q b
      → Matches (Regex.seq r q) s
  alt_left : {r q : Regex} {s : Bytes} → Matches r s → Matches (Regex.alt r q) s
  alt_right : {r q : Regex} {s : Bytes} → Matches q s → Matches (Regex.alt r q) s
  star_nil : {r : Regex} → Matches (Regex.star r) []
  star_more :
      {r : Regex} {s : Bytes} (c : ℕ) (a b : Bytes)
      → s ≡ c ∷ (a ++ b)
      → Matches r (c ∷ a)
      → Matches (Regex.star r) b
      → Matches (Regex.star r) s

and_true : (a b : Bool) → a && b ≡ true → (a ≡ true) × (b ≡ true)
and_true a b h = ground arith

nullable_sound : (r : Regex) → nullable r ≡ true → Matches r []
unfolding nullable
nullable_sound Regex.nothing h = cc
nullable_sound Regex.empty h = Matches.empty
nullable_sound (Regex.char t) h = cc
nullable_sound (Regex.seq r q) h =
    let (hr, hq) = and_true (nullable r) (nullable q) h in
    Matches.seq [] [] refl (nullable_sound r hr) (nullable_sound q hq)
nullable_sound (Regex.alt r q) h = elim (Bool-cases (nullable r)) [
  | inl e ↦ Matches.alt_left (nullable_sound r e)
  | inr e ↦ Matches.alt_right (nullable_sound q (rw (← h, e)))
]
nullable_sound (Regex.star r) h = Matches.star_nil

append_nil : (a b : Bytes) → [] ≡ a ++ b → (a ≡ []) × (b ≡ [])
append_nil [] b e = (refl, sym e)
append_nil (x ∷ a) b e = cc

nullable_complete : (r : Regex) (s : Bytes) → s ≡ [] → Matches r s → nullable r ≡ true
unfolding nullable
nullable_complete _ _ e Matches.empty = refl
nullable_complete _ _ e (Matches.char t c h) = cc
nullable_complete _ _ e (Matches.seq {r} {q} a b p m n) =
    let (ea, eb) = append_nil a b (sym e ∙ p) in
    rw (nullable_complete r a ea m, nullable_complete q b eb n)
nullable_complete _ _ e (Matches.alt_left {r} {q} {s} m) = rw (nullable_complete r s e m)
nullable_complete _ _ e (Matches.alt_right {r} {q} {s} m) =
    ground (arith, nullable_complete q s e m)
nullable_complete _ _ e Matches.star_nil = refl
nullable_complete _ _ e (Matches.star_more c a b p m n) = refl

inv_nothing : {s : Bytes} → Matches Regex.nothing s → ⊥
inv_nothing m = elim m [ ]

inv_empty : {s : Bytes} → Matches Regex.empty s → s ≡ []
inv_empty Matches.empty = refl

inv_char :
    {t : ℕ → Bool} {s : Bytes} → Matches (Regex.char t) s → (c : ℕ) × (s ≡ c ∷ []) × (t c ≡ true)
inv_char (Matches.char t c h) = (c, refl, h)

inv_seq :
    {r q : Regex} {s : Bytes}
    → Matches (Regex.seq r q) s
    → (a : Bytes) × (b : Bytes) × (s ≡ a ++ b) × Matches r a × Matches q b
inv_seq (Matches.seq a b e m n) = (a, b, e, m, n)

inv_alt : {r q : Regex} {s : Bytes} → Matches (Regex.alt r q) s → Matches r s ⊎ Matches q s
inv_alt (Matches.alt_left m) = inl m
inv_alt (Matches.alt_right m) = inr m

-- a star on a text that is not empty
inv_star :
    {r : Regex} {s : Bytes} (x : ℕ) (rest : Bytes)
    → s ≡ x ∷ rest
    → Matches (Regex.star r) s
    → (a : Bytes) × (b : Bytes) × (rest ≡ a ++ b) × Matches r (x ∷ a) × Matches (Regex.star r) b
inv_star x rest e Matches.star_nil = cc
inv_star x rest e (Matches.star_more {r} c a b p m n) =
    (a, b, cc, subst (λ (y : ℕ). Matches r (y ∷ a)) (cc) m, n)

-- Behind a code point `c`, the derivative matches what the expression matches.
derive_sound : (c : ℕ) (r : Regex) (s : Bytes) → Matches (derive c r) s → Matches r (c ∷ s)
unfolding derive
derive_sound c Regex.nothing s m = absurd (inv_nothing m)
derive_sound c Regex.empty s m = absurd (inv_nothing m)
derive_sound c (Regex.char t) s m = elim (Bool-cases (t c)) [
  | inl e ↦ rw (inv_empty (rw e at m)) (Matches.char t c e)
  | inr e ↦ absurd (inv_nothing (rw e at m))
]
derive_sound c (Regex.seq r q) s m = elim (Bool-cases (nullable r)) [
  | inl e ↦ elim (inv_alt (rw e at m)) [
    | inl front ↦
        let (a, b, p, n, n') = inv_seq front in
        Matches.seq (c ∷ a) b (ap (λ (x : Bytes). c ∷ x) p) (derive_sound c r a n) n'
    | inr back ↦ Matches.seq [] (c ∷ s) refl (nullable_sound r e) (derive_sound c q s back)
  ]
  | inr e ↦
      let (a, b, p, n, n') = inv_seq (rw e at m) in
      Matches.seq (c ∷ a) b (ap (λ (x : Bytes). c ∷ x) p) (derive_sound c r a n) n'
]
derive_sound c (Regex.alt r q) s m = elim (inv_alt m) [
  | inl n ↦ Matches.alt_left (derive_sound c r s n)
  | inr n ↦ Matches.alt_right (derive_sound c q s n)
]
derive_sound c (Regex.star r) s m =
    let (a, b, e, n, n') = inv_seq m in
    Matches.star_more c a b (ap (λ (x : Bytes). c ∷ x) e) (derive_sound c r a n) n'

-- How a text that is not empty is cut in two.
uncons :
    (c : ℕ) (s a b : Bytes)
    → c ∷ s ≡ a ++ b
    → ((a ≡ []) × (b ≡ c ∷ s)) ⊎ ((a' : Bytes) × (a ≡ c ∷ a') × (s ≡ a' ++ b))
uncons c s [] b e = inl (refl, sym e)
uncons c s (x ∷ a) b e = inr (a, cc, cc)

-- the first part of a derived sequence
front_part :
    (b : Bool) (front back : Regex) (s : Bytes)
    → Matches front s
    → Matches (if b then Regex.alt front back else front) s
front_part true front back s m = Matches.alt_left m
front_part false front back s m = m

derive_complete : (c : ℕ) (r : Regex) (s : Bytes) → Matches r (c ∷ s) → Matches (derive c r) s
unfolding derive
derive_complete c Regex.nothing s m = absurd (inv_nothing m)
derive_complete c Regex.empty s m = cc (inv_empty m)
derive_complete c (Regex.char t) s m =
    let (x, e, h) = inv_char m in
    let same : c ≡ x = cc in let rest : s ≡ [] = cc in rw (rest, same, h) Matches.empty
derive_complete c (Regex.seq r q) s m =
    let (a, b, e, n, n') = inv_seq m in
    elim (uncons c s a b e) [
      | inl (ea, eb) ↦
          rw (nullable_complete r a ea n)
            (Matches.alt_right (derive_complete c q s (subst (λ (x : Bytes). Matches q x) eb n')))
      | inr (a', ea, es) ↦ front_part (nullable r) (Regex.seq (derive c r) q) (derive c q) s (
          Matches.seq a' b es (derive_complete c r a' (subst (λ (x : Bytes). Matches r x) ea n)) n')
    ]
derive_complete c (Regex.alt r q) s m = elim (inv_alt m) [
  | inl n ↦ Matches.alt_left (derive_complete c r s n)
  | inr n ↦ Matches.alt_right (derive_complete c q s n)
]
derive_complete c (Regex.star r) s m =
    let (a, b, e, n, n') = inv_star c s refl m in Matches.seq a b e (derive_complete c r a n) n'

-- A match at the head of a text.
match_prefix_sound :
    (r : Regex) (s : Bytes)
    → match_prefix r s ≡ true
    → (a : Bytes) × (b : Bytes) × (s ≡ a ++ b) × Matches r a
unfolding match_prefix
match_prefix_sound r [] h = ([], [], refl, nullable_sound r h)
match_prefix_sound r (c ∷ s) h = elim (Bool-cases (nullable r)) [
  | inl e ↦ ([], c ∷ s, refl, nullable_sound r e)
  | inr e ↦
      let (a, b, p, m) = match_prefix_sound (derive c r) s (rw e at h) in
      (c ∷ a, b, ap (λ (x : Bytes). c ∷ x) p, derive_sound c r a m)
]

or_left : (a b : Bool) → a ≡ true → a || b ≡ true
or_left a b h = ground arith

or_right : (a b : Bool) → b ≡ true → a || b ≡ true
or_right a b h = ground arith

match_prefix_complete : (a b : Bytes) (r : Regex) → Matches r a → match_prefix r (a ++ b) ≡ true
unfolding match_prefix
match_prefix_complete [] [] r m = nullable_complete r [] refl m
match_prefix_complete [] (c ∷ b) r m = or_left _ _ (nullable_complete r [] refl m)
match_prefix_complete (c ∷ a) b r m =
    or_right (nullable r) _ (match_prefix_complete a b (derive c r) (derive_complete c r a m))

-- What `search` finds is a part of the text that the expression matches.
search_sound :
    (r : Regex) (s : Bytes)
    → search_in r s ≡ true
    → (a : Bytes) × (b : Bytes) × (c : Bytes) × (s ≡ a ++ (b ++ c)) × Matches r b
unfolding search_in
search_sound r [] h = let (b, c, p, m) = match_prefix_sound r [] h in ([], b, c, p, m)
search_sound r (x ∷ s) h = elim (Bool-cases (match_prefix r (x ∷ s))) [
  | inl e ↦ let (b, c, p, m) = match_prefix_sound r (x ∷ s) e in ([], b, c, p, m)
  | inr e ↦
      let (a, b, c, p, m) = search_sound r s (rw e at h) in
      (x ∷ a, b, c, ap (λ (y : Bytes). x ∷ y) p, m)
]

search_at_head : (r : Regex) (s : Bytes) → match_prefix r s ≡ true → search_in r s ≡ true
unfolding search_in
search_at_head r [] h = h
search_at_head r (x ∷ s) h = or_left _ _ h

search_complete : (a b c : Bytes) (r : Regex) → Matches r b → search_in r (a ++ (b ++ c)) ≡ true
unfolding search_in
search_complete [] b c r m = search_at_head r (b ++ c) (match_prefix_complete b c r m)
search_complete (x ∷ a) b c r m = or_right _ _ (search_complete a b c r m)

-- Some part of the text is matched.
abbrev pub Occurs : Regex → Bytes → Type 0
Occurs r s = ∥ ((a : Bytes) × (b : Bytes) × (c : Bytes) × (s ≡ a ++ (b ++ c)) × Matches r b) ∥₁

-- `search` succeeds exactly on the texts of which some part is matched by the expression.
pub search_in_iff : (r : Regex) (s : Bytes) → (search_in r s ≡ true) ↔ Occurs r s
search_in_iff r s = (
  λ h. ∣ search_sound r s h ∣₁,
  λ t. ∥∥₁_elim t (hlevel) λ h. let (a, b, c, e, m) = h in rw e (search_complete a b c r m),
)
