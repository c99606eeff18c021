-- ===== src/Wire/Laws.antt =====
-- Words survive packing and unpacking, with or without the bytes that follow them.
use somethingremotelygood.Base.{
  ℕ, ◌^◌, ◌≤◌, ◌<◌, [], ◌∷◌, ◌++◌, Bytes, length, take, All, ok, raised, struct_error, ◌≡◌, ◌⊎◌,
  inl, inr, refl, arith,
}
use somethingremotelygood.Wire.{word, pack, unpack, IsByte}

pub pack_fits : (n : ℕ) → n < 2 ^ 32 → pack n ≡ ok (word n)
unfolding pack
pack_fits n h = ground arith

pub pack_overflow : (n : ℕ) → 2 ^ 32 ≤ n → pack n ≡ raised struct_error
unfolding pack
pack_overflow n h = ground arith

pub unpack-word : (n : ℕ) → n < 2 ^ 32 → unpack (word n) ≡ ok n
unfolding unpack
unpack-word n h = ground arith

-- A word at the head of a longer string.
pub unpack-take-word : (n : ℕ) (rest : Bytes) → n < 2 ^ 32 → unpack (take 4 (word n ++ rest)) ≡ ok n
unfolding unpack
unpack-take-word n rest h = ground arith

pub word-IsByte : (n : ℕ) → All IsByte (word n)
word-IsByte n = omega arith

-- `unpack` returns a number from four bytes, and raises on any other string.
pub unpack_cases :
    (s : Bytes) → ((n : ℕ) × (unpack s ≡ ok n) × (length s ≡ 4)) ⊎ (unpack s ≡ raised struct_error)
unfolding unpack
unpack_cases [] = inr refl
unpack_cases (a ∷ []) = inr refl
unpack_cases (a ∷ b ∷ []) = inr refl
unpack_cases (a ∷ b ∷ c ∷ []) = inr refl
unpack_cases (a ∷ b ∷ c ∷ d ∷ []) = inl (_, refl, omega arith)
unpack_cases (a ∷ b ∷ c ∷ d ∷ e ∷ s) = inr refl

pub unpack_four : (s : Bytes) → length s ≡ 4 → (n : ℕ) × (unpack s ≡ ok n)
unfolding unpack
unpack_four [] h = absurd (omega arith)
unpack_four (a ∷ []) h = absurd (omega arith)
unpack_four (a ∷ b ∷ []) h = absurd (omega arith)
unpack_four (a ∷ b ∷ c ∷ []) h = absurd (omega arith)
unpack_four (a ∷ b ∷ c ∷ d ∷ []) h = (_, refl)
unpack_four (a ∷ b ∷ c ∷ d ∷ e ∷ s) h = absurd (omega arith)
