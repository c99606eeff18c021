-- ===== src/Database/Cells/Numbers.antt =====
-- What becomes of a text that looks like a number.
use somethingremotelygood.Base.{
  ℕ, ◌+◌, ◌-◌, ◌*◌, ◌≤◌, ◌<◌, ltb, length, true, false, some, [], ◌∷◌, Bytes, All, ◌≡◌, ◌≢◌, refl,
  sym, ◌∙◌, arith,
}
use somethingremotelygood.Base.Texts.{is_space, strip, strip_left, strip_right}
use somethingremotelygood.Database.Cells.{
  positive, read_digits, digits_in, max_digits, int_of, from_sign, convert,
}

abbrev pub IsDigit : ℕ → Type 0
IsDigit c = (b'0' ≤ c) × (c ≤ b'9')

-- The number that digits stand for.
abbrev pub digits_value : ℕ → Bytes → ℕ
digits_value n [] = n
digits_value n (c ∷ s) = digits_value (n * 10 + (c - b'0')) s

IsDigit-is_space : (c : ℕ) → IsDigit c → is_space c ≡ false
unfolding is_space
IsDigit-is_space c h = ground arith

strip_right-digits : (s : Bytes) → All IsDigit s → strip_right is_space s ≡ s
unfolding strip_right
strip_right-digits [] h = refl
strip_right-digits (c ∷ []) h = rw (IsDigit-is_space c h.0) refl
strip_right-digits (c ∷ d ∷ s) h = rw (strip_right-digits (d ∷ s) h.1) refl

strip-digits : (s : Bytes) → All IsDigit s → strip s ≡ s
unfolding strip
strip-digits [] h = refl
strip-digits (c ∷ s) h = rw (strip_right-digits (c ∷ s) h) (head_stays c s h.0)
  where
    head_stays : (c : ℕ) (s : Bytes) → IsDigit c → strip_left is_space (c ∷ s) ≡ c ∷ s
    head_stays c s d = unfold strip_left in rw (IsDigit-is_space c d) refl

read_digits-value :
    (n : ℕ) (s : Bytes) → All IsDigit s → read_digits n true s ≡ some (digits_value n s)
unfolding read_digits
read_digits-value n [] h = refl
read_digits-value n (c ∷ s) h = ground (arith, read_digits-value (n * 10 + (c - b'0')) s h.1)

read_digits-first :
    (n c : ℕ) (s : Bytes)
    → IsDigit c
    → All IsDigit s
    → read_digits n false (c ∷ s) ≡ some (digits_value n (c ∷ s))
unfolding read_digits
read_digits-first n c s d h = ground (arith, read_digits-value (n * 10 + (c - b'0')) s h)

digits_in_short : (s : Bytes) → digits_in s ≤ length s
digits_in_short [] = omega arith
digits_in_short (c ∷ s) = ground (arith, digits_in_short s)

from_sign-digits :
    (c : ℕ) (s : Bytes)
    → IsDigit c
    → All IsDigit s
    → from_sign (c ∷ s) ≡ some (positive (digits_value 0 (c ∷ s)))
from_sign-digits c s d h = ground (arith, read_digits-first 0 c s d h)

int_of-digits :
    (c : ℕ) (s : Bytes)
    → IsDigit c
    → All IsDigit s
    → length (c ∷ s) ≤ max_digits
    → int_of (c ∷ s) ≡ some (positive (digits_value 0 (c ∷ s)))
unfolding int_of
int_of-digits c s d h short =
    let few : ltb max_digits (digits_in (c ∷ s)) ≡ false =
      ground (arith, digits_in_short (c ∷ s)) in
    rw (strip-digits (c ∷ s) (d, h), few) (from_sign-digits c s d h)

-- A field of fewer than 4300 digits comes back as the number that they stand for, not as a text, so
-- that leading zeros are lost: with and without one the field is the same value.
pub convert-digits :
    (s : Bytes)
    → s ≢ []
    → All IsDigit s
    → length s < max_digits
    → (convert s ≡ positive (digits_value 0 s)) × (convert (b'0' ∷ s) ≡ convert s)
unfolding convert
convert-digits [] ne h short = absurd (ne refl)
convert-digits (c ∷ s) ne h short = (plain, zero_first ∙ sym plain)
  where
    plain : convert (c ∷ s) ≡ positive (digits_value 0 (c ∷ s))
    plain = rw (int_of-digits c s h.0 h.1 (omega arith), convert) refl

    zero_first : convert (b'0' ∷ c ∷ s) ≡ positive (digits_value 0 (c ∷ s))
    zero_first =
        rw (int_of-digits b'0' (c ∷ s) (omega arith, omega arith) h (omega arith), convert) refl
