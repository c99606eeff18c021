-- ===== src/Generators/Integers.antt =====
-- Integers, as far as the scripts compute with them: a time may lie before 1970, and a random
-- number may be negative.
use somethingremotelygood.Base.{
  ℕ, suc, ◌+◌, ◌-◌, ◌*◌, ◌≤◌, arith, min, max, Bytes, ◌∷◌, ltb, if◌then◌else◌,
}
use somethingremotelygood.Sanitizer.Lines.{decimal}

pub data ℤ : Type 0 where
  pos : ℕ → ℤ
  -- `negsuc n` is -(n + 1)
  negsuc : ℕ → ℤ

-- `m - n`
abbrev pub subtract : ℕ → ℕ → ℤ
subtract m n = if ltb m n then negsuc (n - suc m) else pos (m - n)

-- `z + n`
abbrev pub add : ℤ → ℕ → ℤ
add (pos m) n = pos (m + n)
add (negsuc m) n = subtract n (suc m)

-- `2 * z`
abbrev pub twice : ℤ → ℤ
twice (pos n) = pos (2 * n)
twice (negsuc n) = negsuc (2 * n + 1)

-- `max(low, z)`, and `max(low, min(high, z))`
abbrev pub at_least : ℕ → ℤ → ℕ
at_least low (pos n) = max low n
at_least low (negsuc n) = low

abbrev pub clamp : ℕ → ℕ → ℤ → ℕ
clamp low high (pos n) = max low (min high n)
clamp low high (negsuc n) = low

pub clamp_between :
    (low high : ℕ) (z : ℤ) → low ≤ high → (low ≤ clamp low high z) × (clamp low high z ≤ high)
clamp_between low high (pos n) le = (omega arith, omega arith)
clamp_between low high (negsuc n) le = (omega arith, omega arith)

-- `str(z)`
unfoldable pub str_int : ℤ → Bytes
unfolding decimal
str_int (pos n) = decimal n
str_int (negsuc n) = b'-' ∷ decimal (suc n)
