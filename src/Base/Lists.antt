-- ===== src/Base/Lists.antt =====
-- Lists measured and cut by native numbers, under the library's names; bytes and texts as lists.
use Prim.Native.Nat.{ℕ, zero, suc, ◌+◌, ◌-◌, ◌≤◌, min}
use Prim.Native.Char.{code}
use Prim.Native.String.{String}
use mathlib.Core.Path.{◌≡◌, refl, ap}
use mathlib.Core.List.{List, [], ◌∷◌, ◌++◌, map, append_assoc}
use mathlib.Core.Bool.{Bool, true, false}
use native.Mathlib.Omega.{arith}
use somethingremotelygood.Base.Tests.{◌==◌}

module _ {ℓ} {A : Type ℓ} where
  abbrev pub length : List A → ℕ
  length [] = 0
  length (x ∷ xs) = suc (length xs)

  abbrev pub take : ℕ → List A → List A
  take zero xs = []
  take (suc n) [] = []
  take (suc n) (x ∷ xs) = x ∷ take n xs

  abbrev pub drop : ℕ → List A → List A
  drop zero xs = xs
  drop (suc n) [] = []
  drop (suc n) (x ∷ xs) = drop n xs

  -- Python's `xs[a:b]` for `a` and `b` of zero or more
  abbrev pub slice : ℕ → ℕ → List A → List A
  slice a b xs = drop a (take b xs)

  abbrev pub All {κ} : (A → Type κ) → List A → Type κ
  All P [] = Unit {κ}
  All P (x ∷ xs) = P x × All P xs

module _ {ℓ} {A : Type ℓ} where
  pub length-append : (xs ys : List A) → length (xs ++ ys) ≡ length xs + length ys
  length-append [] ys = omega arith
  length-append (x ∷ xs) ys = omega (arith, length-append xs ys)

  pub length-take : (n : ℕ) (xs : List A) → length (take n xs) ≡ min n (length xs)
  length-take zero xs = omega arith
  length-take (suc n) [] = omega arith
  length-take (suc n) (x ∷ xs) = omega (arith, length-take n xs)

  pub length-drop : (n : ℕ) (xs : List A) → length (drop n xs) ≡ length xs - n
  length-drop zero xs = omega arith
  length-drop (suc n) [] = omega arith
  length-drop (suc n) (x ∷ xs) = omega (arith, length-drop n xs)

  pub take-length : (xs : List A) → take (length xs) xs ≡ xs
  take-length [] = refl
  take-length (x ∷ xs) = ap (λ ys. x ∷ ys) (take-length xs)

  pub take-all : (n : ℕ) (xs : List A) → length xs ≤ n → take n xs ≡ xs
  take-all zero [] h = refl
  take-all zero (x ∷ xs) h = absurd (omega arith)
  take-all (suc n) [] h = refl
  take-all (suc n) (x ∷ xs) h = ap (λ ys. x ∷ ys) (take-all n xs (omega arith))

  pub take-append : (xs ys : List A) → take (length xs) (xs ++ ys) ≡ xs
  take-append [] ys = refl
  take-append (x ∷ xs) ys = ap (λ zs. x ∷ zs) (take-append xs ys)

  pub drop-append : (xs ys : List A) → drop (length xs) (xs ++ ys) ≡ ys
  drop-append [] ys = refl
  drop-append (x ∷ xs) ys = drop-append xs ys

  pub take-drop-append : (n : ℕ) (xs : List A) → take n xs ++ drop n xs ≡ xs
  take-drop-append zero xs = refl
  take-drop-append (suc n) [] = refl
  take-drop-append (suc n) (x ∷ xs) = ap (λ zs. x ∷ zs) (take-drop-append n xs)

  pub length-map {κ} : {B : Type κ} (f : A → B) (xs : List A) → length (map f xs) ≡ length xs
  length-map f [] = refl
  length-map f (x ∷ xs) = ap suc (length-map f xs)

  pub All-append {κ} : (P : A → Type κ) (xs ys : List A) → All P xs → All P ys → All P (xs ++ ys)
  All-append P [] ys hx hy = hy
  All-append P (x ∷ xs) ys (px, hx) hy = (px, All-append P xs ys hx hy)

abbrev pub Bytes : Type 0
Bytes = List ℕ

-- The code points of a literal: its bytes, if it is ASCII.
abbrev pub codes : String → Bytes
codes String.[] = []
codes (String.◌∷◌ c s) = code c ∷ codes s

-- `xs == ys` on bytes and texts
abbrev pub eqb : Bytes → Bytes → Bool
eqb [] [] = true
eqb [] (y ∷ ys) = false
eqb (x ∷ xs) [] = false
eqb (x ∷ xs) (y ∷ ys) = elim (x == y) [ true ↦ eqb xs ys | false ↦ false ]

pub eqb→eq : (xs ys : Bytes) → eqb xs ys ≡ true → xs ≡ ys
eqb→eq [] [] h = refl
eqb→eq [] (y ∷ ys) h = ground arith
eqb→eq (x ∷ xs) [] h = ground arith
eqb→eq (x ∷ xs) (y ∷ ys) h = ground (arith, eqb→eq xs ys)

pub eqb_refl : (xs : Bytes) → eqb xs xs ≡ true
eqb_refl [] = refl
eqb_refl (x ∷ xs) = ground (arith, eqb_refl xs)

module _ {ℓ} {A : Type ℓ} where
  pub take-append_add :
      (n m : ℕ) (xs ys : List A) → m ≡ length xs + n → take m (xs ++ ys) ≡ xs ++ take n ys
  take-append_add n m [] ys e = rw e (ap (λ (k : ℕ). take k ys) (omega arith))
  take-append_add n zero (x ∷ xs) ys e = absurd (omega arith)
  take-append_add n (suc m) (x ∷ xs) ys e =
      ap (λ zs. x ∷ zs) (take-append_add n m xs ys (omega arith))

  -- A field that stands behind `xs` in a longer string.
  pub slice-append :
      (xs ys rest : List A) (a b : ℕ)
      → a ≡ length xs
      → b ≡ length xs + length ys
      → slice a b (xs ++ ys ++ rest) ≡ ys
  slice-append xs ys rest a b ea eb =
      rw (ea, append_assoc, take-append_add (length ys) b xs (ys ++ rest) eb, drop-append)
        (take-append ys rest)

  pub length-slice : (a b : ℕ) (xs : List A) → length (slice a b xs) ≡ min b (length xs) - a
  length-slice a b xs = omega (arith, length-drop {ℓ} a (take b xs), length-take {ℓ} b xs)

  -- The same, where the longer string is given by an equation.
  pub slice-field :
      (pre ys post xs : List A) (a b : ℕ)
      → xs ≡ pre ++ (ys ++ post)
      → a ≡ length pre
      → b ≡ a + length ys
      → slice a b xs ≡ ys
  slice-field pre ys post xs a b e ea eb =
      rw (e, ← append_assoc pre ys post) (slice-append pre ys post a b ea (omega arith))

  -- A slice that runs past the end.
  pub slice-rest :
      (pre ys xs : List A) (a b : ℕ)
      → xs ≡ pre ++ ys
      → a ≡ length pre
      → length xs ≤ b
      → slice a b xs ≡ ys
  slice-rest pre ys xs a b e ea h = rw (take-all b xs h, e, ea) (drop-append pre ys)

  pub take-append_le : (m : ℕ) (xs ys : List A) → m ≤ length xs → take m (xs ++ ys) ≡ take m xs
  take-append_le zero xs ys h = refl
  take-append_le (suc m) [] ys h = absurd (omega arith)
  take-append_le (suc m) (x ∷ xs) ys h = ap (λ zs. x ∷ zs) (take-append_le m xs ys (omega arith))

  pub drop-append_le :
      (m : ℕ) (xs ys : List A) → m ≤ length xs → drop m (xs ++ ys) ≡ drop m xs ++ ys
  drop-append_le zero xs ys h = refl
  drop-append_le (suc m) [] ys h = absurd (omega arith)
  drop-append_le (suc m) (x ∷ xs) ys h = drop-append_le m xs ys (omega arith)
