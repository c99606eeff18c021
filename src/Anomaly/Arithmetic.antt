-- ===== src/Anomaly/Arithmetic.antt =====
-- Python's floats, as the detector uses them: a parameter.
use somethingremotelygood.Base.{
  ℕ, suc, ◌-◌, Bool, true, false, List, [], ◌∷◌, Bytes, length, ltb, ◌≡◌, if◌then◌else◌,
}
use somethingremotelygood.Anomaly.Days.{sum}

pub record Arithmetic : Type 1 where
  pub Float : Type 0
  -- the literal with the digits `n`, `k` of them behind the point
  pub literal : ℕ → ℕ → Float
  -- `float(n)` where an operation mixes the two, and `a / b` of two ints
  pub of_nat : ℕ → Float
  pub ratio : ℕ → ℕ → Float
  pub add : Float → Float → Float
  pub sub : Float → Float → Float
  pub div : Float → Float → Float
  -- `x ** 2`
  pub square : Float → Float
  pub sqrt : Float → Float
  -- `a < b` and `a == b`
  pub lt : Float → Float → Bool
  pub eq : Float → Float → Bool
  -- f"{x:.1%}", f"{x:.1f}", f"{x:.0f}"
  pub percent : Float → Bytes
  pub tenths : Float → Bytes
  pub whole : Float → Bytes

-- What holds of the numbers that are not NaN.
pub record Ordered (a : Arithmetic) : Type 0 where
  pub lt_of_not_lt : (t x m : a.Float) → a.lt t x ≡ true → a.lt m x ≡ false → a.lt t m ≡ true
  pub lt_trans : (t x m : a.Float) → a.lt t x ≡ true → a.lt x m ≡ true → a.lt t m ≡ true
  -- a part of a whole that is not empty is no zero
  pub ratio_positive : (n k : ℕ) → a.eq (a.ratio (suc n) k) (a.literal 0 1) ≡ false
  -- the inverse of a number from 0.001 on and below 0.02 is above 4.5
  pub inverse_large :
      (x : a.Float)
      → a.lt x (a.literal 2 2) ≡ true
      → a.lt x (a.literal 1 3) ≡ false
      → a.lt (a.literal 45 1) (a.div (a.literal 10 1) x) ≡ true
  pub thousandth_small : a.lt (a.literal 1 3) (a.literal 2 2) ≡ true
  pub lt_irrefl : (x : a.Float) → a.lt x x ≡ false

module _ (a : Arithmetic) where
  open a use {Float, literal, of_nat, ratio, add, sub, div, square, sqrt, lt}

  -- `max(x, y)`: the first of the largest
  abbrev pub max_of : Float → Float → Float
  max_of x y = if lt x y then y else x

  unfoldable pub sum_squares : Float → Float → List ℕ → Float
  sum_squares mean acc [] = acc
  sum_squares mean acc (x ∷ xs) = sum_squares mean (add acc (square (sub (of_nat x) mean))) xs

  unfoldable pub compute_mean_stddev : List ℕ → Float × Float
  unfolding sum_squares
  compute_mean_stddev [] = (literal 0 1, literal 0 1)
  compute_mean_stddev (x ∷ xs) =
      let values = x ∷ xs in
      let mean = ratio (sum values) (length values) in
      if ltb (length values) 2
      then (mean, literal 0 1)
      else (mean, sqrt (div (sum_squares mean (of_nat 0) values) (of_nat (length values - 1))))
