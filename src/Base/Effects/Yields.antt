-- ===== src/Base/Effects/Yields.antt =====
-- Calls that always return a value, with what is known of it.
use mathlib.Core.Path.{◌≡◌, refl}
use mathlib.Core.Bool.{Bool, true, false}
use somethingremotelygood.Base.Tests.{if◌then◌else◌}
use somethingremotelygood.Base.Results.{Result, ok}
use somethingremotelygood.Base.Effects.{Exec, pure, lift, ◌>>=◌}

-- From every state `m` returns a value that satisfies `P`.
pub record Yields {S A : Type 0} (P : A → Type 0) (m : Exec S A) : Type 0 where
  pub at : (s : S) → (a : A) × ((m s).0 ≡ ok a) × P a

module _ {S A : Type 0} {P : A → Type 0} where
  pub Yields-pure : (a : A) → P a → Yields {S = S} P (pure a)
  Yields-pure a h = record { at = λ s. (a, refl, h) }

  pub Yields-lift : (r : Result A) → (a : A) × (r ≡ ok a) × P a → Yields {S = S} P (lift r)
  Yields-lift r h = record { at = λ s. h }

  pub Yields-if :
      (b : Bool) (m n : Exec S A) → Yields P m → Yields P n → Yields P (if b then m else n)
  Yields-if true m n km kn = km
  Yields-if false m n km kn = kn

module _ {S A B : Type 0} {P : B → Type 0} where
  pub Yields-bind :
      (Q : A → Type 0) (m : Exec S A) (f : A → Exec S B)
      → Yields Q m
      → ((a : A) → Q a → Yields P (f a))
      → Yields P (m >>= f)
  Yields-bind Q m f hm hf = record {
    at = λ s. let (a, e, q) = hm.at s in let (b, e', h) = (hf a q).at (m s).1 in (b, rw e e', h);
  }
