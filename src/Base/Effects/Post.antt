-- ===== src/Base/Effects/Post.antt =====
-- Postconditions of calls that return a value, one rule for each way to build a call.
use mathlib.Core.Path.{◌≡◌, refl, subst}
use mathlib.Core.Bool.{Bool, true, false}
use somethingremotelygood.Base.Tests.{if◌then◌else◌}
use somethingremotelygood.Base.Results.{Error, ok, got, failed, ran_out, Result-cases}
use somethingremotelygood.Base.Effects.{Exec, pure, raise, on_exception, ◌>>=◌}

-- Every value that `m` returns satisfies `P`.
pub record Post {S A : Type 0} (P : A → Type 0) (m : Exec S A) : Type 0 where
  pub at : (s : S) (a : A) → (m s).0 ≡ ok a → P a

module _ {S A : Type 0} {P : A → Type 0} where
  pub Post-pure : (a : A) → P a → Post {S = S} P (pure a)
  Post-pure a h = record { at = λ s b e. subst P (cc) h }

  pub Post-raise : (e : Error) → Post {S = S} P (raise e)
  Post-raise e = record { at = λ s b h. cc }

  pub Post-if :
      (b : Bool) (m n : Exec S A)
      → (b ≡ true → Post P m)
      → (b ≡ false → Post P n)
      → Post P (if b then m else n)
  Post-if true m n km kn = km refl
  Post-if false m n km kn = kn refl

  pub Post-on_exception : (m : Exec S A) (a : A) → Post P m → P a → Post P (on_exception m (pure a))
  Post-on_exception m a hm ha = record {
    at = λ s. elim (Result-cases (m s).0) [
      | got (r, e) ↦ rw e (λ b q. hm.at s b (rw e q))
      | failed (x, e) ↦ rw e (λ b q. subst P (cc) ha)
      | ran_out e ↦ rw e (λ b q. cc)
    ];
  }

module _ {S A B : Type 0} {P : B → Type 0} where
  pub Post-bind :
      (Q : A → Type 0) (m : Exec S A) (f : A → Exec S B)
      → Post Q m
      → ((a : A) → Q a → Post P (f a))
      → Post P (m >>= f)
  Post-bind Q m f hm hf = record {
    at = λ s. elim (Result-cases (m s).0) [
      | got (a, e) ↦ rw e (λ b q. (hf a (hm.at s a e)).at (m s).1 b q)
      | failed (x, e) ↦ rw e (λ b q. cc)
      | ran_out e ↦ rw e (λ b q. cc)
    ];
  }

  -- where nothing needs to be known of the first call
  pub Post-then : (m : Exec S A) (f : A → Exec S B) → ((a : A) → Post P (f a)) → Post P (m >>= f)
  Post-then m f hf = Post-bind (λ a. Unit {0}) m f (record { at = λ s a e. tt }) (λ a q. hf a)
