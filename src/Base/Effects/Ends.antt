-- ===== src/Base/Effects/Ends.antt =====
-- Calls that come back: with a value or an exception, never out of fuel. One rule for each way to
-- build a call.
use mathlib.Core.Path.{◌≡◌}
use mathlib.Core.Logic.{◌≢◌}
use mathlib.Core.Bool.{Bool, true, false}
use somethingremotelygood.Base.Tests.{if◌then◌else◌}
use somethingremotelygood.Base.Results.{
  Error, Result, ok, stuck, got, failed, ran_out, Result-cases,
}
use somethingremotelygood.Base.Effects.{Exec, pure, raise, lift, gets, modify, on_exception, ◌>>=◌}

pub record Ends {S A : Type 0} (m : Exec S A) : Type 0 where
  pub at : (s : S) → (m s).0 ≢ stuck

module _ {S A : Type 0} where
  pub Ends-pure : (a : A) → Ends {S = S} (pure a)
  Ends-pure a = record { at = λ s h. cc }

  pub Ends-raise : (e : Error) → Ends {S = S} {A = A} (raise e)
  Ends-raise e = record { at = λ s h. cc }

  pub Ends-gets : (f : S → A) → Ends (gets f)
  Ends-gets f = record { at = λ s h. cc }

  pub Ends-lift : (r : Result A) → r ≢ stuck → Ends {S = S} (lift r)
  Ends-lift r h = record { at = λ s. h }

  pub Ends-if : (b : Bool) (m n : Exec S A) → Ends m → Ends n → Ends (if b then m else n)
  Ends-if true m n km kn = km
  Ends-if false m n km kn = kn

pub Ends-modify : {S : Type 0} (f : S → S) → Ends (modify f)
Ends-modify f = record { at = λ s h. cc }

module _ {S A B : Type 0} where
  -- the rest of a block, where it is known what the first call did at one state
  pub bind-ends :
      (m : Exec S A) (f : A → Exec S B) (s : S)
      → (m s).0 ≢ stuck
      → ((a : A) → (m s).0 ≡ ok a → (f a (m s).1).0 ≢ stuck)
      → ((m >>= f) s).0 ≢ stuck
  bind-ends m f s hm hf = elim (Result-cases (m s).0) [
    | got (a, e) ↦ rw e (hf a e)
    | failed (x, e) ↦ rw e (λ q. cc)
    | ran_out e ↦ absurd (hm e)
  ]

  pub Ends-bind :
      (m : Exec S A) (f : A → Exec S B) → Ends m → ((a : A) → Ends (f a)) → Ends (m >>= f)
  Ends-bind m f hm hf = record { at = λ s. bind-ends m f s (hm.at s) (λ a e. (hf a).at (m s).1) }

module _ {S A : Type 0} where
  -- a handler that returns makes the whole call return a value
  pub on_exception-returns :
      (m : Exec S A) (a : A) (s : S)
      → (m s).0 ≢ stuck
      → (r : A) × ((on_exception m (pure a) s).0 ≡ ok r)
  on_exception-returns m a s h = elim (Result-cases (m s).0) [
    | got (r, e) ↦ (r, rw e)
    | failed (x, e) ↦ (a, rw e)
    | ran_out e ↦ absurd (h e)
  ]

pub ruleset ends_rules = (Ends-pure, Ends-raise, Ends-gets, Ends-if, Ends-modify, Ends-bind)
