-- ===== src/Base/Effects/Same.antt =====
-- Calls that leave something of the state as it was, one rule for each way to build a call.
use mathlib.Core.Path.{◌≡◌, refl, ◌∙◌}
use mathlib.Core.Bool.{Bool, true, false}
use somethingremotelygood.Base.Tests.{if◌then◌else◌}
use somethingremotelygood.Base.Results.{Result, got, failed, ran_out, Result-cases}
use somethingremotelygood.Base.Effects.{Exec, pure, lift, gets, ◌>>=◌}

-- What `size` gives is the same after the call, whether it returns or raises.
pub record Same {W N A : Type 0} (size : W → N) (m : Exec W A) : Type 0 where
  pub at : (w : W) → size (m w).1 ≡ size w

module _ {W N A : Type 0} {size : W → N} where
  pub Same-pure : (x : A) → Same size (pure x)
  Same-pure x = record { at = λ w. refl }

  pub Same-lift : (r : Result A) → Same size (lift r)
  Same-lift r = record { at = λ w. refl }

  pub Same-gets : (f : W → A) → Same size (gets f)
  Same-gets f = record { at = λ w. refl }

  pub Same-if :
      (b : Bool) (m k : Exec W A) → Same size m → Same size k → Same size (if b then m else k)
  Same-if true m k hm hk = hm
  Same-if false m k hm hk = hk

module _ {W N A B : Type 0} {size : W → N} where
  pub Same-bind :
      (m : Exec W A) (f : A → Exec W B)
      → Same size m
      → ((x : A) → Same size (f x))
      → Same size (m >>= f)
  Same-bind m f hm hf = record {
    at = λ w. elim (Result-cases (m w).0) [
      | got (x, e) ↦ rw e ((hf x).at (m w).1 ∙ hm.at w)
      | failed (x, e) ↦ rw e (hm.at w)
      | ran_out e ↦ rw e (hm.at w)
    ];
  }
