-- ===== src/Base/Effects/Leads.antt =====
-- What holds of the value and the state after a call that returned.
use mathlib.Core.Path.{◌≡◌, refl, subst}
use mathlib.Core.Bool.{Bool, true, false}
use somethingremotelygood.Base.Tests.{if◌then◌else◌}
use somethingremotelygood.Base.Results.{Result, ok, got, failed, ran_out, Result-cases}
use somethingremotelygood.Base.Effects.{Exec, pure, modify, on_exception, ◌>>=◌}

pub record Leads {S A : Type 0} (P : S → Type 0) (Q : A → S → Type 0) (m : Exec S A) : Type 0 where
  pub at : (s : S) → P s → (a : A) → (m s).0 ≡ ok a → Q a (m s).1

module _ {S A : Type 0} {P : S → Type 0} {Q : A → S → Type 0} where
  pub Leads-pure : (a : A) → ((s : S) → P s → Q a s) → Leads P Q (pure a)
  Leads-pure a h = record { at = λ s p b e. subst (λ c. Q c s) (cc) (h s p) }

  pub Leads-if :
      (b : Bool) (m n : Exec S A) → Leads P Q m → Leads P Q n → Leads P Q (if b then m else n)
  Leads-if true m n hm hn = hm
  Leads-if false m n hm hn = hn

  -- one test of a loop
  pub Leads-while :
      (b : S → Bool) (m : Exec S A) (a : A)
      → Leads P Q m
      → ((s : S) → b s ≡ false → Q a s)
      → Leads P Q (λ s. elim (b s) [ false ↦ (ok a, s) | true ↦ m s ])
  Leads-while b m a hm ha = record { at = λ s p. tested s p (b s) refl }
    where
      tested :
          (s : S)
          → P s
          → (c : Bool) → b s ≡ c
          → (x : A)
          → (let r : Result A × S = elim c [ false ↦ (ok a, s) | true ↦ m s ] in
              r.0 ≡ ok x → Q x r.1)
      tested s p false e x q = subst (λ c. Q c s) (cc) (ha s e)
      tested s p true e x q = hm.at s p x q

  -- a handler that only returns a value
  pub Leads-on_exception :
      (m : Exec S A) (a : A) → Leads P Q m → ((s : S) → Q a s) → Leads P Q (on_exception m (pure a))
  Leads-on_exception m a hm ha = record {
    at = λ s p. elim (Result-cases (m s).0) [
      | got (r, e) ↦ rw e (λ b q. hm.at s p b (rw e q))
      | failed (x, e) ↦ rw e (λ b q. subst (λ c. Q c (m s).1) (cc) (ha (m s).1))
      | ran_out e ↦ rw e (λ b q. cc)
    ];
  }

pub Leads-modify :
    {S : Type 0} {P : S → Type 0} {Q : Unit {0} → S → Type 0} (f : S → S)
    → ((s : S) → P s → Q tt (f s))
    → Leads P Q (modify f)
Leads-modify f h = record { at = λ s p u e. h s p }

module _ {S A B : Type 0} {P : S → Type 0} {Q : B → S → Type 0} where
  pub Leads-bind :
      (R : A → S → Type 0) (m : Exec S A) (f : A → Exec S B)
      → Leads P R m
      → ((a : A) → Leads (R a) Q (f a))
      → Leads P Q (m >>= f)
  Leads-bind R m f hm hf = record {
    at = λ s p. elim (Result-cases (m s).0) [
      | got (a, e) ↦ rw e (λ b q. (hf a).at (m s).1 (hm.at s p a e) b q)
      | failed (x, e) ↦ rw e (λ b q. cc)
      | ran_out e ↦ rw e (λ b q. cc)
    ];
  }

  -- where nothing needs to be known of the first call
  pub Leads-then :
      (m : Exec S A) (f : A → Exec S B)
      → ((a : A) → Leads (λ s. Unit {0}) Q (f a))
      → Leads P Q (m >>= f)
  Leads-then m f hf = Leads-bind (λ a s. Unit {0}) m f (record { at = λ s p a e. tt }) hf
