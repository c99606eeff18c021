-- ===== src/Base/Effects.antt =====
-- Python calls that change a state and may raise. What was written before a raise stays written.
pub mod Ends
pub mod Leads
pub mod Post
pub mod Same
pub mod Yields
use somethingremotelygood.Base.Results.{Error, Result, ok, raised, stuck}

abbrev pub Exec {ℓ} : Type ℓ → Type ℓ → Type ℓ
Exec S A = S → Result A × S

module _ {ℓ} {S A : Type ℓ} where
  abbrev pub pure : A → Exec S A
  pure a s = (ok a, s)

  abbrev pub raise : Error → Exec S A
  raise e s = (raised e, s)

  abbrev pub lift : Result A → Exec S A
  lift r s = (r, s)

  abbrev pub gets : (S → A) → Exec S A
  gets f s = (ok (f s), s)

  -- `try: m  except Exception: h`
  abbrev rescue : Exec S A → Result A × S → Result A × S
  rescue h (ok a, s) = (ok a, s)
  rescue h (raised e, s) = h s
  rescue h (stuck, s) = (stuck, s)

  abbrev pub on_exception : Exec S A → Exec S A → Exec S A
  on_exception m h s = rescue h (m s)

abbrev pub modify : {S : Type 0} → (S → S) → Exec S (Unit {0})
modify f s = (ok tt, f s)

module _ {ℓ} {S A B : Type ℓ} where
  abbrev continue : Result A → (A → Exec S B) → Exec S B
  continue (ok a) f s = f a s
  continue (raised e) f s = (raised e, s)
  continue stuck f s = (stuck, s)

  infixl 5 ◌>>=◌ ◌>>◌
  abbrev pub ◌>>=◌ : Exec S A → (A → Exec S B) → Exec S B
  ◌>>=◌ m f s = let (r, s') = m s in continue r f s'

  abbrev pub ◌>>◌ : Exec S A → Exec S B → Exec S B
  m >> k = m >>= λ _. k
