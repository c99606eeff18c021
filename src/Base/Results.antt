-- ===== src/Base/Results.antt =====
-- Python calls that raise and change no state.
use mathlib.Core.Path.{◌≡◌, refl}
use mathlib.Core.Option.{Option, none, some}

-- The exceptions that the modelled code meets.
pub data Error : Type 0 where
  struct_error value_error index_error attribute_error serial_error socket_timeout socket_error
        runtime_error stop_iteration type_error key_error os_error json_error :
      Error

-- `stuck` is no Python value: a loop of the model ran out of fuel.
pub data Result {ℓ} (A : Type ℓ) : Type ℓ where
  ok : A → Result A
  raised : Error → Result A
  stuck : Result A

infixl 5 ◌>>=◌
abbrev pub ◌>>=◌ {ℓ κ} : {A : Type ℓ} {B : Type κ} → Result A → (A → Result B) → Result B
ok a >>= f = f a
raised e >>= f = raised e
stuck >>= f = stuck

-- The value of a call that returned.
abbrev pub returned {ℓ} : {A : Type ℓ} → Result A → Option A
returned (ok a) = some a
returned (raised e) = none
returned stuck = none

-- To split on a computed result and keep the equation.
pub data ResultCase {ℓ} {A : Type ℓ} (r : Result A) : Type ℓ where
  got : (a : A) × (r ≡ ok a) → ResultCase r
  failed : (e : Error) × (r ≡ raised e) → ResultCase r
  ran_out : r ≡ stuck → ResultCase r

pub Result-cases {ℓ} : {A : Type ℓ} (r : Result A) → ResultCase r
Result-cases (ok a) = got (a, refl)
Result-cases (raised e) = failed (e, refl)
Result-cases stuck = ran_out refl

-- If a chain of two calls returns, so does each of the two.
pub both_return {ℓ κ} :
    {A : Type ℓ} {B : Type κ} {out : B} (call : Result A) (next : A → Result B)
    → ◌≡◌ (call >>= next) (ok out)
    → (middle : A) × (next middle ≡ ok out) × (call ≡ ok middle)
both_return call next same = elim (Result-cases call) [
  | got (middle, e) ↦ (middle, rw e at same, e)
  | failed (x, e) ↦ (let never = rw e at same in cc)
  | ran_out e ↦ (let never = rw e at same in cc)
]
