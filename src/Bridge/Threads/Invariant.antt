-- ===== src/Bridge/Threads/Invariant.antt =====
-- What holds of the threads after any schedule.
use somethingremotelygood.Base.{
  ℕ, true, false, Option, none, some, List, [], ◌∷◌, Bytes, Result, ok, stuck, ◌≡◌, ◌≢◌, ◌⊎◌, inl,
  inr, refl, ap, arith, ◌==◌, Bool-cases,
}
use somethingremotelygood.Port.{Port}
use somethingremotelygood.Bridge.Object.{Bridge}
use somethingremotelygood.Bridge.Link.{send_to_esp32}
use somethingremotelygood.Bridge.Threads.{
  Request, message_of, Stage, idle, asking, sending, receiving, hanging, done, System, put,
}
use somethingremotelygood.Bridge.Threads.Serve.{serve}

-- A call that has come to its end.
pub record Call : Type 0 where
  pub thread : ℕ
  pub request : Request
  pub reply : Result Bytes

-- The calls one after the other, the latest first, each from the bridge that the one before it left.
abbrev pub Served : {p : Port} → List Call → Bridge p → Bridge p → Type 0
Served [] b b' = b ≡ b'
Served {p = p} (c ∷ cs) b b' =
    (middle : Bridge p) × Served cs b middle × (serve c.request middle ≡ (c.reply, b'))

abbrev pub Answered : ℕ → Result Bytes → List Call → Type 0
Answered i x [] = ⊥
Answered i x (c ∷ cs) = ((c.thread ≡ i) × (c.reply ≡ x)) ⊎ Answered i x cs

-- What a thread's stage says: only the holder of the lock is between taking and releasing it, and a
-- reply is that of a call of this thread which came to its end.
abbrev pub Fits : Option ℕ → List Call → ℕ → Stage → Type 0
Fits holder log i idle = Unit {0}
Fits holder log i (asking r message) = message_of r ≡ ok message
Fits holder log i (sending r message) = (holder ≡ some i) × (message_of r ≡ ok message)
Fits holder log i (receiving r) = holder ≡ some i
Fits holder log i hanging = holder ≡ some i
Fits holder log i (done x) = Answered i x log

-- The bridge in the middle of the call of the thread that holds the lock.
abbrev pub Within : {p : Port} → Stage → Bridge p → Bridge p → Type 0
Within (sending r message) base b = base ≡ b
Within (receiving r) base b =
    (message : ℕ × Bytes) × (message_of r ≡ ok message)
    × (send_to_esp32 message.0 message.1 base ≡ (ok true, b))
Within hanging base b = (r : Request) × (serve r base ≡ (stuck, b))
Within _ base b = ⊥

-- Without a holder the bridge is as the calls left it.
abbrev pub Between : {p : Port} → Option ℕ → (ℕ → Stage) → Bridge p → Bridge p → Type 0
Between none stage base b = base ≡ b
Between (some i) stage base b = Within (stage i) base b

pub record Serial {p : Port} (first : Bridge p) (s : System p) : Type 0 where
  pub log : List Call
  pub base : Bridge p
  pub in_order : Served log first base
  pub between : Between s.holder s.stage base s.bridge
  pub fits : (i : ℕ) → Fits s.holder log i (s.stage i)

pub put_self : (i : ℕ) (st : Stage) (f : ℕ → Stage) → put i st f i ≡ st
put_self i st f = ground arith

pub put_other : (i j : ℕ) (st : Stage) (f : ℕ → Stage) → (j == i) ≡ false → put i st f j ≡ f j
put_other i j st f h = rw h refl

module _ (i : ℕ) (log : List Call) where
  -- another thread's stage, when this one takes or releases the lock or comes to an end
  Fits-other :
      (h h' : Option ℕ) (log' : List Call) (j : ℕ) (st : Stage)
      → (h ≡ some j → h' ≡ some j)
      → ((x : Result Bytes) → Answered j x log → Answered j x log')
      → Fits h log j st
      → Fits h' log' j st
  Fits-other h h' log' j idle k g f = tt
  Fits-other h h' log' j (asking r message) k g f = f
  Fits-other h h' log' j (sending r message) k g f = (k f.0, f.1)
  Fits-other h h' log' j (receiving r) k g f = k f
  Fits-other h h' log' j hanging k g f = k f
  Fits-other h h' log' j (done x) k g f = g x f

  pub Fits-put :
      (h h' : Option ℕ) (log' : List Call) (st : Stage) (f : ℕ → Stage)
      → ((j : ℕ) → (j == i) ≡ false → h ≡ some j → h' ≡ some j)
      → ((j : ℕ) (x : Result Bytes) → Answered j x log → Answered j x log')
      → Fits h' log' i st
      → ((j : ℕ) → Fits h log j (f j))
      → (j : ℕ) → Fits h' log' j (put i st f j)
  Fits-put h h' log' st f k g own all j = elim (Bool-cases (j == i)) [
    | inl e ↦ (let same : j ≡ i = ground arith in rw (same, put_self i st f) own)
    | inr e ↦ rw (put_other i j st f e) (Fits-other h h' log' j (f j) (k j e) (g j) (all j))
  ]

module _ {p : Port} where
  pub Between-put :
      (h : Option ℕ) (i : ℕ) (st : Stage) (f : ℕ → Stage) (base b : Bridge p)
      → h ≢ some i
      → Between h f base b
      → Between h (put i st f) base b
  Between-put none i st f base b free k = k
  Between-put (some j) i st f base b free k = elim (Bool-cases (j == i)) [
    | inl e ↦ absurd (free (ap some (ground arith)))
    | inr e ↦ rw (put_other i j st f e) k
  ]
