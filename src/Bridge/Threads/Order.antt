-- ===== src/Bridge/Threads/Order.antt =====
-- The threads serve one request after the other.
use somethingremotelygood.Base.{
  ℕ, Bool, true, false, Option, none, some, List, [], ◌∷◌, Bytes, Result, ok, raised, stuck, ◌≡◌,
  ◌≢◌, inl, inr, refl, sym, ◌∙◌, arith, Result-cases, got, failed, ran_out,
}
use somethingremotelygood.Port.{Port}
use somethingremotelygood.Bridge.Object.{Bridge}
use somethingremotelygood.Bridge.Blobs.{create_failure}
use somethingremotelygood.Bridge.Link.{send_to_esp32, recv_from_esp32}
use somethingremotelygood.Bridge.Threads.{
  Request, message_of, wait_of, answer_of, Stage, idle, asking, sending, receiving, hanging, done,
  System, put, begin, submit_at, after_send, after_receive, take_lock, advance_at, Event, submit,
  advance, step, run_threads, start,
}
use somethingremotelygood.Bridge.Threads.Serve.{serve, serve-parts, serve_raised, serve_stuck}
use somethingremotelygood.Bridge.Threads.Invariant.{Within, Serial, put_self, Fits-put, Between-put}

module _ {p : Port} {first : Bridge p} where
  -- a call comes to its end and the lock is released
  Serial-finish :
      (s : System p) (c : Serial first s) (i : ℕ) (r : Request) (x : Result Bytes) (b : Bridge p)
      → s.holder ≡ some i
      → serve r c.base ≡ (x, b)
      → Serial first (record { bridge = b; holder = none; stage = put i (done x) s.stage })
  Serial-finish s c i r x b h e = record {
    log = record { thread = i; request = r; reply = x } ∷ c.log;
    base = b;
    in_order = (c.base, c.in_order, e);
    between = refl;
    fits =
        Fits-put i c.log s.holder none (record { thread = i; request = r; reply = x } ∷ c.log)
          (done x) s.stage (λ j apart q. ground (arith, sym h ∙ q)) (λ j y q. inr q)
          (inl (refl, refl)) c.fits;
  }

  -- a call does not return and the lock is kept
  Serial-hang :
      (s : System p) (c : Serial first s) (i : ℕ) (r : Request) (b : Bridge p)
      → s.holder ≡ some i
      → serve r c.base ≡ (stuck, b)
      → Serial first (record { bridge = b; holder = some i; stage = put i hanging s.stage })
  Serial-hang s c i r b h e = record {
    log = c.log;
    base = c.base;
    in_order = c.in_order;
    between = rw (put_self i hanging s.stage) (r, e);
    fits =
        Fits-put i c.log s.holder (some i) c.log hanging s.stage (λ j apart t. sym h ∙ t)
          (λ j y t. t) refl c.fits;
  }

  -- a call begins at a thread that is not in the middle of another
  Serial-begin :
      (s : System p) (c : Serial first s) (i : ℕ) (r : Request)
      → s.holder ≢ some i
      → Serial first (record s { stage = put i (begin r (message_of r)) s.stage })
  Serial-begin s c i r free = elim (Result-cases (message_of r)) [
    | got (message, e) ↦ rw e (record {
      log = c.log;
      base = c.base;
      in_order = c.in_order;
      between = Between-put s.holder i (asking r message) s.stage c.base s.bridge free c.between;
      fits =
          Fits-put i c.log s.holder s.holder c.log (asking r message) s.stage (λ j apart q. q)
            (λ j y q. q) e c.fits;
    })
    | failed (x, e) ↦ rw e (failed_at (raised x) (serve_raised r x c.base e))
    | ran_out e ↦ rw e (failed_at stuck (serve_stuck r c.base e))
  ]
    where
      failed_at :
          (x : Result Bytes)
          → serve r c.base ≡ (x, c.base)
          → Serial first (record s { stage = put i (done x) s.stage })
      failed_at x e = record {
        log = record { thread = i; request = r; reply = x } ∷ c.log;
        base = c.base;
        in_order = (c.base, c.in_order, e);
        between = Between-put s.holder i (done x) s.stage c.base s.bridge free c.between;
        fits =
            Fits-put i c.log s.holder s.holder
              (record { thread = i; request = r; reply = x } ∷ c.log) (done x) s.stage
              (λ j apart q. q) (λ j y q. inr q) (inl (refl, refl)) c.fits;
      }

  -- the steps of the thread whose stage is given
  Serial-take_lock :
      (s : System p) (c : Serial first s) (i : ℕ) (r : Request) (message : ℕ × Bytes) (h : Option ℕ)
      → s.holder ≡ h
      → message_of r ≡ ok message
      → Serial first (take_lock i r message h s)
  Serial-take_lock s c i r message (some j) e k = c
  Serial-take_lock s c i r message none e k = record {
    log = c.log;
    base = c.base;
    in_order = c.in_order;
    between = rw (put_self i (sending r message) s.stage) (rw e at c.between);
    fits =
        Fits-put i c.log s.holder (some i) c.log (sending r message) s.stage
          (λ j apart q. absurd (none_held j (sym e ∙ q))) (λ j y q. q) (refl, k) c.fits;
  }
    where
      none_held : (j : ℕ) → ◌≡◌ {A = Option ℕ} none (some j) → ⊥
      none_held j q = cc

  Serial-after_send :
      (s : System p) (c : Serial first s) (i : ℕ) (r : Request) (message : ℕ × Bytes)
      (x : Result Bool × Bridge p)
      → s.holder ≡ some i
      → message_of r ≡ ok message
      → c.base ≡ s.bridge
      → send_to_esp32 message.0 message.1 s.bridge ≡ x
      → Serial first (after_send i r s.stage x)
  Serial-after_send s c i r message (ok true, b) h k e q = record {
    log = c.log;
    base = c.base;
    in_order = c.in_order;
    between = rw (put_self i (receiving r) s.stage) (message, k, rw e q);
    fits =
        Fits-put i c.log s.holder (some i) c.log (receiving r) s.stage (λ j apart t. sym h ∙ t)
          (λ j y t. t) refl c.fits;
  }
  Serial-after_send s c i r message (ok false, b) h k e q =
      Serial-finish s c i r (ok create_failure) b h (serve-parts r c.base ∙ rw (k, e, q) refl)
  Serial-after_send s c i r message (raised x, b) h k e q =
      Serial-finish s c i r (raised x) b h (serve-parts r c.base ∙ rw (k, e, q) refl)
  Serial-after_send s c i r message (stuck, b) h k e q =
      Serial-hang s c i r b h (serve-parts r c.base ∙ rw (k, e, q) refl)

  Serial-after_receive :
      (s : System p) (c : Serial first s) (i : ℕ) (r : Request)
      (x : Result (Option (ℕ × Bytes)) × Bridge p)
      → s.holder ≡ some i
      → Within (receiving r) c.base s.bridge
      → recv_from_esp32 (wait_of r) s.bridge ≡ x
      → Serial first (after_receive i r s.stage x)
  Serial-after_receive s c i r (ok result, b) h (message, k, e) q =
      Serial-finish s c i r (answer_of r result) b h (serve-parts r c.base ∙ rw (k, e, q) refl)
  Serial-after_receive s c i r (raised x, b) h (message, k, e) q =
      Serial-finish s c i r (raised x) b h (serve-parts r c.base ∙ rw (k, e, q) refl)
  Serial-after_receive s c i r (stuck, b) h (message, k, e) q =
      Serial-hang s c i r b h (serve-parts r c.base ∙ rw (k, e, q) refl)

  -- what the holder's stage says of the bridge
  pub held-Within :
      (s : System p) (c : Serial first s) (i : ℕ) (st : Stage)
      → s.stage i ≡ st
      → s.holder ≡ some i
      → Within st c.base s.bridge
  held-Within s c i st e h = rw e at (rw h at c.between)

  Serial-advance_at :
      (s : System p) (c : Serial first s) (i : ℕ) (st : Stage)
      → s.stage i ≡ st
      → Serial first (advance_at i st s)
  unfolding advance_at
  Serial-advance_at s c i idle e = c
  Serial-advance_at s c i (asking r message) e =
      Serial-take_lock s c i r message s.holder refl (rw e at (c.fits i))
  Serial-advance_at s c i (sending r message) e =
      let (h, k) = rw e at (c.fits i) in
      Serial-after_send s c i r message _ h k (held-Within s c i (sending r message) e h) refl
  Serial-advance_at s c i (receiving r) e =
      let h = rw e at (c.fits i) in
      Serial-after_receive s c i r _ h (held-Within s c i (receiving r) e h) refl
  Serial-advance_at s c i hanging e = c
  Serial-advance_at s c i (done x) e = c

  Serial-submit_at :
      (s : System p) (c : Serial first s) (i : ℕ) (r : Request) (st : Stage)
      → s.stage i ≡ st
      → Serial first (submit_at i r st s)
  unfolding submit_at
  Serial-submit_at s c i r idle e = Serial-begin s c i r (λ h. held-Within s c i idle e h)
  Serial-submit_at s c i r (done x) e = Serial-begin s c i r (λ h. held-Within s c i (done x) e h)
  Serial-submit_at s c i r (asking q message) e = c
  Serial-submit_at s c i r (sending q message) e = c
  Serial-submit_at s c i r (receiving q) e = c
  Serial-submit_at s c i r hanging e = c

  Serial-step : (e : Event) (s : System p) → Serial first s → Serial first (step e s)
  unfolding step
  Serial-step (submit i r) s c = Serial-submit_at s c i r (s.stage i) refl
  Serial-step (advance i) s c = Serial-advance_at s c i (s.stage i) refl

  Serial-from : (es : List Event) (s : System p) → Serial first s → Serial first (run_threads es s)
  unfolding run_threads
  Serial-from [] s c = c
  Serial-from (e ∷ es) s c = Serial-from es (step e s) (Serial-step e s c)

-- However the threads of the clients are interleaved, the bridge has served the calls that came to
-- their end one after the other, each as the whole method would alone; a thread's reply is that of
-- such a call; and the bridge is as they left it, but for the packet that the holder of the lock
-- has sent.
pub run_threads-Serial :
    {p : Port} (first : Bridge p) (events : List Event)
    → Serial first (run_threads events (start first))
run_threads-Serial first events =
    Serial-from events (start first)
      (record { log = []; base = first; in_order = refl; between = refl; fits = λ i. tt })
