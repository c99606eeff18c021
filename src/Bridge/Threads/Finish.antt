-- ===== src/Bridge/Threads/Finish.antt =====
-- The thread that has `serial_lock` gives it back.
use somethingremotelygood.Base.{
  ℕ, Bool, true, false, Option, none, some, List, [], ◌∷◌, Bytes, Result, ok, raised, stuck, ◌≡◌,
  ◌≢◌, refl,
}
use somethingremotelygood.Base.Effects.Ends.{Ends}
use somethingremotelygood.Port.{Port}
use somethingremotelygood.Port.Laws.{Progress}
use somethingremotelygood.Bridge.Object.{Bridge}
use somethingremotelygood.Bridge.Blobs.{create_failure}
use somethingremotelygood.Bridge.Link.{send_to_esp32, recv_from_esp32}
use somethingremotelygood.Bridge.Link.Bounds.{IsSmall, recv-IsSmall}
use somethingremotelygood.Bridge.Link.Returns.{recv_returns, send_returns}
use somethingremotelygood.Bridge.Replies.Bounds.{identities_reply-IsReply, signature_reply-IsReply}
use somethingremotelygood.Bridge.Dispatch.Outcomes.{
  unlock-Yields, lock-Yields, identities-Yields, Yields-Ends, Ends-sign_request,
}
use somethingremotelygood.Bridge.Threads.{
  Request, unlock_call, lock_call, identities_call, sign_call, wait_of, answer_of, Stage, idle,
  asking, sending, receiving, hanging, done, System, put, after_send, after_receive, advance_at,
  Event, advance, step, run_threads, start,
}
use somethingremotelygood.Bridge.Threads.Serve.{serve}
use somethingremotelygood.Bridge.Threads.Invariant.{Serial, put_self}
use somethingremotelygood.Bridge.Threads.Order.{held-Within, run_threads-Serial}

-- The thread has its reply or its exception and nobody has the lock.
abbrev pub IsFinished : {p : Port} → ℕ → System p → Type 0
IsFinished i s = (s.holder ≡ none) × (x : Result Bytes) × (s.stage i ≡ done x) × (x ≢ stuck)

answer_of_ends :
    (r : Request) (result : Option (ℕ × Bytes)) → IsSmall result → answer_of r result ≢ stuck
answer_of_ends (unlock_call password) result small = λ q. cc
answer_of_ends lock_call result small = λ q. cc
answer_of_ends identities_call result small =
    let (b, e, _) = identities_reply-IsReply result small in λ q. cc (e)
answer_of_ends (sign_call key_blob sign_data flags) result small =
    let (b, e, _) = signature_reply-IsReply result small in λ q. cc (e)

module _ {p : Port} (w : Progress p) where
  Ends-serve : (r : Request) → Ends {S = Bridge p} (serve r)
  Ends-serve (unlock_call password) = Yields-Ends w _ (unlock-Yields w password)
  Ends-serve lock_call = Yields-Ends w _ (lock-Yields w)
  Ends-serve identities_call = Yields-Ends w _ (identities-Yields w)
  Ends-serve (sign_call key_blob sign_data flags) = Ends-sign_request w key_blob sign_data flags

  received-IsFinished :
      (i : ℕ) (f : ℕ → Stage) (r : Request) (x : Result (Option (ℕ × Bytes)) × Bridge p)
      (result : Option (ℕ × Bytes))
      → x.0 ≡ ok result
      → IsSmall result
      → IsFinished i (after_receive i r f x)
  received-IsFinished i f r (ok result', b) result e small =
      let same : result' ≡ result = cc in
      (refl, answer_of r result', put_self i _ f, answer_of_ends r result' (rw same small))
  received-IsFinished i f r (raised y, b) result e small = absurd cc
  received-IsFinished i f r (stuck, b) result e small = absurd cc

  receive-IsFinished :
      (i : ℕ) (f : ℕ → Stage) (r : Request) (b : Bridge p)
      → IsFinished i (after_receive i r f (recv_from_esp32 (wait_of r) b))
  receive-IsFinished i f r b =
      let (result, e) = recv_returns w (wait_of r) b in
      received-IsFinished i f r _ result e (recv-IsSmall w (wait_of r) b result e)

  -- a thread that is finished does nothing more
  advance-IsFinished : (i : ℕ) (s : System p) → IsFinished i s → IsFinished i (step (advance i) s)
  unfolding step
  advance-IsFinished i s (h, x, e, n) = rw e (unfold advance_at in (h, x, e, n))

  sent-IsFinished :
      (i : ℕ) (f : ℕ → Stage) (r : Request) (x : Result Bool × Bridge p)
      → x.0 ≢ stuck
      → IsFinished i (step (advance i) (after_send i r f x))
  unfolding step
  sent-IsFinished i f r (ok true, b) n =
      rw (put_self i (receiving r) f)
        (unfold advance_at in receive-IsFinished i (put i (receiving r) f) r b)
  sent-IsFinished i f r (ok false, b) n =
      advance-IsFinished i (after_send i r f (ok false, b))
        (refl, ok create_failure, put_self i _ f, λ q. cc)
  sent-IsFinished i f r (raised e, b) n =
      advance-IsFinished i (after_send i r f (raised e, b))
        (refl, raised e, put_self i _ f, λ q. cc)
  sent-IsFinished i f r (stuck, b) n = absurd (n refl)

  advance_at-IsFinished :
      (first : Bridge p) (s : System p) (c : Serial first s) (i : ℕ) (st : Stage)
      → s.holder ≡ some i
      → s.stage i ≡ st
      → IsFinished i (step (advance i) (advance_at i st s))
  unfolding advance_at
  advance_at-IsFinished first s c i idle h e = absurd (held-Within s c i idle e h)
  advance_at-IsFinished first s c i (asking r message) h e =
      absurd (held-Within s c i (asking r message) e h)
  advance_at-IsFinished first s c i (done x) h e = absurd (held-Within s c i (done x) e h)
  advance_at-IsFinished first s c i hanging h e =
      let (r, q) = held-Within s c i hanging e h in absurd ((Ends-serve r).at c.base (rw q refl))
  advance_at-IsFinished first s c i (sending r message) h e =
      let (sent, q) = send_returns w message.0 message.1 s.bridge in
      sent-IsFinished i s.stage r (send_to_esp32 message.0 message.1 s.bridge) (λ k. cc (q))
  advance_at-IsFinished first s c i (receiving r) h e =
      advance-IsFinished i _ (receive-IsFinished i s.stage r s.bridge)

-- Over a port whose clock moves on and whose calls come back: whatever the threads have done before,
-- the one that has the lock has given it back after two more of its steps, and has its reply or its
-- exception.
pub holder-IsFinished :
    {p : Port} (w : Progress p) (first : Bridge p) (events : List Event) (i : ℕ)
    → (run_threads events (start first)).holder ≡ some i
    → IsFinished i (run_threads (advance i ∷ advance i ∷ []) (run_threads events (start first)))
unfolding run_threads step
holder-IsFinished w first events i h =
    let s = run_threads events (start first) in
    advance_at-IsFinished w first s (run_threads-Serial first events) i (s.stage i) h refl
