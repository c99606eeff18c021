-- ===== src/Bridge/Process/Ending.antt =====
-- The loop of the server ends when a signal comes at last.
use somethingremotelygood.Base.{
  ℕ, zero, suc, ◌≤◌, true, false, Option, none, Exec, ok, stuck, ◌≡◌, ◌≢◌, ap, ◌∙◌, inl, inr, arith,
  Bool-cases, got, failed, ran_out, Result-cases,
}
use somethingremotelygood.Base.Effects.Ends.{Ends, Ends-pure, Ends-bind}
use somethingremotelygood.Base.Effects.{pure, ◌>>=◌}
use somethingremotelygood.Port.{Port}
use somethingremotelygood.Bridge.Process.{
  Unix, Server, wait, on_world, accept_thread, accept_round, after_round, accept_loop,
}
use somethingremotelygood.Bridge.Process.Stop.{EndCalls}
use somethingremotelygood.Bridge.Process.Signals.{
  accept_loop_running, accept_loop_signalled, quiet_accept, quiet_running, quiet_round,
}

-- A signal comes after `due w` calls of `accept` at most; `accept`, which has a time-out, comes back,
-- and so do the calls for a client.
pub record SignalComes {p : Port} (u : Unix p) : Type 0 where
  pub due : u.World → ℕ
  pub comes : (w : u.World) → due w ≡ 0 → u.signalled w ≡ true
  pub nears : (w : u.World) (k : ℕ) → due w ≤ suc k → due (u.accept w).1 ≤ k
  pub timeout_keeps :
      (c : u.Client) (n : ℕ) (w : u.World) → due (u.set_client_timeout c n w).1 ≤ due w
  pub thread_keeps : (c : u.Client) (w : u.World) → due (u.start_thread c w).1 ≤ due w
  pub accept_ends : (w : u.World) → (u.accept w).0 ≢ stuck
  pub timeout_ends : (c : u.Client) (n : ℕ) (w : u.World) → (u.set_client_timeout c n w).0 ≢ stuck
  pub thread_ends : (c : u.Client) (w : u.World) → (u.start_thread c w).0 ≢ stuck

module _ {p : Port} {u : Unix p} (h : SignalComes u) where
  -- a call that leaves the signal at most `k` calls away, from at most `j`
  record Nears (j k : ℕ) {A : Type 0} (m : Exec (Server p u) A) : Type 0 where
    pub at : (s : Server p u) → h.due s.world ≤ j → h.due (m s).1.world ≤ k

  Nears-pure : {A : Type 0} (k : ℕ) (a : A) → Nears k k (pure a)
  Nears-pure k a = record { at = λ s le. le }

  Nears-bind :
      {A B : Type 0} (j k : ℕ) (m : Exec (Server p u) A) (f : A → Exec (Server p u) B)
      → Nears j k m
      → ((a : A) → Nears k k (f a))
      → Nears j k (m >>= f)
  Nears-bind j k m f hm hf = record {
    at = λ s le. elim (Result-cases (m s).0) [
      | got (a, e) ↦ rw e ((hf a).at (m s).1 (hm.at s le))
      | failed (x, e) ↦ rw e (hm.at s le)
      | ran_out e ↦ rw e (hm.at s le)
    ];
  }

  Nears-accept_thread : (k : ℕ) → Nears (suc k) k (accept_thread {u = u})
  unfolding accept_thread
  Nears-accept_thread k =
      Nears-bind _ _ (on_world u.accept) _ (record { at = λ s le. h.nears s.world k le })
        λ client.
          Nears-bind _ _ (on_world (u.set_client_timeout client 30000)) _
            (record { at = λ s le. omega (arith, le, h.timeout_keeps client 30000 s.world) })
            λ _.
              Nears-bind _ _ (on_world (u.start_thread client)) _
                (record { at = λ s le. omega (arith, le, h.thread_keeps client s.world) })
                λ _. Nears-pure k none

  Ends-accept_thread : Ends (accept_thread {u = u})
  unfolding accept_thread
  Ends-accept_thread =
      Ends-bind (on_world u.accept) _ (record { at = λ s. h.accept_ends s.world })
        λ client.
          Ends-bind (on_world (u.set_client_timeout client 30000)) _
            (record { at = λ s. h.timeout_ends client 30000 s.world })
            λ _.
              Ends-bind (on_world (u.start_thread client)) _
                (record { at = λ s. h.thread_ends client s.world }) λ _. Ends-pure none

  quiet_nears :
      (k : ℕ) (s : Server p u)
      → u.signalled s.world ≡ false
      → h.due s.world ≤ suc k
      → h.due (accept_round s).1.world ≤ k
  quiet_nears k s e le =
      let near = (Nears-accept_thread k).at (wait s) le in
      elim (Result-cases (accept_thread (wait s)).0) [
        | got (left, q) ↦ rw (quiet_accept s e, q) near
        | failed (x, q) ↦ rw (quiet_accept s e, q) near
        | ran_out q ↦ absurd (Ends-accept_thread.at (wait s) q)
      ]

  not_due : (s : Server p u) → u.signalled s.world ≡ false → h.due s.world ≤ 0 → ⊥
  not_due s e le =
      let none_left : h.due s.world ≡ 0 = omega (arith, le) in
      let now = h.comes s.world none_left in cc

  -- The loop of a running bridge that is signalled after at most `n` calls of `accept` ends within
  -- `n + 2` rounds, with an exit or a return, when `accept`, the calls for a client and those of an end
  -- come back.
  pub accept_loop_ends :
      (calls : EndCalls u) (n : ℕ) (s : Server p u)
      → s.bridge.running ≡ true
      → h.due s.world ≤ n
      → (left : Option ℕ) × ((accept_loop (suc (suc n)) s).0 ≡ ok left)
  unfolding after_round
  accept_loop_ends calls zero s e le = elim (Bool-cases (u.signalled s.world)) [
    | inl q ↦ accept_loop_signalled calls zero s e q
    | inr q ↦ absurd (not_due s q le)
  ]
  accept_loop_ends calls (suc m) s e le = elim (Bool-cases (u.signalled s.world)) [
    | inl q ↦ accept_loop_signalled calls (suc m) s e q
    | inr q ↦ elim (quiet_round s q) [
      | inr (r, ran_out_of) ↦ absurd (Ends-accept_thread.at (wait s) ran_out_of)
      | inl r ↦
          let (left, rest) =
            accept_loop_ends calls m (accept_round s).1 (quiet_running s q ∙ e)
              (quiet_nears m s q le) in
          (left, ap (λ x. x.0) (accept_loop_running (suc (suc m)) s e) ∙ rw r rest)
    ]
  ]
