-- ===== src/Bridge/Process/Signals.antt =====
-- The loop of the server while no signal comes, and when one comes.
use somethingremotelygood.Base.{
  ℕ, zero, suc, Bool, true, false, Option, none, some, Exec, Result, ok, stuck, ◌≡◌, refl, ap, ◌∙◌,
  ◌⊎◌, inl, inr, Bool-cases, Option-cases, got, failed, ran_out, Result-cases,
}
use somethingremotelygood.Base.Effects.Ends.{Ends, Ends-pure, Ends-bind, Ends-modify}
use somethingremotelygood.Base.Effects.Same.{Same, Same-pure, Same-bind}
use somethingremotelygood.Base.Effects.Post.{Post, Post-pure, Post-then}
use somethingremotelygood.Base.Effects.{pure, on_exception, ◌>>=◌}
use somethingremotelygood.Port.{Port}
use somethingremotelygood.Bridge.Process.{
  Unix, Server, wait, on_world, on_bridge, remove_socket, close_serial, shutdown, accept_client,
  accept_thread, accept_round, after_round, accept_loop,
}
use somethingremotelygood.Bridge.Process.Stop.{EndCalls}

module _ {p : Port} {u : Unix p} where
  -- a call after which the bridge does not run, whatever its result
  record Quits {A : Type 0} (m : Exec (Server p u) A) : Type 0 where
    pub at : (s : Server p u) → s.bridge.running ≡ false → (m s).1.bridge.running ≡ false

  Quits-bind :
      {A B : Type 0} (m : Exec (Server p u) A) (f : A → Exec (Server p u) B)
      → Quits m
      → ((a : A) → Quits (f a))
      → Quits (m >>= f)
  Quits-bind m f hm hf = record {
    at = λ s q. elim (Result-cases (m s).0) [
      | got (a, e) ↦ rw e ((hf a).at (m s).1 (hm.at s q))
      | failed (x, e) ↦ rw e (hm.at s q)
      | ran_out e ↦ rw e (hm.at s q)
    ];
  }

  Quits-remove_socket : Quits (remove_socket {u = u})
  unfolding remove_socket
  Quits-remove_socket = record {
    at = λ s q. elim (Bool-cases (u.path_exists s.world)) [ inl e ↦ rw e q | inr e ↦ rw e q ];
  }

  Quits-close_serial : Quits (on_bridge {u = u} close_serial)
  unfolding close_serial
  Quits-close_serial = record {
    at = λ s q. elim (Option-cases s.bridge.serial) [ inl e ↦ rw e q | inr (serial, e) ↦ rw e q ];
  }

  shutdown_quits : (s : Server p u) → (shutdown s).1.bridge.running ≡ false
  unfolding shutdown
  shutdown_quits s =
      (Quits-bind _ _ Quits-close_serial
          λ _. Quits-bind _ _ Quits-remove_socket λ _. record { at = λ t q. q }).at
        _ refl

  -- the loop by its test
  abbrev accept_loop_at : ℕ → Server p u → Bool → Result (Option ℕ) × Server p u
  accept_loop_at rounds s false = (ok none, s)
  accept_loop_at rounds s true = after_round (accept_loop rounds) s

  pub accept_loop_running :
      (rounds : ℕ) (s : Server p u)
      → s.bridge.running ≡ true
      → accept_loop (suc rounds) s ≡ after_round (accept_loop rounds) s
  unfolding accept_loop
  accept_loop_running rounds s e = ap (accept_loop_at rounds s) e

  accept_loop_stopped :
      (rounds : ℕ) (s : Server p u)
      → s.bridge.running ≡ false
      → accept_loop (suc rounds) s ≡ (ok none, s)
  unfolding accept_loop
  accept_loop_stopped rounds s e = ap (accept_loop_at rounds s) e

  module _ (h : EndCalls u) where
    Ends-remove_socket : Ends (remove_socket {u = u})
    unfolding remove_socket
    Ends-remove_socket = record {
      at = λ s. elim (Bool-cases (u.path_exists s.world)) [
        | inl e ↦ rw e (h.unlink_ends s.world)
        | inr e ↦ rw e (λ q. cc)
      ];
    }

    Ends-close_serial : Ends (on_bridge {u = u} close_serial)
    unfolding close_serial
    Ends-close_serial = record {
      at = λ s. elim (Option-cases s.bridge.serial) [
        | inl e ↦ rw e (λ q. cc)
        | inr (serial, e) ↦ rw e (h.close_ends s.bridge.device)
      ];
    }

    Ends-shutdown : Ends (shutdown {u = u})
    unfolding shutdown
    Ends-shutdown =
        Ends-bind _ _ (Ends-modify _) λ _.
          Ends-bind _ _ Ends-close_serial λ _. Ends-bind _ _ Ends-remove_socket λ _. Ends-pure 0

    -- a round in which a signal comes: the script exits, or the handler raised and the bridge stopped
    signalled_round :
        (s : Server p u)
        → u.signalled s.world ≡ true
        → ((code : ℕ) × ((accept_round s).0 ≡ ok (some code)))
          ⊎ (((accept_round s).0 ≡ ok none) × ((accept_round s).1.bridge.running ≡ false))
    unfolding accept_round accept_client
    signalled_round s e = elim (Result-cases (shutdown (wait s)).0) [
      | got (code, q) ↦ inl (code, simp (e, q))
      | failed (x, q) ↦ inr (simp (e, q), simp (e, q, shutdown_quits (wait s)))
      | ran_out q ↦ absurd (Ends-shutdown.at (wait s) q)
    ]

    -- A signal ends the loop of a running bridge within two rounds, even if the calls of its handler
    -- raise.
    pub accept_loop_signalled :
        (rounds : ℕ) (s : Server p u)
        → s.bridge.running ≡ true
        → u.signalled s.world ≡ true
        → (left : Option ℕ) × ((accept_loop (suc (suc rounds)) s).0 ≡ ok left)
    unfolding after_round
    accept_loop_signalled rounds s e q = elim (signalled_round s q) [
      | inl (code, r) ↦ (some code, rw (accept_loop_running (suc rounds) s e, r) refl)
      | inr (r, stopped) ↦ (
        none,
        rw
            (
              accept_loop_running (suc rounds) s e,
              r,
              accept_loop_stopped rounds (accept_round s).1 stopped,
            )
            refl,
      )
    ]

  -- no call of a round without a signal changes whether the bridge runs
  Same-on_world :
      {A : Type 0} (m : Exec u.World A) → Same (λ s. s.bridge.running) (on_world {u = u} m)
  Same-on_world m = record { at = λ s. refl }

  Same-accept_thread : Same (λ s. s.bridge.running) (accept_thread {u = u})
  unfolding accept_thread
  Same-accept_thread = search (Same-bind, Same-on_world, Same-pure)

  Post-accept_thread : Post (λ left. left ≡ none) (accept_thread {u = u})
  unfolding accept_thread
  Post-accept_thread = search (Post-then, Post-pure)

  -- a round in which no signal comes
  pub quiet_accept :
      (s : Server p u)
      → u.signalled s.world ≡ false
      → accept_round s ≡ on_exception accept_thread (pure none) (wait s)
  unfolding accept_round accept_client
  quiet_accept s e = rw e refl

  pub quiet_running :
      (s : Server p u)
      → u.signalled s.world ≡ false
      → (accept_round s).1.bridge.running ≡ s.bridge.running
  quiet_running s e =
      let same = Same-accept_thread.at (wait s) in
      elim (Result-cases (accept_thread (wait s)).0) [
        | got (left, q) ↦ rw (quiet_accept s e, q) same
        | failed (x, q) ↦ rw (quiet_accept s e, q) same
        | ran_out q ↦ rw (quiet_accept s e, q) same
      ]

  pub quiet_round :
      (s : Server p u)
      → u.signalled s.world ≡ false
      → ((accept_round s).0 ≡ ok none)
        ⊎ (((accept_round s).0 ≡ stuck) × ((accept_thread (wait s)).0 ≡ stuck))
  quiet_round s e = elim (Result-cases (accept_thread (wait s)).0) [
    | got (left, q) ↦ rw (quiet_accept s e, q) (inl (ap ok (Post-accept_thread.at (wait s) left q)))
    | failed (x, q) ↦ rw (quiet_accept s e, q) (inl refl)
    | ran_out q ↦ inr (rw (quiet_accept s e, q) refl, q)
  ]

  -- While no signal comes, a running bridge stays in the loop: after any number of rounds it has
  -- neither returned nor raised, whatever `accept` and the calls after it do.
  pub accept_loop_stays :
      ((w : u.World) → u.signalled w ≡ false)
      → (rounds : ℕ) (s : Server p u) → s.bridge.running ≡ true
      → (accept_loop rounds s).0 ≡ stuck
  unfolding accept_loop after_round
  accept_loop_stays quiet zero s e = refl
  accept_loop_stays quiet (suc rounds) s e =
      let rest =
        accept_loop_stays quiet rounds (accept_round s).1 (quiet_running s (quiet s.world) ∙ e) in
      elim (quiet_round s (quiet s.world)) [
        | inl r ↦ ap (λ x. x.0) (accept_loop_running rounds s e) ∙ rw r rest
        | inr (r, q) ↦ ap (λ x. x.0) (accept_loop_running rounds s e) ∙ rw r refl
      ]
