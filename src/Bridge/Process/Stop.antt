-- ===== src/Bridge/Process/Stop.antt =====
-- How the process of the bridge ends.
use somethingremotelygood.Base.{
  ℕ, zero, suc, false, Option, none, some, Exec, ok, stuck, ◌≡◌, ◌≢◌, refl, ap, ◌⊎◌, inl, inr,
  Bool-cases, Option-cases,
}
use somethingremotelygood.Base.Effects.Leads.{
  Leads, Leads-pure, Leads-if, Leads-while, Leads-then, Leads-modify, Leads-on_exception,
  Leads-bind,
}
use somethingremotelygood.Base.Effects.{pure, modify, gets}
use somethingremotelygood.Port.{Port}
use somethingremotelygood.Bridge.Process.{
  Unix, Server, wait, on_world, on_bridge, remove_socket, close_serial, shutdown, accept_thread,
  accept_client, accept_round, after_round, accept_loop, open_server, leave_server,
  start_unix_server,
}

-- What the script relies on of `os.unlink`: a call that returns has removed the file.
pub record Unlinks {p : Port} (u : Unix p) : Type 0 where
  pub removes : (w : u.World) → (u.unlink w).0 ≡ ok tt → u.path_exists (u.unlink w).1 ≡ false

-- The calls of an end come back, with a value or an exception.
pub record EndCalls {p : Port} (u : Unix p) : Type 0 where
  pub close_ends : (d : p.Device) → (p.close d).0 ≢ stuck
  pub unlink_ends : (w : u.World) → (u.unlink w).0 ≢ stuck

module _ {p : Port} {u : Unix p} where
  abbrev IsQuiet : Server p u → Type 0
  IsQuiet s = s.bridge.running ≡ false

  -- the bridge does not run, and the path of the socket is free
  abbrev pub IsStopped : Server p u → Type 0
  IsStopped s = (s.bridge.running ≡ false) × (u.path_exists s.world ≡ false)

  -- a round that left the script, or not
  abbrev AfterRound : Option ℕ → Server p u → Type 0
  AfterRound left s = (left ≡ none) ⊎ ((left ≡ some 0) × IsStopped s)

  abbrev AfterLoop : Option ℕ → Server p u → Type 0
  AfterLoop left s = ((left ≡ none) × IsQuiet s) ⊎ ((left ≡ some 0) × IsStopped s)

  abbrev AfterServer : Option ℕ → Server p u → Type 0
  AfterServer left s = ((left ≡ none) ⊎ (left ≡ some 0)) × IsStopped s

  module _ (h : Unlinks u) where
    Leads-remove_socket : Leads IsQuiet (λ _. IsStopped) (remove_socket {u = u})
    unfolding remove_socket
    Leads-remove_socket = record {
      at = λ s q a. elim (Bool-cases (u.path_exists s.world)) [
        | inl e ↦ rw e (λ r. (q, h.removes s.world r))
        | inr e ↦ rw e (λ r. (q, e))
      ];
    }

    Leads-close_serial : Leads IsQuiet (λ _. IsQuiet) (on_bridge {u = u} close_serial)
    unfolding close_serial
    Leads-close_serial = record {
      at = λ s q a. elim (Option-cases s.bridge.serial) [
        | inl e ↦ rw e (λ r. q)
        | inr (serial, e) ↦ rw e (λ r. q)
      ];
    }

    Leads-shutdown : Leads (λ s. Unit {0}) (λ code s. (code ≡ 0) × IsStopped s) (shutdown {u = u})
    unfolding shutdown
    Leads-shutdown =
        Leads-bind (λ _. IsQuiet) _ _ (Leads-modify _ (λ s q. refl))
          λ _.
            Leads-bind (λ _. IsQuiet) _ _ Leads-close_serial
              λ _.
                Leads-bind (λ _. IsStopped) _ _ Leads-remove_socket
                  λ _. Leads-pure 0 (λ s q. (refl, q))

    Leads-accept_client : Leads (λ s. Unit {0}) AfterRound (accept_client {u = u})
    unfolding accept_client accept_thread
    Leads-accept_client = Leads-then (modify wait) _ λ _.
        Leads-then (gets (λ s. u.signalled s.world)) _ λ signal.
          Leads-if signal _ _
            (Leads-bind (λ code s. (code ≡ 0) × IsStopped s) _ _ Leads-shutdown
              λ code. Leads-pure (some code) (λ s q. inr (ap some q.0, q.1)))
            (Leads-then (on_world u.accept) _ λ client.
              Leads-then (on_world (u.set_client_timeout client 30000)) _ λ _.
                Leads-then (on_world (u.start_thread client)) _
                  λ _. Leads-pure none (λ s q. inl refl))

    Leads-accept_round : Leads (λ s. Unit {0}) AfterRound (accept_round {u = u})
    unfolding accept_round
    Leads-accept_round = Leads-on_exception _ none Leads-accept_client (λ s. inl refl)

    -- `l` is what the loop does in the rounds that are left
    Leads-next :
        (l : Exec (Server p u) (Option ℕ))
        → Leads (λ s. Unit {0}) AfterLoop l
        → (left : Option ℕ)
        → Leads (AfterRound left) AfterLoop (elim left [ some code ↦ pure (some code) | none ↦ l ])
    Leads-next l hl none = record { at = λ s q a e. hl.at s tt a e }
    Leads-next l hl (some code) =
        Leads-pure (some code)
          (λ s q. elim q [ inl e ↦ absurd (cc) | inr (e, stopped) ↦ inr (e, stopped) ])

    Leads-after_round :
        (l : Exec (Server p u) (Option ℕ))
        → Leads (λ s. Unit {0}) AfterLoop l
        → Leads (λ s. Unit {0}) AfterLoop (after_round l)
    unfolding after_round
    Leads-after_round l hl = Leads-bind AfterRound _ _ Leads-accept_round (Leads-next l hl)

    Leads-accept_loop : (rounds : ℕ) → Leads (λ s. Unit {0}) AfterLoop (accept_loop {u = u} rounds)
    unfolding accept_loop
    Leads-accept_loop zero = record { at = λ s q a e. absurd (cc) }
    Leads-accept_loop (suc rounds) =
        Leads-while (λ s. s.bridge.running) (after_round (accept_loop rounds)) none
          (Leads-after_round _ (Leads-accept_loop rounds)) (λ s e. inl (refl, e))

    Leads-leave_server :
        (left : Option ℕ) → Leads (AfterLoop left) AfterServer (leave_server {u = u} left)
    unfolding leave_server
    Leads-leave_server none =
        Leads-bind (λ _. IsQuiet) _ _
          (record {
            at = λ s q a e. elim q [ inl (r, quiet) ↦ quiet | inr (r, stopped) ↦ stopped.0 ];
          })
          λ _.
            Leads-bind (λ _. IsStopped) _ _ Leads-remove_socket
              λ _. Leads-pure none (λ s q. (inl refl, q))
    Leads-leave_server (some code) =
        Leads-pure (some code)
          (λ s q. elim q [ inl (r, quiet) ↦ absurd (cc) | inr (r, stopped) ↦ (inr r, stopped) ])

    -- However long the server ran: when `start_unix_server` returns, or exits with code 0, the bridge
    -- does not run and the path of the socket is free; there is no other exit code.
    pub start_unix_server-IsStopped :
        (rounds : ℕ) (s : Server p u) (left : Option ℕ)
        → (start_unix_server rounds s).0 ≡ ok left
        → ((left ≡ none) ⊎ (left ≡ some 0)) × IsStopped (start_unix_server rounds s).1
    unfolding start_unix_server
    start_unix_server-IsStopped rounds s left e =
        (Leads-then {P = λ s. Unit {0}} open_server _
            λ _. Leads-bind AfterLoop _ _ (Leads-accept_loop rounds) Leads-leave_server).at
          s tt left e
