-- ===== src/Bridge/Link/Returns.antt =====
-- Receiving comes to an end, and no exception leaves it.
use somethingremotelygood.Base.{
  ℕ, zero, suc, ◌+◌, ◌≤◌, ◌<◌, Bool, false, Option, none, some, [], ◌∷◌, Bytes, Bool-cases, ok,
  raised, stuck, ◌≡◌, ◌≢◌, refl, arith, Error, index_error, if◌then◌else◌, dec_lt, Option-cases,
  Result-cases, got, failed, ran_out, inl, inr,
}
use somethingremotelygood.Base.Effects.{lift}
use somethingremotelygood.Base.Effects.Ends.{
  Ends, Ends-pure, Ends-lift, Ends-raise, ends_rules, bind-ends, on_exception-returns,
}
use somethingremotelygood.Wire.{unpack, to_bytes, all_bytes}
use somethingremotelygood.Wire.Laws.{unpack_cases}
use somethingremotelygood.Port.{Port}
use somethingremotelygood.Port.Laws.{Progress}
use somethingremotelygood.Bridge.Object.{Serial, Bridge, now, on_device, serial_read, set_timeout}
use somethingremotelygood.Bridge.Link.{
  accept, send_packet_bytes, send_through, send_to_esp32, read_header, recv_body, recv_packet,
  recv_open, recv_from_esp32, split_packet, restore,
}

-- One round of the loop, by the clock and by what the read gave.
module _ {p : Port} (fuel deadline : ℕ) (header : Bytes) (s : Bridge p) where
  pub read_header_late :
      deadline ≤ now s → read_header (suc fuel) deadline header s ≡ (ok header, s)
  unfolding read_header
  read_header_late h = ground arith

  pub read_header_next :
      (b : Bytes)
      → now s < deadline
      → (serial_read 1 s).0 ≡ ok b
      → read_header (suc fuel) deadline header s ≡ (
          let (next, full) = accept header b in
          if full
          then (ok next, (serial_read 1 s).1)
          else read_header fuel deadline next (serial_read 1 s).1)
  unfolding read_header
  read_header_next b h e = ground arith

  pub read_header_raised :
      (x : Error)
      → now s < deadline
      → (serial_read 1 s).0 ≡ raised x
      → read_header (suc fuel) deadline header s ≡ (raised x, (serial_read 1 s).1)
  unfolding read_header
  read_header_raised x h e = ground arith

module _ {p : Port} (w : Progress p) where
  serial_read_ends : (n : ℕ) (s : Bridge p) → (serial_read n s).0 ≢ stuck
  unfolding serial_read
  serial_read_ends n s = elim (Option-cases s.serial) [
    | inl e ↦ rw e (λ q. cc)
    | inr (ser, e) ↦ rw e (w.read_ends ser.timeout n s.device)
  ]

  serial_read_ticks :
      (n : ℕ) (b : Bytes) (s : Bridge p)
      → (serial_read n s).0 ≡ ok b
      → now s < now (serial_read n s).1
  unfolding serial_read
  serial_read_ticks n b s = elim (Option-cases s.serial) [
    | inl e ↦ rw e (λ q. cc)
    | inr (ser, e) ↦ rw e (λ q. w.read_ticks ser.timeout n s.device)
  ]

  read_header_ends :
      (fuel deadline : ℕ) (header : Bytes) (s : Bridge p)
      → deadline < now s + fuel
      → 0 < fuel
      → (read_header fuel deadline header s).0 ≢ stuck
  read_header_ends zero deadline header s h f = absurd (omega arith)
  read_header_ends (suc fuel) deadline header s h f = elim (dec_lt (now s) deadline) [
    | no late ↦ rw (read_header_late fuel deadline header s (omega arith)) (λ q. cc)
    | yes early ↦ elim (Result-cases (serial_read 1 s).0) [
      | got (b, e) ↦ rw (read_header_next fuel deadline header s b early e) (
          ground (
            arith,
            serial_read_ticks 1 b s e,
            read_header_ends fuel deadline (accept header b).0 (serial_read 1 s).1,
          ))
      | failed (x, e) ↦ rw (read_header_raised fuel deadline header s x early e) (λ q. cc)
      | ran_out e ↦ absurd (serial_read_ends 1 s e)
    ]
  ]

  Ends-serial_read : (n : ℕ) → Ends {S = Bridge p} (serial_read n)
  Ends-serial_read n = record { at = serial_read_ends n }

  Ends-set_timeout : (t : Option ℕ) → Ends {S = Bridge p} (set_timeout t)
  unfolding set_timeout
  Ends-set_timeout t = record { at = λ s. ground arith }

  Ends-restore : (t : Option ℕ) → Ends {S = Bridge p} (restore t)
  unfolding restore
  Ends-restore none = Ends-pure tt
  Ends-restore (some t) = Ends-set_timeout (some t)

  Ends-split_packet : (b : Bytes) → Ends {S = Bridge p} (split_packet b)
  unfolding split_packet
  Ends-split_packet [] = Ends-raise index_error
  Ends-split_packet (t ∷ b) = Ends-pure (some (t, b))

  ruleset link_rules =
      (ends_rules, Ends-serial_read, Ends-set_timeout, Ends-restore, Ends-split_packet)

  Ends-recv_body :
      (old : Option ℕ) (deadline n : ℕ) → Ends {S = Bridge p} (recv_body old deadline n)
  unfolding recv_body
  Ends-recv_body old deadline n = search link_rules depth 12

  pub set_timeout-now : (t : Option ℕ) (s : Bridge p) → now (set_timeout t s).1 ≡ now s
  unfolding set_timeout
  set_timeout-now t s = ground arith

  Ends-unpack : (b : Bytes) → Ends {S = Bridge p} (lift (unpack b))
  Ends-unpack b =
      Ends-lift (unpack b)
        (elim (unpack_cases b) [ inl (n, e, _) ↦ rw e (λ q. cc) | inr e ↦ rw e (λ q. cc) ])

  Ends-recv_packet :
      (old : Option ℕ) (deadline : ℕ) (header : Bytes)
      → Ends {S = Bridge p} (recv_packet old deadline header)
  unfolding recv_packet
  Ends-recv_packet old deadline header = search (link_rules, Ends-unpack, Ends-recv_body) depth 12

  recv_open_ends :
      (fuel timeout deadline : ℕ) (old : Option ℕ) (s : Bridge p)
      → deadline < now s + fuel
      → 0 < fuel
      → (recv_open fuel old timeout deadline s).0 ≢ stuck
  unfolding recv_open
  recv_open_ends fuel timeout deadline old s h f =
      bind-ends (set_timeout (some timeout)) _ s ((Ends-set_timeout (some timeout)).at s) λ a e.
        bind-ends (read_header fuel deadline []) _ (set_timeout (some timeout) s).1
          (read_header_ends fuel deadline [] _ (omega (arith, set_timeout-now (some timeout) s)) f)
          λ header e'. (Ends-recv_packet old deadline header).at _

  -- Receiving from the device returns a packet or nothing, whatever the port does: the loop over
  -- the header ends by the deadline and no exception leaves the function.
  pub recv_returns :
      (timeout : ℕ) (s : Bridge p)
      → (r : Option (ℕ × Bytes)) × ((recv_from_esp32 timeout s).0 ≡ ok r)
  unfolding recv_from_esp32
  recv_returns timeout s = elim (Option-cases s.serial) [
    | inl e ↦ (none, rw e)
    | inr (ser, e) ↦ rw e (
        on_exception-returns (recv_open (suc timeout) ser.timeout timeout (now s + timeout)) none s
          (recv_open_ends (suc timeout) timeout (now s + timeout) ser.timeout s (omega arith)
            (omega arith)))
  ]

  Ends-device_write : (b : Bytes) → Ends {S = Bridge p} (on_device (p.write b))
  Ends-device_write b = record { at = λ s. w.write_ends b s.device }

  Ends-device_flush : Ends {S = Bridge p} (on_device p.flush)
  Ends-device_flush = record { at = λ s. w.flush_ends s.device }

  pub to_bytes_ends : (xs : Bytes) → to_bytes xs ≢ stuck
  unfolding to_bytes
  to_bytes_ends xs = elim (Bool-cases (all_bytes xs)) [
    | inl e ↦ rw e (λ q. cc)
    | inr e ↦ rw e (λ q. cc)
  ]

  Ends-send_packet_bytes :
      (t : ℕ) (message : Bytes) → Ends {S = Bridge p} (send_packet_bytes t message)
  unfolding send_packet_bytes
  Ends-send_packet_bytes t message =
      search (ends_rules, Ends-lift, to_bytes_ends, Ends-device_write, Ends-device_flush) depth 9

  send_through_returns :
      (o : Option Serial) (t : ℕ) (message : Bytes) (s : Bridge p)
      → (r : Bool) × ((send_through o t message s).0 ≡ ok r)
  unfolding send_through
  send_through_returns none t message s = (false, refl)
  send_through_returns (some ser) t message s =
      on_exception-returns (send_packet_bytes t message) false s
        ((Ends-send_packet_bytes t message).at s)

  -- Sending returns whether it worked, and raises nothing.
  pub send_returns :
      (t : ℕ) (message : Bytes) (s : Bridge p) → (r : Bool) × ((send_to_esp32 t message s).0 ≡ ok r)
  unfolding send_to_esp32
  send_returns t message s = send_through_returns s.serial t message s
