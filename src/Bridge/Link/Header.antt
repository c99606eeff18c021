-- ===== src/Bridge/Link/Header.antt =====
-- Finding the length of a packet on the line.
use somethingremotelygood.Base.{
  ℕ, zero, suc, ◌+◌, ◌*◌, ◌/◌, ◌%◌, ◌^◌, ◌≤◌, ◌<◌, false, some, [], ◌∷◌, ◌++◌, Bytes, length, All,
  ok, ◌≡◌, ◌≢◌, refl, ap, ◌∙◌, arith, take-append, drop-append, length-append, if◌then◌else◌,
}
use somethingremotelygood.Wire.{word}
use somethingremotelygood.Port.{Port}
use somethingremotelygood.Port.Laws.{Progress, Buffered}
use somethingremotelygood.Bridge.Object.{Serial, Bridge, now, serial_read}
use somethingremotelygood.Bridge.Link.{accept, read_header}
use somethingremotelygood.Bridge.Link.Returns.{read_header_next}

accept_noise : (b : ℕ) → b ≢ 0 → accept [] (b ∷ []) ≡ ([], false)
unfolding accept
accept_noise b h = ground arith

module _ {p : Port} (w : Progress p) (u : Buffered p) where
  -- The port is open, `bytes` have arrived, and it is not later than `limit`.
  pub record IsReady (ser : Serial) (bytes : Bytes) (limit : ℕ) (s : Bridge p) : Type 0 where
    pub port_open : s.serial ≡ some ser
    pub arrived : u.pending s.device ≡ bytes
    pub in_time : now s ≤ limit

  module _ {ser : Serial} {limit : ℕ} {s : Bridge p} where
    pub serial_read-IsReady :
        (xs ys : Bytes)
        → IsReady ser (xs ++ ys) limit s
        → ((serial_read (length xs) s).0 ≡ ok xs)
          × IsReady ser ys (limit + u.lag) (serial_read (length xs) s).1
          × (now s < now (serial_read (length xs) s).1)
    unfolding serial_read
    serial_read-IsReady xs ys h =
        let fits : length xs ≤ length (u.pending s.device) =
          rw h.arrived (omega (arith, length-append {0} xs ys)) in
        rw h.port_open (
          rw (u.read_result ser.timeout (length xs) s.device fits, h.arrived)
              (ap ok (take-append xs ys)),
          record {
            port_open = refl;
            arrived =
                rw (u.read_pending ser.timeout (length xs) s.device fits, h.arrived)
                  (drop-append xs ys);
            in_time = omega (arith, u.read_lag ser.timeout (length xs) s.device fits);
          },
          w.read_ticks ser.timeout (length xs) s.device,
        )

  -- One round of the loop that finds a byte.
  header_round :
      (fuel deadline limit : ℕ) (ser : Serial) (header : Bytes) (b : ℕ) (tail : Bytes)
      (s : Bridge p)
      → IsReady ser (b ∷ tail) limit s
      → limit < deadline
      → deadline < now s + fuel
      → (f : ℕ) × (t : Bridge p) × (read_header fuel deadline header s ≡ (
          let (next, full) = accept header (b ∷ []) in
          if full then (ok next, t) else read_header f deadline next t))
        × IsReady ser tail (limit + u.lag) t
        × (deadline < now t + f)
  header_round zero deadline limit ser header b tail s r early fuel_left = absurd (omega arith)
  header_round (suc f) deadline limit ser header b tail s r early fuel_left =
      let (e, r', ticked) = serial_read-IsReady (b ∷ []) tail r in
      (
        f,
        (serial_read 1 s).1,
        read_header_next f deadline header s (b ∷ []) (omega arith) e,
        r',
        omega arith,
      )

  -- Text before the packet is skipped.
  pub skip_noise :
      (noise tail : Bytes) (fuel deadline limit : ℕ) (ser : Serial) (s : Bridge p)
      → All (λ b. b ≢ 0) noise
      → IsReady ser (noise ++ tail) limit s
      → limit + u.lag * length noise < deadline
      → deadline < now s + fuel
      → (f : ℕ) × (t : Bridge p) × (read_header fuel deadline [] s ≡ read_header f deadline [] t)
        × IsReady ser tail (limit + u.lag * length noise) t
        × (deadline < now t + f)
  skip_noise [] tail fuel deadline limit ser s nz r early left = (
    fuel,
    s,
    refl,
    record { port_open = r.port_open; arrived = r.arrived; in_time = omega (arith, r.in_time) },
    left,
  )
  skip_noise (b ∷ noise) tail fuel deadline limit ser s nz r early left =
      let (f, t, e, r', left') =
        header_round fuel deadline limit ser [] b (noise ++ tail) s r (omega arith) left in
      let (f', t', e', r'', left'') =
        skip_noise noise tail f deadline (limit + u.lag) ser t nz.1 r' (omega arith) left' in
      (
        f',
        t',
        (rw (accept_noise b nz.0) at e) ∙ e',
        record {
          port_open = r''.port_open;
          arrived = r''.arrived;
          in_time = omega (arith, r''.in_time);
        },
        left'',
      )

  -- Four bytes are found and kept, if the first is zero.
  read_four :
      (b1 b2 b3 : ℕ) (tail : Bytes) (fuel deadline limit : ℕ) (ser : Serial) (s : Bridge p)
      → limit + u.lag * 4 < deadline
      → deadline < now s + fuel
      → IsReady ser (0 ∷ b1 ∷ b2 ∷ b3 ∷ tail) limit s
      → (t : Bridge p) × (read_header fuel deadline [] s ≡ (ok (0 ∷ b1 ∷ b2 ∷ b3 ∷ []), t))
        × IsReady ser tail (limit + u.lag * 4) t
  unfolding accept
  read_four b1 b2 b3 tail fuel deadline limit ser s early left r =
      let (f1, t1, e1, r1, left1) =
        header_round fuel deadline limit ser [] 0 (b1 ∷ b2 ∷ b3 ∷ tail) s r (omega arith) left in
      let (f2, t2, e2, r2, left2) =
        header_round f1 deadline (limit + u.lag) ser (0 ∷ []) b1 (b2 ∷ b3 ∷ tail) t1 r1
          (omega arith) left1 in
      let (f3, t3, e3, r3, left3) =
        header_round f2 deadline (limit + u.lag + u.lag) ser (0 ∷ b1 ∷ []) b2 (b3 ∷ tail) t2 r2
          (omega arith) left2 in
      let (f4, t4, e4, r4, left4) =
        header_round f3 deadline (limit + u.lag + u.lag + u.lag) ser (0 ∷ b1 ∷ b2 ∷ []) b3 tail t3
          r3 (omega arith) left3 in
      (
        t4,
        e1 ∙ e2 ∙ e3 ∙ e4,
        record {
          port_open = r4.port_open;
          arrived = r4.arrived;
          in_time = omega (arith, r4.in_time);
        },
      )

  zero_first : (n : ℕ) → n < 2 ^ 24 → n / 2 ^ 24 % 256 ≡ 0
  zero_first n h = omega arith

  pub read_word :
      (n : ℕ) (tail : Bytes) (fuel deadline limit : ℕ) (ser : Serial) (s : Bridge p)
      → n < 2 ^ 24
      → limit + u.lag * 4 < deadline
      → deadline < now s + fuel
      → IsReady ser (word n ++ tail) limit s
      → (t : Bridge p) × (read_header fuel deadline [] s ≡ (ok (word n), t))
        × IsReady ser tail (limit + u.lag * 4) t
  read_word n tail fuel deadline limit ser s small early left = rw (zero_first n small) (
      read_four (n / 2 ^ 16 % 256) (n / 2 ^ 8 % 256) (n % 256) tail fuel deadline limit ser s early
        left)
