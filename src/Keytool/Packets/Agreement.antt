-- ===== src/Keytool/Packets/Agreement.antt =====
-- The tool and the bridge speak the same packets, though each has code of its own for them.
use somethingremotelygood.Base.{
  ℕ, zero, suc, ◌+◌, ◌-◌, Bool, true, false, ◌||◌, Option, none, some, [], ◌∷◌, Bytes, length,
  Result, Error, ok, raised, stuck, Exec, ◌≡◌, ◌≢◌, refl, sym, ap, ◌∙◌, arith, ltb, Bool-cases,
  Result-cases, got, failed, ran_out, inl, inr, if◌then◌else◌, lt→ltb, le→not-ltb, dec_lt,
}
use somethingremotelygood.Base.Effects.{pure, lift, gets, on_exception, ◌>>=◌, ◌>>◌}
use somethingremotelygood.Port.{Port}
use somethingremotelygood.Port.Laws.{Progress}
use somethingremotelygood.Wire.{unpack}
use somethingremotelygood.Bridge.Object.{Bridge, now, serial_read, set_timeout}
use somethingremotelygood.Bridge.Link.{
  accept, split_packet, restore, read_header, recv_body, recv_packet, recv_open, recv_from_esp32,
}
use somethingremotelygood.Bridge.Link.Returns.{
  recv_returns, read_header_late, read_header_next, read_header_raised,
}
use somethingremotelygood.Keytool.Packets.{scan_header, take_body, take_packet, read_packet_within}

-- `except Exception: return None`
abbrev pub caught : {A : Type 0} → Result (Option A) → Result (Option A)
caught (ok a) = ok a
caught (raised e) = ok none
caught stuck = stuck

module _ (p : Port) (running : Bool) where
  -- A bridge over an open port.
  abbrev pub open_bridge : Option ℕ → p.Device → Bridge p
  open_bridge t d = record { serial = some (record { timeout = t }); device = d; running = running }

  -- The same result, and the same device after it.
  abbrev Agrees : {A : Type 0} → Result A × Bridge p → Result A × p.Device → Type 0
  Agrees x y = (x.0 ≡ y.0) × (x.1.device ≡ y.1)

  bind-Agrees :
      {A B : Type 0} (t : Option ℕ) (m : Exec (Bridge p) A) (k : Exec p.Device A)
      (f : A → Exec (Bridge p) B) (g : A → Exec p.Device B) (s : Bridge p) (d : p.Device)
      → m s ≡ ((k d).0, open_bridge t (k d).1)
      → ((a : A) → Agrees (f a (open_bridge t (k d).1)) (g a (k d).1))
      → Agrees ((m >>= f) s) ((k >>= g) d)
  bind-Agrees t m k f g s d e h = rw e (elim (Result-cases (k d).0) [
    | got (a, q) ↦ rw q (h a)
    | failed (x, q) ↦ rw q (refl, refl)
    | ran_out q ↦ rw q (refl, refl)
  ])

  module _ (fuel timeout deadline : ℕ) (header : Bytes) (d : p.Device) where
    scan_header_late :
        ltb (p.now d) deadline ≡ false
        → scan_header p (suc fuel) timeout deadline header d ≡ (ok header, d)
    unfolding scan_header
    scan_header_late h = ground arith

    scan_header_next :
        (b : Bytes)
        → ltb (p.now d) deadline ≡ true
        → (p.read (some timeout) 1 d).0 ≡ ok b
        → scan_header p (suc fuel) timeout deadline header d ≡ (
            let (next, full) = accept header b in
            if full
            then (ok next, (p.read (some timeout) 1 d).1)
            else scan_header p fuel timeout deadline next (p.read (some timeout) 1 d).1)
    unfolding scan_header
    scan_header_next b h e = ground arith

    scan_header_raised :
        (x : Error)
        → ltb (p.now d) deadline ≡ true
        → (p.read (some timeout) 1 d).0 ≡ raised x
        → scan_header p (suc fuel) timeout deadline header d
          ≡ (raised x, (p.read (some timeout) 1 d).1)
    unfolding scan_header
    scan_header_raised x h e = ground arith

  scan_header-read_header :
      (w : Progress p) (fuel timeout deadline : ℕ) (header : Bytes) (d : p.Device)
      → read_header fuel deadline header (open_bridge (some timeout) d) ≡ (
        (scan_header p fuel timeout deadline header d).0,
        open_bridge (some timeout) (scan_header p fuel timeout deadline header d).1,
      )
  unfolding serial_read
  scan_header-read_header w zero timeout deadline header d = unfold read_header scan_header in refl
  scan_header-read_header w (suc fuel) timeout deadline header d =
      let s = open_bridge (some timeout) d in
      elim (dec_lt (p.now d) deadline) [
        | no late ↦
            rw
              (
                read_header_late fuel deadline header s (omega arith),
                scan_header_late fuel timeout deadline header d
                    (le→not-ltb (p.now d) deadline (omega arith)),
              )
              refl
        | yes early ↦ elim (Result-cases (p.read (some timeout) 1 d).0) [
          | got (b, q) ↦
              rw
                (
                  read_header_next fuel deadline header s b early q,
                  scan_header_next fuel timeout deadline header d b
                      (lt→ltb (p.now d) deadline early) q,
                )
                (elim (Bool-cases (accept header b).1) [
                  | inl full ↦ rw full refl
                  | inr more ↦ rw more (
                      scan_header-read_header w fuel timeout deadline (accept header b).0
                        (p.read (some timeout) 1 d).1)
                ])
          | failed (x, q) ↦
              rw
                (
                  read_header_raised fuel deadline header s x early q,
                  scan_header_raised fuel timeout deadline header d x
                      (lt→ltb (p.now d) deadline early) q,
                )
                refl
          | ran_out q ↦ absurd (w.read_ends (some timeout) 1 d q)
        ]
      ]

  -- what both do with the bytes of the packet
  abbrev split_read : {S : Type 0} → ℕ → Bytes → Exec S (Option (ℕ × Bytes))
  split_read n bytes = if ltb (length bytes) n then pure none else split_packet bytes

  split_read-Agrees :
      (n : ℕ) (bytes : Bytes) (s : Bridge p)
      → Agrees (split_read n bytes s) (split_read n bytes s.device)
  unfolding split_packet
  split_read-Agrees n [] s = elim (Bool-cases (ltb 0 n)) [
    | inl e ↦ rw e (refl, refl)
    | inr e ↦ rw e (refl, refl)
  ]
  split_read-Agrees n (b ∷ bytes) s = elim (Bool-cases (ltb (length (b ∷ bytes)) n)) [
    | inl e ↦ rw e (refl, refl)
    | inr e ↦ rw e (refl, refl)
  ]

  restored :
      {A : Type 0} (old t : Option ℕ) (m : Exec (Bridge p) A) (k : Exec p.Device A) (d : p.Device)
      → ((t' : Option ℕ) → Agrees (m (open_bridge t' d)) (k d))
      → Agrees ((restore old >> m) (open_bridge t d)) (k d)
  unfolding restore set_timeout
  restored none t m k d h = h t
  restored (some o) t m k d h = h (some o)

  finish-Agrees :
      (old t : Option ℕ) (n : ℕ) (bytes : Bytes) (d : p.Device)
      → Agrees ((restore old >> split_read n bytes) (open_bridge t d)) (split_read n bytes d)
  finish-Agrees old t n bytes d =
      restored old t (split_read n bytes) (split_read n bytes) d
        λ t'. split_read-Agrees n bytes (open_bridge t' d)

  read_finish-Agrees :
      (old : Option ℕ) (t n : ℕ) (d : p.Device)
      → Agrees
          ((serial_read n >>= λ bytes. restore old >> split_read n bytes) (open_bridge (some t) d))
          ((p.read (some t) n >>= split_read n) d)
  unfolding serial_read
  read_finish-Agrees old t n d =
      bind-Agrees (some t) (serial_read n) (p.read (some t) n)
        (λ bytes. restore old >> split_read n bytes) (split_read n) (open_bridge (some t) d) d refl
        (λ bytes. finish-Agrees old (some t) n bytes (p.read (some t) n d).1)

  take_body-recv_body :
      (old : Option ℕ) (timeout deadline n : ℕ) (d : p.Device)
      → Agrees
          (recv_body old deadline n (open_bridge (some timeout) d))
          (take_body p timeout deadline n d)
  unfolding recv_body take_body set_timeout
  take_body-recv_body old timeout deadline n d = elim (Bool-cases (ltb n 1 || ltb 4096 n)) [
    | inl bad ↦
        rw (bad, recv_body, take_body)
          (restored old (some timeout) (pure none) (pure none) d (λ t'. (refl, refl)))
    | inr good ↦ elim (Bool-cases (ltb (p.now d) deadline)) [
      | inl left ↦
          rw (good, left, recv_body, take_body) (read_finish-Agrees old (deadline - p.now d) n d)
      | inr late ↦ rw (good, late, recv_body, take_body) (read_finish-Agrees old timeout n d)
    ]
  ]

  take_packet-recv_packet :
      (old : Option ℕ) (timeout deadline : ℕ) (header : Bytes) (d : p.Device)
      → Agrees
          (recv_packet old deadline header (open_bridge (some timeout) d))
          (take_packet p timeout deadline header d)
  unfolding recv_packet take_packet
  take_packet-recv_packet old timeout deadline header d =
      elim (Bool-cases (ltb (length header) 4)) [
        | inl short ↦
            rw (short, recv_packet, take_packet)
              (restored old (some timeout) (pure none) (pure none) d (λ t'. (refl, refl)))
        | inr full ↦
            rw (full, recv_packet, take_packet)
              (bind-Agrees (some timeout) (lift (unpack header)) (lift (unpack header))
                (recv_body old deadline) (take_body p timeout deadline)
                (open_bridge (some timeout) d) d refl
                (λ n. take_body-recv_body old timeout deadline n d))
      ]

  recv_open-read_packet :
      (w : Progress p) (old : Option ℕ) (timeout : ℕ) (d : p.Device)
      → Agrees
          (recv_open (suc timeout) old timeout (p.now d + timeout) (open_bridge old d))
          (read_packet_within p timeout d)
  unfolding recv_open read_packet_within set_timeout
  recv_open-read_packet w old timeout d =
      bind-Agrees (some timeout) (read_header (suc timeout) (p.now d + timeout) [])
        (scan_header p (suc timeout) timeout (p.now d + timeout) [])
        (recv_packet old (p.now d + timeout)) (take_packet p timeout (p.now d + timeout))
        (open_bridge (some timeout) d) d
        (scan_header-read_header w (suc timeout) timeout (p.now d + timeout) [] d)
        (λ header.
          take_packet-recv_packet old timeout (p.now d + timeout) header
            (scan_header p (suc timeout) timeout (p.now d + timeout) [] d).1)

  caught_both :
      {A : Type 0} (m : Exec (Bridge p) (Option A)) (k : Exec p.Device (Option A)) (s : Bridge p)
      (d : p.Device)
      → Agrees (m s) (k d)
      → Agrees (on_exception m (pure none) s) (caught (k d).0, (k d).1)
  caught_both m k s d h = elim (Result-cases (k d).0) [
    | got (r, q) ↦ rw (h.0 ∙ q, q) (refl, h.1)
    | failed (x, q) ↦ rw (h.0 ∙ q, q) (refl, h.1)
    | ran_out q ↦ rw (h.0 ∙ q, q) (refl, h.1)
  ]

  -- From the same open port the bridge's receiver has the result of the tool's, with an exception
  -- turned into no packet, and leaves the device in the same state.
  pub read_packet-recv :
      (w : Progress p) (old : Option ℕ) (timeout : ℕ) (d : p.Device)
      → ((recv_from_esp32 timeout (open_bridge old d)).0
          ≡ caught (read_packet_within p timeout d).0)
        × ((recv_from_esp32 timeout (open_bridge old d)).1.device
            ≡ (read_packet_within p timeout d).1)
  unfolding recv_from_esp32
  read_packet-recv w old timeout d =
      caught_both
        (do
          deadline ← gets (λ b. now b + timeout)
          λ b. elim b.serial [
            | none ↦ (pure none) b
            | some ser ↦ recv_open (suc timeout) ser.timeout timeout deadline b
          ])
        (read_packet_within p timeout) (open_bridge old d) d (recv_open-read_packet w old timeout d)

  pub read_packet_ends :
      (w : Progress p) (timeout : ℕ) (d : p.Device) → (read_packet_within p timeout d).0 ≢ stuck
  read_packet_ends w timeout d q =
      let (r, e) = recv_returns w timeout (open_bridge none d) in
      not_ok r (
        sym {a = (recv_from_esp32 timeout (open_bridge none d)).0} e
        ∙ (read_packet-recv w none timeout d).0
        ∙ ap caught q)
    where
      not_ok : (r : Option (ℕ × Bytes)) → ◌≡◌ {A = Result (Option (ℕ × Bytes))} (ok r) stuck → ⊥
      not_ok r h = cc
