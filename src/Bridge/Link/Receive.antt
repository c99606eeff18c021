-- ===== src/Bridge/Link/Receive.antt =====
-- What a packet on the line is received as.
use somethingremotelygood.Base.{
  ℕ, suc, ◌+◌, ◌*◌, ◌-◌, ◌≤◌, ◌<◌, Option, none, some, ◌∷◌, ◌++◌, Bytes, length, All, ok, ◌≡◌, ◌≢◌,
  refl, arith, ltb, le→not-ltb, lt→ltb, dec_lt, if◌then◌else◌,
}
use somethingremotelygood.Base.Effects.{pure, ◌>>=◌, ◌>>◌}
use somethingremotelygood.Wire.Laws.{unpack-word}
use somethingremotelygood.Firmware.{packet}
use somethingremotelygood.Port.{Port}
use somethingremotelygood.Port.Laws.{Progress, Buffered}
use somethingremotelygood.Bridge.Object.{Serial, Bridge, now, serial_read, set_timeout}
use somethingremotelygood.Bridge.Link.{
  recv_body, recv_packet, recv_open, recv_from_esp32, split_packet, restore,
}
use somethingremotelygood.Bridge.Link.Returns.{set_timeout-now}
use somethingremotelygood.Bridge.Link.Header.{IsReady, serial_read-IsReady, skip_noise, read_word}

module _ {p : Port} (w : Progress p) (u : Buffered p) where
  set_timeout-IsReady :
      (t : Option ℕ) (ser : Serial) (bytes : Bytes) (limit : ℕ) (s : Bridge p)
      → IsReady w u ser bytes limit s
      → ((set_timeout t s).0 ≡ ok tt)
        × IsReady w u (record { timeout = t }) bytes limit (set_timeout t s).1
  unfolding set_timeout
  set_timeout-IsReady t ser bytes limit s r =
      rw r.port_open (refl, record { port_open = refl; arrived = r.arrived; in_time = r.in_time })

  -- the packet behind the length, once the timeout is set
  recv_data :
      (t0 t : ℕ) (payload rest : Bytes) (limit : ℕ) (ser : Serial) (s : Bridge p)
      → IsReady w u ser (t ∷ payload ++ rest) limit s
      → (s' : Bridge p) × ((do
        bytes ← serial_read (suc (length payload))
        restore (some t0)
        if ltb (length bytes) (suc (length payload)) then pure none else split_packet bytes)
            s
          ≡ (ok (some (t, payload)), s'))
        × IsReady w u (record { timeout = some t0 }) rest (limit + u.lag) s'
  unfolding restore split_packet
  recv_data t0 t payload rest limit ser s r =
      let (e, r', _) = serial_read-IsReady w u (t ∷ payload) rest r in
      let (e', r'') =
        set_timeout-IsReady (some t0) ser rest (limit + u.lag)
          (serial_read (suc (length payload)) s).1 r' in
      (_, rw (e, e', le→not-ltb (suc (length payload)) (suc (length payload)) (omega arith)), r'')

  recv_body_packet :
      (t0 t deadline : ℕ) (payload rest : Bytes) (limit : ℕ) (ser : Serial) (s : Bridge p)
      → suc (length payload) ≤ 4096
      → IsReady w u ser (t ∷ payload ++ rest) limit s
      → (s' : Bridge p) × (recv_body (some t0) deadline (suc (length payload)) s
          ≡ (ok (some (t, payload)), s'))
        × IsReady w u (record { timeout = some t0 }) rest (limit + u.lag) s'
  unfolding recv_body
  recv_body_packet t0 t deadline payload rest limit ser s fits r =
      rw
        (
          le→not-ltb (suc (length payload)) 1 (omega arith),
          le→not-ltb 4096 (suc (length payload)) fits,
        )
        (elim (dec_lt (now s) deadline) [
          | yes early ↦
              let (e, r') =
                set_timeout-IsReady (some (deadline - now s)) ser (t ∷ payload ++ rest) limit s r in
              rw (lt→ltb (now s) deadline early, e) (recv_data t0 t payload rest limit _ _ r')
          | no late ↦
              rw (le→not-ltb (now s) deadline (omega arith))
                (recv_data t0 t payload rest limit ser s r)
        ])

  recv_open-packet :
      (t0 t timeout : ℕ) (noise payload rest : Bytes) (s : Bridge p)
      → All (λ b. b ≢ 0) noise
      → suc (length payload) ≤ 4096
      → u.lag * length noise + u.lag * 4 < timeout
      → IsReady w u (record { timeout = some t0 }) (noise ++ (packet t payload ++ rest)) (now s) s
      → (s' : Bridge p) × (recv_open (suc timeout) (some t0) timeout (now s + timeout) s
          ≡ (ok (some (t, payload)), s'))
        × IsReady w u
            (record { timeout = some t0 })
            rest
            (now s + u.lag * length noise + u.lag * 4 + u.lag)
            s'
  unfolding recv_open recv_packet
  recv_open-packet t0 t timeout noise payload rest s nz fits quick r =
      let (e, r0) = set_timeout-IsReady (some timeout) _ _ _ s r in
      let (f, s1, e1, r1, left) =
        skip_noise w u noise (packet t payload ++ rest) (suc timeout) (now s + timeout) (now s) _ _
          nz r0 (omega arith) (omega (arith, set_timeout-now w (some timeout) s)) in
      let (s2, e2, r2) =
        read_word w u (suc (length payload)) ((t ∷ payload) ++ rest) f (now s + timeout)
          (now s + u.lag * length noise) _ s1 (omega arith) (omega arith) left r1 in
      let (s3, e3, r3) = recv_body_packet t0 t (now s + timeout) payload rest _ _ s2 fits r2 in
      (s3, rw (e, e1, e2, unpack-word (suc (length payload)) (omega arith), e3), r3)

  -- A packet of at most 4096 bytes behind any text without a zero byte is received as its type and
  -- payload, what follows it stays on the line, and the timeout of the port is put back.
  pub recv-packet :
      (t0 t timeout : ℕ) (noise payload rest : Bytes) (s : Bridge p)
      → All (λ b. b ≢ 0) noise
      → suc (length payload) ≤ 4096
      → u.lag * length noise + u.lag * 4 < timeout
      → s.serial ≡ some (record { timeout = some t0 })
      → u.pending s.device ≡ noise ++ (packet t payload ++ rest)
      → ((recv_from_esp32 timeout s).0 ≡ ok (some (t, payload)))
        × (u.pending (recv_from_esp32 timeout s).1.device ≡ rest)
        × ((recv_from_esp32 timeout s).1.serial ≡ s.serial)
  unfolding recv_from_esp32
  recv-packet t0 t timeout noise payload rest s nz fits quick port line =
      let (s', e, r) =
        recv_open-packet t0 t timeout noise payload rest s nz fits quick
          (record { port_open = port; arrived = line; in_time = omega arith }) in
      rw (port, e) (refl, r.arrived, r.port_open)
