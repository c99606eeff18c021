-- ===== src/Bridge/Link/Exchange.antt =====
-- A packet to the device and the packet that comes back.
use somethingremotelygood.Base.{
  ℕ, suc, ◌+◌, ◌*◌, ◌/◌, ◌%◌, ◌^◌, ◌≤◌, ◌<◌, true, some, ◌++◌, Bytes, length, All, ok, ◌≡◌, ◌≢◌,
  arith, none, lt→ltb, le→not-ltb, take-append, drop-append, length-append,
}
use somethingremotelygood.Wire.{to_bytes}
use somethingremotelygood.Firmware.{packet, read_packet}
use somethingremotelygood.Port.{Port}
use somethingremotelygood.Port.Laws.{Progress, Buffered}
use somethingremotelygood.Bridge.Object.{Serial, Bridge}
use somethingremotelygood.Bridge.Link.{header_numbers, send_to_esp32, recv_from_esp32}
use somethingremotelygood.Bridge.Link.Receive.{recv-packet}

header_fits : (t n : ℕ) → t < 256 → to_bytes (header_numbers t n) ≡ ok (header_numbers t n)
unfolding to_bytes
header_fits t n h = ground arith

-- The request packet: the type, three bytes of length, the data.
abbrev pub request : ℕ → Bytes → Bytes
request t message = header_numbers t (length message) ++ message

-- The device takes `sent` and answers with the packet `(t, payload)`, perhaps behind other text.
pub record Answers {p : Port} (u : Buffered p) (d : p.Device) (sent : Bytes) (timeout t : ℕ)
    (payload : Bytes) : Type 0 where
  pub noise : Bytes
  pub rest : Bytes
  pub written : (p.write sent d).0 ≡ ok tt
  pub flushed : (p.flush (p.write sent d).1).0 ≡ ok tt
  pub line : u.pending (p.flush (p.write sent d).1).1 ≡ noise ++ (packet t payload ++ rest)
  pub quiet : All (λ b. b ≢ 0) noise
  pub fits : suc (length payload) ≤ 4096
  pub quick : u.lag * length noise + u.lag * 4 < timeout

module _ {p : Port} where
  -- the state after a packet was written
  abbrev pub after_send : ℕ → Bytes → Bridge p → Bridge p
  after_send t message s = record s {
    device = (p.flush (p.write (request t message) s.device).1).1;
  }

  send_fits :
      (t : ℕ) (ser : Serial) (message : Bytes) (s : Bridge p)
      → t < 256
      → s.serial ≡ some ser
      → (p.write (request t message) s.device).0 ≡ ok tt
      → (p.flush (p.write (request t message) s.device).1).0 ≡ ok tt
      → send_to_esp32 t message s ≡ (ok true, after_send t message s)
  unfolding send_to_esp32
  send_fits t ser message s small port w f = rw (port, header_fits t (length message) small, w, f)

  -- Request and reply in one step: what `recv_from_esp32` returns behind `send_to_esp32`.
  pub exchange :
      (w : Progress p) (u : Buffered p) (t0 q timeout t : ℕ) (message payload : Bytes)
      (s : Bridge p)
      → q < 256
      → s.serial ≡ some (record { timeout = some t0 })
      → Answers u s.device (request q message) timeout t payload
      → (send_to_esp32 q message s ≡ (ok true, after_send q message s))
        × ((recv_from_esp32 timeout (after_send q message s)).0 ≡ ok (some (t, payload)))
  exchange w u t0 q timeout t message payload s small port a = (
    send_fits q _ message s small port a.written a.flushed,
    (recv-packet w u t0 t timeout a.noise payload a.rest (after_send q message s) a.quiet a.fits
        a.quick port a.line).0,
  )

low_three : (n : ℕ) → n < 2 ^ 24 → n / 2 ^ 16 % 256 * 2 ^ 16 + n / 2 ^ 8 % 256 * 2 ^ 8 + n % 256 ≡ n
low_three n h = omega arith

-- The device reads a request of at most 4096 bytes as it was meant, whatever follows on the line.
pub read_packet-request :
    (t : ℕ) (message line : Bytes)
    → length message ≤ 4096
    → read_packet (request t message ++ line) ≡ some (t, message, line)
unfolding read_packet
read_packet-request t message line fits = rw (
  low_three (length message) (omega arith),
  le→not-ltb 4096 (length message) fits,
  le→not-ltb (length (message ++ line)) (length message)
      (omega (arith, length-append {0} message line)),
  take-append message line,
  drop-append message line,
)

-- A longer request, up to the three bytes of the length, is refused by the device.
pub read_packet-long :
    (t : ℕ) (message line : Bytes)
    → 4096 < length message
    → length message < 2 ^ 24
    → read_packet (request t message ++ line) ≡ none
unfolding read_packet
read_packet-long t message line long small =
    rw (low_three (length message) small, lt→ltb 4096 (length message) long)
