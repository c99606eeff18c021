-- ===== src/Keytool/Packets.antt =====
-- Packets of the tool (`send_packet`, `read_packet`). The timeout of `ser` is passed along.
pub mod Agreement
pub mod Sending
use somethingremotelygood.Base.{
  ℕ, zero, suc, ◌+◌, ◌-◌, Bool, true, false, ◌||◌, Option, none, some, [], ◌∷◌, ◌++◌, Bytes, length,
  slice, stuck, Exec, ltb, if◌then◌else◌,
}
use somethingremotelygood.Base.Effects.{pure, lift, gets, ◌>>=◌, ◌>>◌}
use somethingremotelygood.Port.{Port}
use somethingremotelygood.Wire.{pack, unpack, to_bytes}
use somethingremotelygood.Bridge.Link.{accept, split_packet}

module _ (p : Port) where
  unfoldable pub send_packet : ℕ → Bytes → Exec p.Device (Unit {0})
  send_packet msg_type message = do
    kind ← lift (to_bytes (msg_type ∷ []))
    size ← lift (pack (length message))
    p.write ((kind ++ slice 1 4 size) ++ message)
    p.flush

  -- `while time.time() < deadline`; each byte is handled as in the bridge's loop
  unfoldable pub scan_header : ℕ → ℕ → ℕ → Bytes → Exec p.Device Bytes
  unfolding accept
  scan_header zero timeout deadline header d = (stuck, d)
  scan_header (suc fuel) timeout deadline header d = elim (ltb (p.now d) deadline) [
    | false ↦ (pure header) d
    | true ↦
        (do
          b ← p.read (some timeout) 1
          let next = accept header b
          elim next.1 [ true ↦ pure next.0 | false ↦ scan_header fuel timeout deadline next.0 ])
          d
  ]

  -- from the length to the packet
  unfoldable pub take_body : ℕ → ℕ → ℕ → Exec p.Device (Option (ℕ × Bytes))
  unfolding split_packet
  take_body timeout deadline n = if ltb n 1 || ltb 4096 n then pure none else (do
    t ← gets p.now
    bytes ← p.read (some (if ltb t deadline then deadline - t else timeout)) n
    if ltb (length bytes) n then pure none else split_packet bytes)

  -- after the loop
  unfoldable pub take_packet : ℕ → ℕ → Bytes → Exec p.Device (Option (ℕ × Bytes))
  unfolding take_body
  take_packet timeout deadline header =
      if ltb (length header) 4
      then pure none
      else (do n ← lift (unpack header); take_body timeout deadline n)

  -- A read takes a millisecond at least, so `timeout + 1` rounds are enough.
  unfoldable pub read_packet_within : ℕ → Exec p.Device (Option (ℕ × Bytes))
  unfolding scan_header take_packet
  read_packet_within timeout = do
    deadline ← gets (λ d. p.now d + timeout)
    header ← scan_header (suc timeout) timeout deadline []
    take_packet timeout deadline header
