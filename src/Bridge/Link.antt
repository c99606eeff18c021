-- ===== src/Bridge/Link.antt =====
-- Packets on the serial line (`_serial_read_exact`, `send_to_esp32`, `recv_from_esp32`).
pub mod Returns
pub mod Header
pub mod Receive
pub mod Exchange
pub mod Bounds
use somethingremotelygood.Base.{
  ℕ, zero, suc, ◌+◌, ◌-◌, ◌/◌, ◌%◌, ◌^◌, Bool, true, false, ◌||◌, Option, none, some, [], ◌∷◌, ◌++◌,
  Bytes, length, Result, index_error, stuck, Exec, ltb, ◌==◌, if◌then◌else◌,
}
use somethingremotelygood.Base.Effects.{pure, raise, lift, gets, modify, on_exception, ◌>>=◌, ◌>>◌}
use somethingremotelygood.Port.{Port}
use somethingremotelygood.Wire.{unpack, to_bytes}
use somethingremotelygood.Bridge.Object.{Serial, Bridge, now, on_device, serial_read, set_timeout}

-- `[msg_type, (length >> 16) & 0xFF, (length >> 8) & 0xFF, length & 0xFF]`
abbrev pub header_numbers : ℕ → ℕ → Bytes
header_numbers msg_type n = msg_type ∷ (n / 2 ^ 16 % 256) ∷ (n / 2 ^ 8 % 256) ∷ (n % 256) ∷ []

-- What one read of a byte does to the header, and whether the loop breaks.
unfoldable pub accept : Bytes → Bytes → Bytes × Bool
accept header [] = (header, false)
accept [] (b ∷ bs) = (if b == 0 then b ∷ bs else [], false)
accept (h ∷ hs) (b ∷ bs) = let header = (h ∷ hs) ++ (b ∷ bs) in (header, length header == 4)

-- `data[0]` and `data[1:]`
unfoldable pub split_packet : {S : Type 0} → Bytes → Exec S (Option (ℕ × Bytes))
split_packet [] = raise index_error
split_packet (t ∷ rest) = pure (some (t, rest))

module _ {p : Port} where
  serial_read_exact_open : Option ℕ → ℕ → ℕ → Exec (Bridge p) (Option Bytes)
  serial_read_exact_open old n timeout = do
    set_timeout (some timeout)
    bytes ← serial_read n
    set_timeout old
    pure (if ltb (length bytes) n then none else some bytes)

  serial_read_exact : ℕ → ℕ → Exec (Bridge p) (Option Bytes)
  serial_read_exact n timeout s = elim s.serial [
    | none ↦ (pure none) s
    | some ser ↦ serial_read_exact_open ser.timeout n timeout s
  ]

  -- inside the `try`
  unfoldable pub send_packet_bytes : ℕ → Bytes → Exec (Bridge p) Bool
  send_packet_bytes msg_type bytes = do
    header ← lift (to_bytes (header_numbers msg_type (length bytes)))
    on_device (p.write (header ++ bytes))
    on_device p.flush
    pure true

  -- `if not self.serial: return False`
  unfoldable pub send_through : Option Serial → ℕ → Bytes → Exec (Bridge p) Bool
  send_through none msg_type bytes = pure false
  send_through (some ser) msg_type bytes =
      on_exception (send_packet_bytes msg_type bytes) (pure false)

  unfoldable pub send_to_esp32 : ℕ → Bytes → Exec (Bridge p) Bool
  unfolding send_packet_bytes send_through
  send_to_esp32 msg_type bytes s = send_through s.serial msg_type bytes s

  -- `while time.time() < deadline`
  unfoldable pub read_header : ℕ → ℕ → Bytes → Exec (Bridge p) Bytes
  read_header zero deadline header s = (stuck, s)
  read_header (suc fuel) deadline header s = elim (ltb (now s) deadline) [
    | false ↦ (pure header) s
    | true ↦
        (do
          b ← serial_read 1
          let next = accept header b
          elim next.1 [ true ↦ pure next.0 | false ↦ read_header fuel deadline next.0 ])
          s
  ]

  -- `if old_timeout is not None: self.serial.timeout = old_timeout`
  unfoldable pub restore : Option ℕ → Exec (Bridge p) (Unit {0})
  restore none = pure tt
  restore (some t) = set_timeout (some t)

  -- from the length to the packet
  unfoldable pub recv_body : Option ℕ → ℕ → ℕ → Exec (Bridge p) (Option (ℕ × Bytes))
  unfolding restore split_packet
  recv_body old deadline n = if ltb n 1 || ltb 4096 n then restore old >> pure none else (do
    t ← gets now
    if ltb t deadline then set_timeout (some (deadline - t)) else pure tt
    bytes ← serial_read n
    restore old
    if ltb (length bytes) n then pure none else split_packet bytes)

  -- after the loop over the header
  unfoldable pub recv_packet : Option ℕ → ℕ → Bytes → Exec (Bridge p) (Option (ℕ × Bytes))
  unfolding recv_body
  recv_packet old deadline header =
      if ltb (length header) 4
      then restore old >> pure none
      else (do n ← lift (unpack header); recv_body old deadline n)

  -- after `self.serial` was found, with the loop's fuel
  unfoldable pub recv_open : ℕ → Option ℕ → ℕ → ℕ → Exec (Bridge p) (Option (ℕ × Bytes))
  unfolding recv_packet read_header
  recv_open fuel old timeout deadline = do
    set_timeout (some timeout)
    header ← read_header fuel deadline []
    recv_packet old deadline header

  -- A read takes a millisecond at least, so `timeout + 1` rounds are enough.
  unfoldable pub recv_from_esp32 : ℕ → Exec (Bridge p) (Option (ℕ × Bytes))
  unfolding recv_open
  recv_from_esp32 timeout s =
      on_exception
        (do
          deadline ← gets (λ b. now b + timeout)
          λ b. elim b.serial [
            | none ↦ (pure none) b
            | some ser ↦ recv_open (suc timeout) ser.timeout timeout deadline b
          ])
        (pure none) s
