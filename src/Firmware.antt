-- ===== src/Firmware.antt =====
-- The device's side of the serial line, esp32/ssh_agent/src/main.cpp, as far as the wrapper scripts
-- rely on it: how a packet is read and how a response is written.
use somethingremotelygood.Base.{
  ℕ, ◌+◌, ◌*◌, ◌^◌, Option, none, some, ◌∷◌, ◌++◌, Bytes, length, take, drop, ltb, if◌then◌else◌,
}
use somethingremotelygood.Wire.{word}

-- `sendResponse`
abbrev pub send_response : Bytes → Bytes
send_response message = word (length message) ++ message

-- A response with its type in the first byte.
abbrev pub packet : ℕ → Bytes → Bytes
packet t payload = send_response (t ∷ payload)

-- `readPacket` on the bytes that arrive before its timeout: the type, the data, and what is left.
-- `none` is its `false`.
unfoldable pub read_packet : Bytes → Option (ℕ × Bytes × Bytes)
read_packet (t ∷ b1 ∷ b2 ∷ b3 ∷ line) =
    let n = b1 * 2 ^ 16 + b2 * 2 ^ 8 + b3 in
    if ltb 4096 n
    then none
    else if ltb (length line) n
    then none
    else some (t, take n line, drop n line)
read_packet _ = none
