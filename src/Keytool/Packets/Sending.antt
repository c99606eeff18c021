-- ===== src/Keytool/Packets/Sending.antt =====
-- Both programs send the same bytes.
use somethingremotelygood.Base.{
  ℕ, ◌/◌, ◌%◌, ◌^◌, ◌<◌, Bool, true, false, Option, ◌∷◌, ◌++◌, Bytes, length, slice, ok, ◌≡◌, refl,
  arith, Result-cases, got, failed, ran_out, lt→ltb,
}
use somethingremotelygood.Base.Effects.{pure, on_exception, ◌>>◌}
use somethingremotelygood.Port.{Port}
use somethingremotelygood.Wire.{to_bytes, word}
use somethingremotelygood.Wire.Laws.{pack_fits}
use somethingremotelygood.Bridge.Object.{Bridge, on_device}
use somethingremotelygood.Bridge.Link.{
  header_numbers, send_packet_bytes, send_through, send_to_esp32,
}
use somethingremotelygood.Keytool.Packets.{send_packet}
use somethingremotelygood.Keytool.Packets.Agreement.{open_bridge}

module _ (p : Port) (running : Bool) where
  -- the bytes before the message, in both programs
  same_header : (t n : ℕ) → t < 256 → to_bytes (header_numbers t n) ≡ ok (t ∷ slice 1 4 (word n))
  unfolding to_bytes
  same_header t n small =
      rw
        (
          lt→ltb t 256 small,
          lt→ltb (n / 2 ^ 16 % 256) 256 (omega arith),
          lt→ltb (n / 2 ^ 8 % 256) 256 (omega arith),
          lt→ltb (n % 256) 256 (omega arith),
        )
        refl

  written :
      (bytes : Bytes) (s : Bridge p)
      → (on_device (p.write bytes) >> (on_device p.flush >> pure true)) s
        ≡ (on_device (p.write bytes >> p.flush) >> pure true) s
  written bytes s = elim (Result-cases (p.write bytes s.device).0) [
    | got (u, q) ↦ rw q refl
    | failed (x, q) ↦ rw q refl
    | ran_out q ↦ rw q refl
  ]

  send_packet-bytes :
      (t : ℕ) (message : Bytes) (d : p.Device)
      → t < 256
      → length message < 2 ^ 32
      → send_packet p t message d
        ≡ (p.write ((t ∷ slice 1 4 (word (length message))) ++ message) >> p.flush) d
  unfolding send_packet to_bytes
  send_packet-bytes t message d small fits =
      rw (pack_fits (length message) fits, lt→ltb t 256 small) refl

  bridge-bytes :
      (t : ℕ) (message : Bytes) (s : Bridge p)
      → t < 256
      → send_packet_bytes t message s
        ≡ (on_device (p.write ((t ∷ slice 1 4 (word (length message))) ++ message))
              >> (on_device p.flush >> pure true))
            s
  unfolding send_packet_bytes
  bridge-bytes t message s small = rw (same_header t (length message) small) refl

  -- The tool sends a packet of a type below 256 and less than 2^32 bytes as the bridge does: the same
  -- bytes are written, and the bridge turns an exception into False.
  pub send_packet-send :
      (t : ℕ) (message : Bytes) (o : Option ℕ) (d : p.Device)
      → t < 256
      → length message < 2 ^ 32
      → send_to_esp32 t message (open_bridge p running o d)
        ≡ on_exception
            (on_device (send_packet p t message) >> pure true)
            (pure false)
            (open_bridge p running o d)
  unfolding send_to_esp32 send_through
  send_packet-send t message o d small fits =
      let s = open_bridge p running o d in
      rw
        (
          bridge-bytes t message s small,
          written ((t ∷ slice 1 4 (word (length message))) ++ message) s,
          send_packet-bytes t message d small fits,
        )
        refl
