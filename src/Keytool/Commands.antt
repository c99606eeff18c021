-- ===== src/Keytool/Commands.antt =====
-- The commands of the tool: `generate_key`, `get_public_key`, `unlock_agent`, `lock_agent` and
-- `sign_challenge`. What they print is left out, except for the public key.
pub mod Outcomes
pub mod Plain
pub mod Answers
use somethingremotelygood.Base.{
  ℕ, zero, suc, ◌+◌, ◌*◌, ◌-◌, Bool, true, false, ◌||◌, ◌&&◌, not, Option, none, some, [], ◌∷◌,
  ◌++◌, Bytes, codes, length, take, Result, ok, raised, stuck, value_error, Exec, ltb, leb, ◌==◌,
  if◌then◌else◌,
}
use somethingremotelygood.Base.Texts.{contains}
use somethingremotelygood.Base.Hex.{fromhex}
use somethingremotelygood.Base.Effects.{pure, lift, gets, modify, on_exception, ◌>>=◌, ◌>>◌}
use somethingremotelygood.Port.{Port}
use somethingremotelygood.Bridge.Blobs.{build_ed25519_key_blob}
use somethingremotelygood.Keytool.Packets.{send_packet, read_packet_within}

abbrev pub protocol_sign_challenge : ℕ
protocol_sign_challenge = 0x01

abbrev pub protocol_get_public_key : ℕ
protocol_get_public_key = 0x02

abbrev pub protocol_unlock : ℕ
protocol_unlock = 0x03

abbrev pub protocol_lock : ℕ
protocol_lock = 0x04

abbrev pub protocol_generate_encrypted : ℕ
protocol_generate_encrypted = 0x05

abbrev pub ssh_agent_failure : ℕ
ssh_agent_failure = 5

abbrev pub ssh_agent_success : ℕ
ssh_agent_success = 6

abbrev pub ssh_agent_sign_response : ℕ
ssh_agent_sign_response = 14

abbrev pub ssh_agent_locked : ℕ
ssh_agent_locked = 0x20

-- What the tool uses of Python's codecs: `str.encode('utf-8')`, `bytes.decode` with `strip`, and
-- `base64.b64encode`.
pub record Codecs : Type 0 where
  -- `none` is a UnicodeEncodeError, which is a ValueError
  pub encode : Bytes → Option Bytes
  pub decode_line : Bytes → Bytes
  pub b64encode : Bytes → Bytes

abbrev pub encode_text : Codecs → Bytes → Result Bytes
encode_text codecs s = elim (codecs.encode s) [ none ↦ raised value_error | some b ↦ ok b ]

-- `if password:`
abbrev pub given : Option Bytes → Bool
given none = false
given (some []) = false
given (some (c ∷ s)) = true

abbrev pub text_of : Option Bytes → Bytes
text_of none = []
text_of (some s) = s

-- `msg_type == t`
abbrev pub has_type : ℕ → Option (ℕ × Bytes) → Bool
has_type t none = false
has_type t (some (kind, _)) = kind == t

-- The first `n` bytes of a reply of type `t` that has as many.
unfoldable pub front_of : ℕ → ℕ → Option (ℕ × Bytes) → Option Bytes
front_of t n none = none
front_of t n (some (kind, bytes)) =
    if kind == t && leb n (length bytes) then some (take n bytes) else none

module _ (p : Port) where
  -- `serial.Serial(...)`, the wait and `reset_input_buffer`
  unfoldable pub open_port : Exec p.Device (Unit {0})
  open_port = do p.connect; modify (p.sleep 2000); p.reset_input_buffer

  -- a packet to the device and its reply; the port is closed only if nothing was raised
  unfoldable pub exchange : ℕ → Result Bytes → ℕ → Exec p.Device (Option (ℕ × Bytes))
  unfolding open_port send_packet read_packet_within
  exchange msg_type message timeout = do
    open_port
    m ← lift message
    send_packet p msg_type m
    reply ← read_packet_within p timeout
    p.close
    pure reply

module _ (p : Port) (codecs : Codecs) where
  -- `while time.time() < timeout`: was the success line seen?
  unfoldable pub wait_for_key : ℕ → ℕ → Exec p.Device Bool
  unfolding contains
  wait_for_key zero limit d = (stuck, d)
  wait_for_key (suc fuel) limit d = elim (ltb (p.now d) limit) [
    | false ↦ (pure false) d
    | true ↦
        (do
          line ← p.readline (some 2000)
          elim (contains (codes "Key generation successful") (codecs.decode_line line)) [
            | true ↦ pure true
            | false ↦ wait_for_key fuel limit
          ])
          d
  ]

  -- without a password, after the port was opened
  unfoldable pub generate_plain : Exec p.Device Bool
  unfolding wait_for_key
  generate_plain = do
    limit ← gets (λ d. p.now d + 30000)
    seen ← wait_for_key 30001 limit
    p.close
    pure true

  unfoldable pub generate_key : Option Bytes → Exec p.Device Bool
  unfolding open_port exchange generate_plain
  generate_key password =
      on_exception
        (if given password
          then (do
            reply ←
                exchange p protocol_generate_encrypted (encode_text codecs (text_of password)) 30000
            pure (has_type ssh_agent_success reply))
          else open_port p >> generate_plain)
        (pure false)

  -- the line that it prints, with the key blob in base64, and the key that it returns
  unfoldable pub print_key : Option Bytes → Exec p.Device (Option (Bytes × Bytes))
  print_key none = pure none
  print_key (some pubkey) = do
    blob ← lift (build_ed25519_key_blob pubkey)
    pure (some (codes "ssh-ed25519 " ++ codecs.b64encode blob, pubkey))

  unfoldable pub get_public_key : Exec p.Device (Option (Bytes × Bytes))
  unfolding exchange front_of print_key
  get_public_key =
      on_exception
        (do
          reply ← exchange p protocol_get_public_key (ok []) 10000
          print_key (front_of protocol_get_public_key 32 reply))
        (pure none)

  unfoldable pub unlock_agent : Bytes → Exec p.Device Bool
  unfolding exchange
  unlock_agent password =
      on_exception
        (do
          reply ← exchange p protocol_unlock (encode_text codecs password) 30000
          pure (has_type ssh_agent_success reply))
        (pure false)

module _ (p : Port) where
  unfoldable pub lock_agent : Exec p.Device Bool
  unfolding exchange
  lock_agent =
      on_exception
        (do reply ← exchange p protocol_lock (ok []) 10000; pure (has_type ssh_agent_success reply))
        (pure false)

  -- the hex text was read
  unfoldable pub sign_bytes : Bytes → Exec p.Device (Option Bytes)
  unfolding exchange front_of
  sign_bytes challenge =
      on_exception
        (do
          reply ← exchange p protocol_sign_challenge (ok challenge) 30000
          pure (front_of ssh_agent_sign_response 64 reply))
        (pure none)

  -- a text that is not hex is refused before the port is opened
  abbrev sign_parsed : Result Bytes → Exec p.Device (Option Bytes)
  unfolding sign_bytes
  sign_parsed (ok challenge) = sign_bytes challenge
  sign_parsed _ = pure none

  unfoldable pub sign_challenge : Bytes → Exec p.Device (Option Bytes)
  unfolding sign_bytes fromhex
  sign_challenge challenge_hex = sign_parsed (fromhex challenge_hex)
