-- ===== src/Keytool/Commands/Outcomes.antt =====
-- How the commands of the tool end.
use somethingremotelygood.Base.{
  ℕ, zero, suc, ◌+◌, ◌≤◌, ◌<◌, Bool, true, false, ◌&&◌, Option, none, some, [], Bytes, codes,
  length, length-take, Result, ok, stuck, Exec, ◌≡◌, ◌≢◌, inl, inr, arith, ltb, leb, ◌^◌, ◌==◌,
  Bool-cases, Option-cases, Result-cases, got, failed, ran_out, lt→ltb, le→not-ltb, dec_lt,
}
use somethingremotelygood.Base.Effects.{pure, on_exception, ◌>>=◌}
use somethingremotelygood.Base.Effects.Ends.{
  Ends, Ends-pure, Ends-lift, Ends-if, Ends-bind, ends_rules, bind-ends, on_exception-returns,
}
use somethingremotelygood.Base.Effects.Post.{Post, Post-pure, Post-then, Post-on_exception}
use somethingremotelygood.Base.Effects.Yields.{Yields, Yields-pure}
use somethingremotelygood.Port.{Port}
use somethingremotelygood.Port.Laws.{Progress, Lifecycle}
use somethingremotelygood.Wire.{pack}
use somethingremotelygood.Bridge.Link.Returns.{to_bytes_ends}
use somethingremotelygood.Bridge.Blobs.{ssh_string, build_ed25519_key_blob}
use somethingremotelygood.Base.Hex.{fromhex}
use somethingremotelygood.Keytool.Packets.{send_packet, read_packet_within}
use somethingremotelygood.Keytool.Packets.Agreement.{read_packet_ends}
use somethingremotelygood.Base.Texts.{contains}
use somethingremotelygood.Keytool.Commands.{
  Codecs, encode_text, given, text_of, has_type, front_of, open_port, exchange, wait_for_key,
  generate_plain, generate_key, print_key, get_public_key, unlock_agent, lock_agent, sign_bytes,
  sign_challenge, ssh_agent_success,
}

pack_ends : (n : ℕ) → pack n ≢ stuck
unfolding pack
pack_ends n = elim (Bool-cases (ltb n (2 ^ 32))) [ inl e ↦ rw e (λ q. cc) | inr e ↦ rw e (λ q. cc) ]

build_ends : (key : Bytes) → build_ed25519_key_blob key ≢ stuck
unfolding build_ed25519_key_blob ssh_string pack
build_ends key = elim (Bool-cases (ltb (length key) (2 ^ 32))) [
  | inl e ↦ rw e (λ q. cc)
  | inr e ↦ rw e (λ q. cc)
]

encode_ends : (codecs : Codecs) (s : Bytes) → encode_text codecs s ≢ stuck
encode_ends codecs s = elim (Option-cases (codecs.encode s)) [
  | inl e ↦ rw (e, encode_text) (λ q. cc)
  | inr (b, e) ↦ rw (e, encode_text) (λ q. cc)
]

-- The first component, if there is one, has `n` bytes.
abbrev pub IsSized : ℕ → Option Bytes → Type 0
IsSized n none = Unit
IsSized n (some b) = length b ≡ n

front_of-IsSized : (t n : ℕ) (reply : Option (ℕ × Bytes)) → IsSized n (front_of t n reply)
unfolding front_of
front_of-IsSized t n none = tt
front_of-IsSized t n (some (kind, bytes)) = elim (Bool-cases (kind == t && leb n (length bytes))) [
  | inl e ↦ rw e (omega (arith, length-take {0} n bytes, enough (kind == t) n (length bytes) e))
  | inr e ↦ rw e tt
]
  where
    enough : (a : Bool) (n k : ℕ) → a && leb n k ≡ true → n ≤ k
    enough a n k e = ground arith

-- a call with a handler that returns
guarded :
    {S A : Type 0} (P : A → Type 0) (m : Exec S A) (a : A)
    → Ends m
    → Post P m
    → P a
    → Yields P (on_exception m (pure a))
guarded P m a hm hp ha = record {
  at = λ s.
      let (r, e) = on_exception-returns m a s (hm.at s) in
      (r, e, (Post-on_exception m a hp ha).at s r e);
}

anything : {S A : Type 0} (m : Exec S A) → Post (λ (a : A). Unit {0}) m
anything m = record { at = λ s a e. tt }

module _ (p : Port) (w : Progress p) (l : Lifecycle p) where
  Ends-connect : Ends p.connect
  Ends-connect = record { at = l.connect_ends }

  Ends-reset : Ends p.reset_input_buffer
  Ends-reset = record { at = l.reset_ends }

  Ends-close : Ends p.close
  Ends-close = record { at = l.close_ends }

  Ends-write : (b : Bytes) → Ends (p.write b)
  Ends-write b = record { at = w.write_ends b }

  Ends-flush : Ends p.flush
  Ends-flush = record { at = w.flush_ends }

  Ends-read_packet : (timeout : ℕ) → Ends (read_packet_within p timeout)
  Ends-read_packet timeout = record { at = read_packet_ends p true w timeout }

  Ends-send_packet : (t : ℕ) (m : Bytes) → Ends (send_packet p t m)
  unfolding send_packet
  Ends-send_packet t m =
      search (ends_rules, Ends-lift, to_bytes_ends, pack_ends, Ends-write, Ends-flush) depth 9

  Ends-open_port : Ends (open_port p)
  unfolding open_port
  Ends-open_port = search (ends_rules, Ends-connect, Ends-reset) depth 9

  Ends-exchange :
      (t : ℕ) (m : Result Bytes) (timeout : ℕ) → m ≢ stuck → Ends (exchange p t m timeout)
  unfolding exchange
  Ends-exchange t m timeout h =
      search (ends_rules, Ends-lift, Ends-open_port, Ends-send_packet, Ends-read_packet, Ends-close)
        depth 12

  Ends-print_key : (codecs : Codecs) (o : Option Bytes) → Ends (print_key p codecs o)
  unfolding print_key
  Ends-print_key codecs none = Ends-pure none
  Ends-print_key codecs (some key) =
      Ends-bind _ _ (Ends-lift (build_ed25519_key_blob key) (build_ends key)) λ blob. Ends-pure _

  -- a command that asks whether the device answers success
  module _ (t : ℕ) (m : Result Bytes) (timeout : ℕ) (ends : m ≢ stuck) where
    Ends-asked : Ends (exchange p t m timeout >>= λ reply. pure (has_type ssh_agent_success reply))
    Ends-asked = Ends-bind _ _ (Ends-exchange t m timeout ends) λ r. Ends-pure _

    asked-Yields :
        Yields
          (λ b. Unit {0})
          (on_exception
            (exchange p t m timeout >>= λ reply. pure (has_type ssh_agent_success reply))
            (pure false))
    asked-Yields = guarded _ _ false Ends-asked (anything _) tt

  pub unlock_agent-Yields :
      (codecs : Codecs) (password : Bytes) → Yields (λ b. Unit {0}) (unlock_agent p codecs password)
  unfolding unlock_agent
  unlock_agent-Yields codecs password =
      asked-Yields 3 (encode_text codecs password) 30000 (encode_ends codecs password)

  pub lock_agent-Yields : Yields (λ b. Unit {0}) (lock_agent p)
  unfolding lock_agent
  lock_agent-Yields = asked-Yields 4 (ok []) 10000 (λ q. cc)

  pub get_public_key-Yields : (codecs : Codecs) → Yields (λ o. Unit {0}) (get_public_key p codecs)
  unfolding get_public_key
  get_public_key-Yields codecs =
      guarded _ _ none
        (Ends-bind _ _ (Ends-exchange 2 (ok []) 10000 (λ q. cc))
          λ r. Ends-print_key codecs (front_of 2 32 r))
        (anything _) tt

  sign_bytes-Yields : (challenge : Bytes) → Yields (IsSized 64) (sign_bytes p challenge)
  unfolding sign_bytes
  sign_bytes-Yields challenge =
      guarded (IsSized 64) _ none
        (Ends-bind _ _ (Ends-exchange 1 (ok challenge) 30000 (λ q. cc)) λ r. Ends-pure _)
        (Post-then _ _ λ r. Post-pure _ (front_of-IsSized 14 64 r)) tt

  -- Signing always returns: a signature of exactly 64 bytes, or nothing.
  pub sign_challenge-Yields :
      (challenge_hex : Bytes) → Yields (IsSized 64) (sign_challenge p challenge_hex)
  unfolding sign_challenge
  sign_challenge-Yields challenge_hex = elim (Result-cases (fromhex challenge_hex)) [
    | got (challenge, e) ↦ rw (e, sign_challenge) (sign_bytes-Yields challenge)
    | failed (x, e) ↦ rw (e, sign_challenge) (Yields-pure none tt)
    | ran_out e ↦ rw (e, sign_challenge) (Yields-pure none tt)
  ]

  wait_for_key_ends :
      (codecs : Codecs) (fuel limit : ℕ) (d : p.Device)
      → limit < p.now d + fuel
      → 0 < fuel
      → (wait_for_key p codecs fuel limit d).0 ≢ stuck
  unfolding wait_for_key
  wait_for_key_ends codecs zero limit d h f = absurd (omega arith)
  wait_for_key_ends codecs (suc fuel) limit d h f = elim (dec_lt (p.now d) limit) [
    | no late ↦ rw (le→not-ltb (p.now d) limit (omega arith), wait_for_key) (λ q. cc)
    | yes early ↦
        rw (lt→ltb (p.now d) limit early, wait_for_key)
          (bind-ends (p.readline (some 2000)) _ d (l.readline_ends (some 2000) d) λ line e.
            elim (Bool-cases
              (contains (codes "Key generation successful") (codecs.decode_line line))) [
                | inl found ↦ rw found (λ q. cc)
                | inr other ↦ rw other (
                    wait_for_key_ends codecs fuel limit (p.readline (some 2000) d).1
                      (omega (arith, l.readline_ticks (some 2000) d))
                      (omega (arith, l.readline_ticks (some 2000) d)))
              ])
  ]

  Ends-generate_plain : (codecs : Codecs) → Ends (generate_plain p codecs)
  unfolding generate_plain
  Ends-generate_plain codecs = record {
    at = λ d.
        bind-ends (wait_for_key p codecs 30001 (p.now d + 30000)) _ d
          (wait_for_key_ends codecs 30001 (p.now d + 30000) d (omega arith) (omega arith))
          λ seen e. (Ends-bind _ _ Ends-close λ u. Ends-pure true).at _;
  }

  pub generate_key-Yields :
      (codecs : Codecs) (password : Option Bytes)
      → Yields (λ b. Unit {0}) (generate_key p codecs password)
  unfolding generate_key
  generate_key-Yields codecs password =
      guarded _ _ false
        (Ends-if (given password) _ _
          (Ends-asked 5 (encode_text codecs (text_of password)) 30000
            (encode_ends codecs (text_of password)))
          (Ends-bind _ _ Ends-open_port λ u. Ends-generate_plain codecs))
        (anything _) tt
