-- ===== src/Keytool/Commands/Answers.antt =====
-- The commands at a device that answers.
use somethingremotelygood.Base.{
  ℕ, suc, ◌+◌, ◌*◌, ◌≤◌, ◌<◌, true, Option, some, ◌++◌, Bytes, length, length-append, take-append,
  All, Result, ok, raised, stuck, ◌≡◌, ◌≢◌, refl, sym, ap, ◌∙◌, arith, ◌==◌, leb,
}
use somethingremotelygood.Firmware.{packet}
use somethingremotelygood.Port.{Port}
use somethingremotelygood.Port.Laws.{Progress, Buffered}
use somethingremotelygood.Bridge.Link.Receive.{recv-packet}
use somethingremotelygood.Base.Hex.{fromhex}
use somethingremotelygood.Keytool.Packets.{send_packet, read_packet_within}
use somethingremotelygood.Keytool.Packets.Agreement.{caught, open_bridge, read_packet-recv}
use somethingremotelygood.Keytool.Commands.{
  Codecs, encode_text, front_of, open_port, exchange, unlock_agent, sign_bytes, sign_challenge,
}

caught_found :
    {A : Type 0} (r : Result (Option A)) (a : A) → caught r ≡ ok (some a) → r ≡ ok (some a)
caught_found (ok o) a h = h
caught_found (raised e) a h = cc
caught_found stuck a h = cc

front_of-take :
    (t : ℕ) (sig more : Bytes) → front_of t (length sig) (some (t, sig ++ more)) ≡ some sig
unfolding front_of
front_of-take t sig more =
    rw
      (
        same_type t,
        le→leb (length sig) (length (sig ++ more)) (omega (arith, length-append {0} sig more)),
        take-append sig more,
      )
      refl
  where
    same_type : (t : ℕ) → t == t ≡ true
    same_type t = ground arith

    le→leb : (m n : ℕ) → m ≤ n → leb m n ≡ true
    le→leb m n h = ground arith

first_bytes :
    (t n : ℕ) (sig more : Bytes) → length sig ≡ n → front_of t n (some (t, sig ++ more)) ≡ some sig
first_bytes t n sig more h = rw (sym h) (front_of-take t sig more)

module _ (p : Port) (w : Progress p) (u : Buffered p) where
  -- The port opens, the packet is sent, and the answer arrives soon behind text of the firmware.
  pub record Answers (t : ℕ) (message : Bytes) (timeout kind : ℕ) (payload : Bytes) (d : p.Device)
      : Type 0 where
    pub opened : p.Device
    pub sent : p.Device
    pub noise : Bytes
    pub rest : Bytes
    pub opens : open_port p d ≡ (ok tt, opened)
    pub sends : send_packet p t message opened ≡ (ok tt, sent)
    pub arrived : u.pending sent ≡ noise ++ (packet kind payload ++ rest)
    pub no_zero : All (λ b. b ≢ 0) noise
    pub fits : suc (length payload) ≤ 4096
    pub quick : u.lag * length noise + u.lag * 4 < timeout
    pub closes : (e : p.Device) → (p.close e).0 ≡ ok tt

  module _ {t timeout kind : ℕ} {message payload : Bytes} {d : p.Device} where
    read_answer :
        (a : Answers t message timeout kind payload d)
        → (read_packet_within p timeout a.sent).0 ≡ ok (some (kind, payload))
    read_answer a =
        caught_found (read_packet_within p timeout a.sent).0 (kind, payload)
          (sym (read_packet-recv p true w (some 5000) timeout a.sent).0
            ∙ (recv-packet w u 5000 kind timeout a.noise payload a.rest
                (open_bridge p true (some 5000) a.sent) a.no_zero a.fits a.quick refl a.arrived).0)

    exchange_answer :
        Answers t message timeout kind payload d
        → (exchange p t (ok message) timeout d).0 ≡ ok (some (kind, payload))
    unfolding exchange
    exchange_answer a =
        rw (a.opens, a.sends, read_answer a, a.closes (read_packet_within p timeout a.sent).1) refl

  -- At a device that answers the challenge, read from its hex text, by a sign response of 64 bytes
  -- or more, signing returns the first 64 of them.
  pub sign_challenge-answer :
      (challenge_hex challenge sig more : Bytes) (d : p.Device)
      → fromhex challenge_hex ≡ ok challenge
      → length sig ≡ 64
      → Answers 1 challenge 30000 14 (sig ++ more) d
      → (sign_challenge p challenge_hex d).0 ≡ ok (some sig)
  unfolding sign_challenge sign_bytes
  sign_challenge-answer challenge_hex challenge sig more d hex size a =
      rw (hex, sign_challenge) (rw (exchange_answer a) (ap ok (first_bytes 14 64 sig more size)))

  -- At a device that answers the encoded password, unlocking returns True exactly if the type of the
  -- answer is 6.
  pub unlock_agent-answer :
      (codecs : Codecs) (password message payload : Bytes) (kind : ℕ) (d : p.Device)
      → encode_text codecs password ≡ ok message
      → Answers 3 message 30000 kind payload d
      → (unlock_agent p codecs password d).0 ≡ ok (kind == 6)
  unfolding unlock_agent
  unlock_agent-answer codecs password message payload kind d e a = rw (e, exchange_answer a) refl
