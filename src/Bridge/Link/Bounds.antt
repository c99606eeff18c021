-- ===== src/Bridge/Link/Bounds.antt =====
-- How long a received packet can be.
use somethingremotelygood.Base.{
  ℕ, suc, ◌+◌, ◌-◌, ◌≤◌, subst, false, ◌||◌, Option, none, some, [], ◌∷◌, Bytes, length, ok, ◌≡◌,
  arith, ltb, Option-cases, inl, inr, if◌then◌else◌,
}
use somethingremotelygood.Base.Effects.{gets, pure, lift}
use somethingremotelygood.Base.Effects.Post.{
  Post, Post-pure, Post-raise, Post-if, Post-bind, Post-then, Post-on_exception,
}
use somethingremotelygood.Wire.{unpack}
use somethingremotelygood.Port.{Port}
use somethingremotelygood.Port.Laws.{Progress}
use somethingremotelygood.Bridge.Object.{Bridge, now, serial_read, set_timeout}
use somethingremotelygood.Bridge.Link.{
  read_header, recv_body, recv_packet, recv_open, recv_from_esp32, split_packet, restore,
}

-- The type and the payload together have at most 4096 bytes.
abbrev pub IsSmall : Option (ℕ × Bytes) → Type 0
IsSmall none = Unit
IsSmall (some (t, payload)) = suc (length payload) ≤ 4096

below_limit : (n m : ℕ) → (ltb n 1 || ltb 4096 n) ≡ false → m ≤ n → m ≤ 4096
below_limit n m good short = ground arith

module _ {p : Port} (w : Progress p) where
  serial_read-Post : (n : ℕ) → Post {S = Bridge p} (λ b. length b ≤ n) (serial_read n)
  unfolding serial_read
  serial_read-Post n = record {
    at = λ s b. elim (Option-cases s.serial) [
      | inl e ↦ rw e (λ q. cc)
      | inr (ser, e) ↦ rw e (w.read_bounded ser.timeout n s.device b)
    ];
  }

  split_packet-Post : (b : Bytes) → length b ≤ 4096 → Post {S = Bridge p} IsSmall (split_packet b)
  unfolding split_packet
  split_packet-Post [] h = Post-raise _
  split_packet-Post (t ∷ b) h = Post-pure (some (t, b)) h

  recv_body-Post :
      (old : Option ℕ) (deadline n : ℕ) → Post {S = Bridge p} IsSmall (recv_body old deadline n)
  unfolding recv_body
  recv_body-Post old deadline n =
      Post-if (ltb n 1 || ltb 4096 n) _ _
        (λ bad. Post-then (restore old) _ (λ a. Post-pure none tt))
        λ good. Post-then (gets now) _ λ t.
          Post-then (if ltb t deadline then set_timeout (some (deadline - t)) else pure tt) _ λ a.
            Post-bind (λ b. length b ≤ n) (serial_read n) _ (serial_read-Post n)
              λ bytes short. Post-then (restore old) _ λ b.
                Post-if (ltb (length bytes) n) _ _ (λ q. Post-pure none tt)
                  (λ q. split_packet-Post bytes (below_limit n (length bytes) good short))

  recv_packet-Post :
      (old : Option ℕ) (deadline : ℕ) (header : Bytes)
      → Post {S = Bridge p} IsSmall (recv_packet old deadline header)
  unfolding recv_packet
  recv_packet-Post old deadline header =
      Post-if (ltb (length header) 4) _ _ (λ q. Post-then (restore old) _ (λ a. Post-pure none tt))
        (λ q. Post-then (lift (unpack header)) _ (λ n. recv_body-Post old deadline n))

  recv_open-Post :
      (fuel timeout deadline : ℕ) (old : Option ℕ)
      → Post {S = Bridge p} IsSmall (recv_open fuel old timeout deadline)
  unfolding recv_open
  recv_open-Post fuel timeout deadline old = Post-then (set_timeout (some timeout)) _ (λ a.
      Post-then (read_header fuel deadline []) _ (λ header. recv_packet-Post old deadline header))

  -- What is received has a type and at most 4095 bytes of payload.
  pub recv-IsSmall :
      (timeout : ℕ) (s : Bridge p) (r : Option (ℕ × Bytes))
      → (recv_from_esp32 timeout s).0 ≡ ok r
      → IsSmall r
  unfolding recv_from_esp32
  recv-IsSmall timeout s r = elim (Option-cases s.serial) [
    | inl e ↦ rw e (λ q. subst IsSmall {x = none} (cc) tt)
    | inr (ser, e) ↦ rw e (
        (Post-on_exception (recv_open (suc timeout) ser.timeout timeout (now s + timeout)) none
            (recv_open-Post (suc timeout) timeout (now s + timeout) ser.timeout) tt).at
          s r)
  ]
