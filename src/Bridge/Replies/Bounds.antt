-- ===== src/Bridge/Replies/Bounds.antt =====
-- Every reply that is made of a received packet is a short message with a type of the protocol.
use somethingremotelygood.Base.{
  ℕ, ◌+◌, ◌≤◌, Bool, true, ◌||◌, Option, none, some, [], ◌∷◌, ◌++◌, Bytes, length, slice,
  length-append, length-slice, Result, ok, ◌≡◌, refl, arith, ltb, ◌==◌, inl, inr, Bool-cases,
  not-ltb→le,
}
use somethingremotelygood.Wire.{word}
use somethingremotelygood.Wire.Laws.{unpack_four, pack_fits}
use somethingremotelygood.Bridge.Blobs.{key_type, create_failure}
use somethingremotelygood.Bridge.Blobs.Laws.{build_key_fits, build_sig_fits, ssh_string_fits}
use somethingremotelygood.Bridge.Link.Bounds.{IsSmall}
use somethingremotelygood.Bridge.Replies.{
  status_reply, comment, one_identity, no_identities, identities_payload, identities_reply,
  signature_payload, signature_reply,
}

-- The types of replies: failure, success, identities, signature, locked.
abbrev pub is_reply_type : ℕ → Bool
is_reply_type t = ((t == 5) || (t == 6)) || ((t == 12) || ((t == 14) || (t == 32)))

abbrev pub IsReply : Bytes → Type 0
IsReply [] = ⊥
IsReply (t ∷ rest) = (is_reply_type t ≡ true) × (length rest ≤ 4200)

pub status_reply-IsReply : (r : Option (ℕ × Bytes)) → IsReply (status_reply r)
unfolding status_reply
status_reply-IsReply none = (refl, omega arith)
status_reply-IsReply (some (t, payload)) = elim (Bool-cases (t == 6)) [
  | inl e ↦ rw e (refl, omega arith)
  | inr e ↦ rw e (refl, omega arith)
]

one_identity-IsReply :
    (key : Bytes) → length key ≤ 4096 → (r : Bytes) × (one_identity key ≡ ok r) × IsReply r
unfolding one_identity
one_identity-IsReply key short =
    let blob = word 11 ++ key_type ++ word (length key) ++ key in
    let size : length blob ≡ 19 + length key =
      omega (arith, length-append {0} (word 11 ++ key_type ++ word (length key)) key) in
    (
      12 ∷ (word 1 ++ (word (length blob) ++ blob) ++ (word 15 ++ comment)),
      rw (
        build_key_fits key (omega arith),
        pack_fits 1 (omega arith),
        ssh_string_fits blob (omega arith),
        ssh_string_fits comment (omega arith),
      ),
      (
        refl,
        omega (
          arith,
          length-append {0} (word 1 ++ (word (length blob) ++ blob)) (word 15 ++ comment),
          length-append {0} (word 1) (word (length blob) ++ blob),
        ),
      ),
    )

-- A field of at most `n` bytes out of a short payload.
slice_short : (a b : ℕ) (s : Bytes) → length s ≤ 4096 → length (slice a b s) ≤ 4096
slice_short a b s h = omega (arith, length-slice {0} a b s)

slice_four : (a : ℕ) (s : Bytes) → a + 4 ≤ length s → length (slice a (a + 4) s) ≡ 4
slice_four a s h = omega (arith, length-slice {0} a (a + 4) s)

no_identities-IsReply : (r : Bytes) × (no_identities ≡ ok r) × IsReply r
unfolding no_identities
no_identities-IsReply = (12 ∷ word 0, rw (pack_fits 0 (omega arith)), (refl, omega arith))

identities_payload-IsReply :
    (payload : Bytes)
    → 8 ≤ length payload
    → length payload ≤ 4096
    → (r : Bytes) × (identities_payload payload ≡ ok r) × IsReply r
unfolding identities_payload
identities_payload-IsReply payload long short =
    let (nkeys, e) = unpack_four (slice 0 4 payload) (slice_four 0 payload (omega arith)) in
    let (m, e') = unpack_four (slice 4 8 payload) (slice_four 4 payload (omega arith)) in
    elim (Bool-cases (nkeys == 0)) [
      | inl none_left ↦ rw (e, none_left) no_identities-IsReply
      | inr some_left ↦
          rw (e, some_left, e')
            (one_identity-IsReply (slice 8 (8 + m) payload) (slice_short 8 (8 + m) payload short))
    ]

failure-IsReply : (r : Bytes) × (◌≡◌ {A = Result Bytes} (ok create_failure) (ok r)) × IsReply r
failure-IsReply = (create_failure, refl, (refl, omega arith))

pub identities_reply-IsReply :
    (r : Option (ℕ × Bytes)) → IsSmall r → (b : Bytes) × (identities_reply r ≡ ok b) × IsReply b
unfolding identities_reply
identities_reply-IsReply none h = failure-IsReply
identities_reply-IsReply (some (t, payload)) h = elim (Bool-cases (t == 12)) [
  | inr e ↦ rw e failure-IsReply
  | inl e ↦ elim (Bool-cases (ltb (length payload) 8)) [
    | inl l ↦ rw (e, l) failure-IsReply
    | inr l ↦
        rw (e, l)
          (identities_payload-IsReply payload (not-ltb→le (length payload) 8 l) (omega arith))
  ]
]

signature_payload-IsReply :
    (payload : Bytes)
    → 4 ≤ length payload
    → length payload ≤ 4096
    → (r : Bytes) × (signature_payload payload ≡ ok r) × IsReply r
unfolding signature_payload
signature_payload-IsReply payload long short =
    let (n, e) = unpack_four (slice 0 4 payload) (slice_four 0 payload long) in
    let sig = slice 4 (4 + n) payload in
    let sig_short : length sig ≤ 4096 = slice_short 4 (4 + n) payload short in
    let blob = word 11 ++ key_type ++ word (length sig) ++ sig in
    let size : length blob ≡ 19 + length sig =
      omega (arith, length-append {0} (word 11 ++ key_type ++ word (length sig)) sig) in
    (
      14 ∷ (word (length blob) ++ blob),
      rw (e, build_sig_fits sig (omega arith), ssh_string_fits blob (omega arith)),
      (refl, omega (arith, length-append {0} (word (length blob)) blob)),
    )

pub signature_reply-IsReply :
    (r : Option (ℕ × Bytes)) → IsSmall r → (b : Bytes) × (signature_reply r ≡ ok b) × IsReply b
unfolding signature_reply
signature_reply-IsReply none h = failure-IsReply
signature_reply-IsReply (some (t, payload)) h = elim (Bool-cases (t == 32)) [
  | inl e ↦ rw e (_, refl, (refl, omega arith))
  | inr e ↦ elim (Bool-cases (t == 14)) [
    | inr e' ↦ rw (e, e') failure-IsReply
    | inl e' ↦ elim (Bool-cases (ltb (length payload) 4)) [
      | inl l ↦ rw (e, e', l) failure-IsReply
      | inr l ↦
          rw (e, e', l)
            (signature_payload-IsReply payload (not-ltb→le (length payload) 4 l) (omega arith))
    ]
  ]
]
