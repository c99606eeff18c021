-- ===== src/Bridge/Dispatch/Sign.antt =====
-- Sign requests of a client: which key, data and flags are taken out of the message.
use somethingremotelygood.Base.{
  ℕ, ◌+◌, ◌^◌, ◌≤◌, ◌<◌, some, [], ◌∷◌, ◌++◌, Bytes, length, slice, slice-field, slice-rest, sym,
  append_assoc, ok, raised, value_error, ◌≡◌, refl, arith, le→not-ltb, leb, true, false,
  length-append, append-nil,
}
use somethingremotelygood.Wire.{word, to_bytes}
use somethingremotelygood.Wire.Laws.{unpack-word}
use somethingremotelygood.Port.{Port}
use somethingremotelygood.Port.Laws.{Progress, Buffered}
use somethingremotelygood.Bridge.Object.{Bridge}
use somethingremotelygood.Bridge.Blobs.{key_type, extract_raw_key}
use somethingremotelygood.Bridge.Blobs.Laws.{extract-fields, ssh_string_fits}
use somethingremotelygood.Bridge.Link.Exchange.{Answers, request, exchange}
use somethingremotelygood.Bridge.Requests.{sign_request}
use somethingremotelygood.Bridge.Requests.Replies.{
  string, blob, length-blob, signature_message, one_signature_reply,
}
use somethingremotelygood.Bridge.Dispatch.{handle_sign, handle_agent_request}

le→leb : (a b : ℕ) → a ≤ b → leb a b ≡ true
le→leb a b h = ground arith

lt→not-leb : (a b : ℕ) → b < a → leb a b ≡ false
lt→not-leb a b h = ground arith

one_byte : (flags : ℕ) → flags < 256 → to_bytes (flags ∷ []) ≡ ok (flags ∷ [])
unfolding to_bytes
one_byte flags h = ground arith

no_byte : (flags : ℕ) → 256 ≤ flags → to_bytes (flags ∷ []) ≡ raised value_error
unfolding to_bytes
no_byte flags h = ground arith

module _ {p : Port} (kb text : Bytes) (s : Bridge p) (kb_small : length kb < 2 ^ 32) where
  -- The message is taken apart into its fields.
  pub handle_sign-fields :
      (flags : ℕ)
      → length text < 2 ^ 32
      → flags < 2 ^ 32
      → handle_sign (string kb ++ (string text ++ word flags)) s ≡ sign_request kb text flags s
  unfolding handle_sign
  handle_sign-fields flags text_small flags_small =
      let payload = string kb ++ (string text ++ word flags) in
      let size : length payload ≡ 12 + length kb + length text = omega (
        arith,
        length-append {0} (string kb) (string text ++ word flags),
        length-append {0} (string text) (word flags),
      ) in
      let f1 : slice 4 (4 + length kb) payload ≡ kb =
        slice-field (word (length kb)) kb (string text ++ word flags) payload 4 (4 + length kb) refl
          refl refl in
      let f2 : slice (4 + length kb) (4 + length kb + 4) payload ≡ word (length text) =
        slice-field (string kb) (word (length text)) (text ++ word flags) payload (4 + length kb)
          (4 + length kb + 4) refl (omega arith) (omega arith) in
      let f3 : slice (4 + length kb + 4) (4 + length kb + 4 + length text) payload ≡ text =
        slice-field (string kb ++ word (length text)) text (word flags) payload (4 + length kb + 4)
          (4 + length kb + 4 + length text)
          (sym (append_assoc (string kb) (word (length text)) (text ++ word flags)))
          (omega (arith, length-append {0} (string kb) (word (length text)))) refl in
      let f4 : slice (4 + length kb + 4 + length text) (4 + length kb + 4 + length text + 4) payload
          ≡ word flags =
        slice-field (string kb ++ string text) (word flags) [] payload
          (4 + length kb + 4 + length text) (4 + length kb + 4 + length text + 4)
          (sym (append_assoc (string kb) (string text) (word flags)))
          (omega (arith, length-append {0} (string kb) (string text))) (omega arith) in
      rw (
        le→not-ltb (length payload) 8 (omega arith),
        unpack-word (length kb) kb_small,
        le→not-ltb (length payload) (4 + length kb + 4) (omega arith),
        f2,
        unpack-word (length text) text_small,
        le→leb (4 + length kb + 4 + length text + 4) (length payload) (omega arith),
        f4,
        unpack-word flags flags_small,
        f1,
        f3,
      )

  -- A message that holds fewer bytes than the length of its data says is not refused: what is
  -- there is signed, with no flags.
  pub handle_sign-short :
      (n : ℕ)
      → n < 2 ^ 32
      → length text ≤ n
      → handle_sign (string kb ++ (word n ++ text)) s ≡ sign_request kb text 0 s
  unfolding handle_sign
  handle_sign-short n n_small short =
      let payload = string kb ++ (word n ++ text) in
      let size : length payload ≡ 8 + length kb + length text =
        omega (arith, length-append {0} (string kb) (word n ++ text)) in
      let f1 : slice 4 (4 + length kb) payload ≡ kb =
        slice-field (word (length kb)) kb (word n ++ text) payload 4 (4 + length kb) refl refl
          refl in
      let f2 : slice (4 + length kb) (4 + length kb + 4) payload ≡ word n =
        slice-field (string kb) (word n) text payload (4 + length kb) (4 + length kb + 4) refl
          (omega arith) (omega arith) in
      let f3 : slice (4 + length kb + 4) (4 + length kb + 4 + n) payload ≡ text =
        slice-rest (string kb ++ word n) text payload (4 + length kb + 4) (4 + length kb + 4 + n)
          (sym (append_assoc (string kb) (word n) text))
          (omega (arith, length-append {0} (string kb) (word n))) (omega arith) in
      rw (
        le→not-ltb (length payload) 8 (omega arith),
        unpack-word (length kb) kb_small,
        le→not-ltb (length payload) (4 + length kb + 4) (omega arith),
        f2,
        unpack-word n n_small,
        lt→not-leb (4 + length kb + 4 + n + 4) (length payload) (omega arith),
        f1,
        f3,
      )

-- `blob key` gives its key back.
extract-blob : (key : Bytes) → length key < 2 ^ 32 → extract_raw_key (blob key) ≡ ok key
extract-blob key h =
    rw (← append-nil (word 11 ++ key_type ++ word (length key) ++ key))
      (extract-fields key_type key [] (omega arith) h)

-- What `sign_request` sends: the raw key, the data and the flags.
abbrev pub sign_payload : Bytes → Bytes → ℕ → Bytes
sign_payload key text flags = string key ++ string text ++ (flags ∷ [])

module _ {p : Port} (key text : Bytes) (s : Bridge p) (key_small : length key < 4096)
    (text_small : length text < 2 ^ 32) where
  -- A sign request of a client, with the key in its SSH blob, goes to the device as the raw key,
  -- the data and the flags; the raw signature that the device answers comes back as an SSH
  -- signature.
  pub sign-signature :
      (w : Progress p) (u : Buffered p) (t0 flags : ℕ) (sig trailer : Bytes)
      → flags < 256
      → length sig < 4096
      → s.serial ≡ some (record { timeout = some t0 })
      → Answers u s.device
          (request 13 (sign_payload key text flags))
          30000
          14
          (string sig ++ trailer)
      → (handle_agent_request (13 ∷ string (blob key) ++ (string text ++ word flags)) s).0
        ≡ ok (signature_message sig)
  unfolding handle_agent_request sign_request
  sign-signature w u t0 flags sig trailer flags_small sig_small port a =
      let (sent, got) =
        exchange w u t0 13 30000 14 (sign_payload key text flags) (string sig ++ trailer) s
          (omega arith) port a in
      rw
        (
          handle_sign-fields (blob key) text s (omega (arith, length-blob key)) flags text_small
              (omega arith),
          extract-blob key (omega arith),
          ssh_string_fits key (omega arith),
          ssh_string_fits text text_small,
          one_byte flags flags_small,
          sent,
          got,
        )
        (one_signature_reply sig trailer sig_small)

  -- Flags of 256 or more cannot be put into the one byte of the packet: the call raises, and nothing
  -- is sent.
  pub sign_large_flags :
      (flags : ℕ)
      → 256 ≤ flags
      → flags < 2 ^ 32
      → handle_agent_request (13 ∷ string (blob key) ++ (string text ++ word flags)) s
        ≡ (raised value_error, s)
  unfolding handle_agent_request sign_request
  sign_large_flags flags large small = rw (
    handle_sign-fields (blob key) text s (omega (arith, length-blob key)) flags text_small small,
    extract-blob key (omega arith),
    ssh_string_fits key (omega arith),
    ssh_string_fits text text_small,
    no_byte flags large,
  )

-- A sign request that declares more data than it holds is treated as the request for the data that
-- it does hold, without flags.
pub sign_truncated :
    {p : Port} (kb text : Bytes) (n : ℕ) (s : Bridge p)
    → length kb < 2 ^ 32
    → n < 2 ^ 32
    → length text ≤ n
    → handle_agent_request (13 ∷ string kb ++ (word n ++ text)) s
      ≡ handle_agent_request (13 ∷ string kb ++ string text) s
unfolding handle_agent_request
sign_truncated kb text n s kb_small n_small short = rw (
  handle_sign-short kb text s kb_small n n_small short,
  handle_sign-short kb text s kb_small (length text) (omega arith) (omega arith),
)
