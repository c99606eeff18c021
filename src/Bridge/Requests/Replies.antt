-- ===== src/Bridge/Requests/Replies.antt =====
-- The replies in SSH agent format, when the device answers as its firmware does.
use somethingremotelygood.Base.{
  ◌+◌, ◌<◌, some, ◌∷◌, ◌++◌, Bytes, length, ok, ◌≡◌, arith, le→not-ltb, length-append, slice,
  slice-append,
}
use somethingremotelygood.Wire.{word}
use somethingremotelygood.Wire.Laws.{unpack-word, pack_fits}
use somethingremotelygood.Bridge.Blobs.{key_type}
use somethingremotelygood.Bridge.Blobs.Laws.{build_key_fits, build_sig_fits, ssh_string_fits}
use somethingremotelygood.Bridge.Replies.{one_identity, identities_reply, signature_reply, comment}

-- An SSH string: its length and its bytes.
abbrev pub string : Bytes → Bytes
string s = word (length s) ++ s

-- A key blob, and a signature blob: the type and the raw bytes.
abbrev pub blob : Bytes → Bytes
blob raw = string key_type ++ string raw

abbrev pub identities_message : Bytes → Bytes
identities_message key = 12 ∷ (word 1 ++ string (blob key) ++ string comment)

pub length-blob : (k : Bytes) → length (blob k) ≡ 19 + length k
length-blob k = omega (arith, length-append {0} (string key_type) (string k))

one_identity-message :
    (key : Bytes) → length key < 4096 → one_identity key ≡ ok (identities_message key)
unfolding one_identity
one_identity-message key short = rw (
  build_key_fits key (omega arith),
  pack_fits 1 (omega arith),
  ssh_string_fits (blob key) (omega (arith, length-blob key)),
  ssh_string_fits comment (omega arith),
)

pub one_identity_reply :
    (key trailer : Bytes)
    → length key < 4096
    → identities_reply (some (12, word 1 ++ string key ++ trailer)) ≡ ok (identities_message key)
unfolding identities_reply
one_identity_reply key trailer short =
    let field : slice 8 (8 + length key) (word 1 ++ string key ++ trailer) ≡ key =
      slice-append (word 1 ++ word (length key)) key trailer 8 (8 + length key) (omega arith)
        (omega arith) in
    rw
      (
        le→not-ltb (length (word 1 ++ string key ++ trailer)) 8 (omega arith),
        unpack-word 1 (omega arith),
        unpack-word (length key) (omega arith),
        field,
      )
      (one_identity-message key short)

abbrev pub signature_message : Bytes → Bytes
signature_message sig = 14 ∷ string (blob sig)

pub one_signature_reply :
    (sig trailer : Bytes)
    → length sig < 4096
    → signature_reply (some (14, string sig ++ trailer)) ≡ ok (signature_message sig)
unfolding signature_reply
one_signature_reply sig trailer short =
    let field : slice 4 (4 + length sig) (string sig ++ trailer) ≡ sig =
      slice-append (word (length sig)) sig trailer 4 (4 + length sig) (omega arith) (omega arith) in
    rw (
      le→not-ltb (length (string sig ++ trailer)) 4 (omega arith),
      unpack-word (length sig) (omega arith),
      field,
      build_sig_fits sig (omega arith),
      ssh_string_fits (blob sig) (omega (arith, length-blob sig)),
    )
