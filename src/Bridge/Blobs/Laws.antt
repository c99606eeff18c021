-- ===== src/Bridge/Blobs/Laws.antt =====
-- What the key blobs hold, and how the raw key comes back.
use somethingremotelygood.Base.{
  ℕ, ◌+◌, ◌^◌, ◌≤◌, ◌<◌, [], ◌++◌, Bytes, length, slice, length-append, append_assoc, append-nil,
  ok, raised, struct_error, ◌≡◌, arith, slice-append, length-slice, refl, ◌⊎◌, inl, inr,
}
use somethingremotelygood.Base.Results.{◌>>=◌}
use somethingremotelygood.Wire.{word, unpack}
use somethingremotelygood.Wire.Laws.{pack_fits, unpack-word, unpack_cases}
use somethingremotelygood.Bridge.Blobs.{
  ssh_string, build_ed25519_key_blob, extract_raw_key, build_ed25519_sig_blob, key_type,
}

pub ssh_string_fits : (s : Bytes) → length s < 2 ^ 32 → ssh_string s ≡ ok (word (length s) ++ s)
unfolding ssh_string
ssh_string_fits s h = rw (pack_fits (length s) h)

pub build_key_fits :
    (k : Bytes)
    → length k < 2 ^ 32
    → build_ed25519_key_blob k ≡ ok (word 11 ++ key_type ++ word (length k) ++ k)
unfolding build_ed25519_key_blob
build_key_fits k h = rw (ssh_string_fits key_type (omega arith), ssh_string_fits k h)

pub build_sig_fits :
    (k : Bytes)
    → length k < 2 ^ 32
    → build_ed25519_sig_blob k ≡ ok (word 11 ++ key_type ++ word (length k) ++ k)
unfolding build_ed25519_sig_blob
build_sig_fits k h = rw (ssh_string_fits key_type (omega arith), ssh_string_fits k h)

-- A key blob with any type string, and any bytes behind the key.
pub extract-fields :
    (t k rest : Bytes)
    → length t < 2 ^ 32
    → length k < 2 ^ 32
    → extract_raw_key (word (length t) ++ t ++ word (length k) ++ k ++ rest) ≡ ok k
unfolding extract_raw_key
extract-fields t k rest ht hk =
    let blob = word (length t) ++ t ++ word (length k) ++ k ++ rest in
    let e1 : slice 0 4 blob ≡ word (length t) = refl in
    let e2 : slice (4 + length t) (4 + length t + 4) blob ≡ word (length k) =
      rw (append_assoc (word (length t) ++ t ++ word (length k)) k rest) (
        slice-append (word (length t) ++ t) (word (length k)) (k ++ rest) (4 + length t)
          (4 + length t + 4) (omega arith) (omega arith)) in
    let e3 : slice (4 + length t + 4) (4 + length t + 4 + length k) blob ≡ k =
      slice-append (word (length t) ++ t ++ word (length k)) k rest (4 + length t + 4)
        (4 + length t + 4 + length k)
        (omega (arith, length-append {0} (word (length t) ++ t) (word (length k))))
        (omega (arith, length-append {0} (word (length t) ++ t) (word (length k)))) in
    rw (e1, unpack-word (length t) ht, e2, unpack-word (length k) hk, e3)

-- The raw key comes back from the blob that is built of it.
pub extract-build :
    (k : Bytes) → length k < 2 ^ 32 → (build_ed25519_key_blob k >>= extract_raw_key) ≡ ok k
extract-build k h =
    rw (build_key_fits k h, ← append-nil (word 11 ++ key_type ++ word (length k) ++ k))
      (extract-fields key_type k [] (omega arith) h)

-- A blob is long enough for the lengths that it declares up to the key's.
abbrev pub HasKeyLength : Bytes → Type 0
HasKeyLength blob = (n : ℕ) × (unpack (slice 0 4 blob) ≡ ok n) × (n + 8 ≤ length blob)

-- What `_extract_raw_key` does on any blob: a part of the blob, or `struct.error`.
pub extract_cases :
    (blob : Bytes)
    → ((k : Bytes) × (extract_raw_key blob ≡ ok k) × (length k + 8 ≤ length blob))
      ⊎ (extract_raw_key blob ≡ raised struct_error)
unfolding extract_raw_key
extract_cases blob = elim (unpack_cases (slice 0 4 blob)) [
  | inr e ↦ inr (rw e)
  | inl (n, e, _) ↦ elim (unpack_cases (slice (4 + n) (4 + n + 4) blob)) [
    | inr e' ↦ inr (rw (e, e'))
    | inl (m, e', l) ↦ inl (
      slice (4 + n + 4) (4 + n + 4 + m) blob,
      rw (e, e'),
      omega (
        arith,
        length-slice {0} (4 + n + 4) (4 + n + 4 + m) blob,
        length-slice {0} (4 + n) (4 + n + 4) blob,
      ),
    )
  ]
]
