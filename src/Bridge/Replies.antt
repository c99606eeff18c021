-- ===== src/Bridge/Replies.antt =====
-- What the bridge makes of the device's replies, in SSH agent format: the parts of `unlock`,
-- `lock`, `request_identities` and `sign_request` that stand behind the exchange.
pub mod Bounds
use somethingremotelygood.Base.{
  ℕ, ◌+◌, Option, none, some, [], ◌∷◌, ◌++◌, Bytes, codes, length, slice, Result, ok, ltb, ◌==◌,
  if◌then◌else◌, Bool, not,
}
use somethingremotelygood.Base.Results.{◌>>=◌}
use somethingremotelygood.Wire.{pack, unpack}
use somethingremotelygood.Bridge.Blobs.{
  ssh_agent_success, ssh_agent_identities_answer, ssh_agent_sign_response, ssh_agent_locked,
  create_failure, create_success, ssh_string, build_ed25519_key_blob, build_ed25519_sig_blob,
}

-- `unlock` and `lock`
unfoldable pub status_reply : Option (ℕ × Bytes) → Bytes
status_reply none = create_failure
status_reply (some (msg_type, payload)) =
    if msg_type == ssh_agent_success then create_success else create_failure

-- b"ESP32-SSH-Agent"
abbrev pub comment : Bytes
comment = codes "ESP32-SSH-Agent"

unfoldable pub one_identity : Bytes → Result Bytes
one_identity raw_key = do
  key_blob ← build_ed25519_key_blob raw_key
  count ← pack 1
  blob ← ssh_string key_blob
  label ← ssh_string comment
  ok (ssh_agent_identities_answer ∷ (count ++ blob ++ label))

unfoldable pub no_identities : Result Bytes
no_identities = do count ← pack 0; ok (ssh_agent_identities_answer ∷ count)

unfoldable pub identities_payload : Bytes → Result Bytes
unfolding one_identity no_identities
identities_payload payload = do
  nkeys ← unpack (slice 0 4 payload)
  if nkeys == 0 then no_identities else (do
    raw_key_len ← unpack (slice 4 8 payload)
    one_identity (slice 8 (8 + raw_key_len) payload))

-- `request_identities`
unfoldable pub identities_reply : Option (ℕ × Bytes) → Result Bytes
unfolding identities_payload
identities_reply none = ok create_failure
identities_reply (some (msg_type, payload)) =
    if not (msg_type == ssh_agent_identities_answer)
    then ok create_failure
    else if ltb (length payload) 8
    then ok create_failure
    else identities_payload payload

unfoldable pub signature_payload : Bytes → Result Bytes
signature_payload payload = do
  raw_sig_len ← unpack (slice 0 4 payload)
  sig_blob ← build_ed25519_sig_blob (slice 4 (4 + raw_sig_len) payload)
  blob ← ssh_string sig_blob
  ok (ssh_agent_sign_response ∷ blob)

-- `sign_request`
unfoldable pub signature_reply : Option (ℕ × Bytes) → Result Bytes
unfolding signature_payload
signature_reply none = ok create_failure
signature_reply (some (msg_type, payload)) =
    if msg_type == ssh_agent_locked
    then ok (ssh_agent_locked ∷ [])
    else if not (msg_type == ssh_agent_sign_response)
    then ok create_failure
    else if ltb (length payload) 4
    then ok create_failure
    else signature_payload payload
