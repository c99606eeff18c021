-- ===== src/Bridge/Blobs.antt =====
-- SSH strings and the key and signature blobs (`_ssh_string` to `_build_ed25519_sig_blob`).
pub mod Laws
use somethingremotelygood.Base.{ℕ, ◌+◌, [], ◌∷◌, ◌++◌, Bytes, codes, length, slice, Result, ok}
use somethingremotelygood.Base.Results.{◌>>=◌}
use somethingremotelygood.Wire.{pack, unpack}

abbrev pub ssh_agentc_request_identities : ℕ
ssh_agentc_request_identities = 11

abbrev pub ssh_agentc_sign_request : ℕ
ssh_agentc_sign_request = 13

abbrev pub ssh_agentc_add_identity : ℕ
ssh_agentc_add_identity = 17

abbrev pub ssh_agentc_remove_identity : ℕ
ssh_agentc_remove_identity = 18

abbrev pub ssh_agentc_remove_all_identities : ℕ
ssh_agentc_remove_all_identities = 19

abbrev pub ssh_agent_failure : ℕ
ssh_agent_failure = 5

abbrev pub ssh_agent_success : ℕ
ssh_agent_success = 6

abbrev pub ssh_agent_identities_answer : ℕ
ssh_agent_identities_answer = 12

abbrev pub ssh_agent_sign_response : ℕ
ssh_agent_sign_response = 14

abbrev pub ssh_agentc_extension : ℕ
ssh_agentc_extension = 27

abbrev pub protocol_unlock : ℕ
protocol_unlock = 0x03

abbrev pub protocol_lock : ℕ
protocol_lock = 0x04

abbrev pub ssh_agent_locked : ℕ
ssh_agent_locked = 0x20

-- b"ssh-ed25519"
abbrev pub key_type : Bytes
key_type = codes "ssh-ed25519"

unfoldable pub ssh_string : Bytes → Result Bytes
ssh_string s = do n ← pack (length s); ok (n ++ s)

unfoldable pub build_ed25519_key_blob : Bytes → Result Bytes
build_ed25519_key_blob raw_pubkey = do
  kind ← ssh_string key_type
  key ← ssh_string raw_pubkey
  ok (kind ++ key)

unfoldable pub extract_raw_key : Bytes → Result Bytes
extract_raw_key blob = do
  type_len ← unpack (slice 0 4 blob)
  let offset = 4 + type_len
  key_len ← unpack (slice offset (offset + 4) blob)
  let start = offset + 4
  ok (slice start (start + key_len) blob)

unfoldable pub build_ed25519_sig_blob : Bytes → Result Bytes
build_ed25519_sig_blob raw_sig = do
  kind ← ssh_string key_type
  sig ← ssh_string raw_sig
  ok (kind ++ sig)

-- `_create_failure` and `_create_success`
abbrev pub create_failure : Bytes
create_failure = ssh_agent_failure ∷ []

abbrev pub create_success : Bytes
create_success = ssh_agent_success ∷ []
