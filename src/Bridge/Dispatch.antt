-- ===== src/Bridge/Dispatch.antt =====
-- `handle_agent_request`: a message of an SSH client, by its type.
pub mod Sign
pub mod Answers
pub mod Outcomes
use somethingremotelygood.Base.{
  ℕ, ◌+◌, Bool, ◌||◌, Option, none, some, [], ◌∷◌, Bytes, codes, length, slice, drop, eqb, Result,
  ok, Exec, ltb, leb, ◌==◌, if◌then◌else◌,
}
use somethingremotelygood.Base.Effects.{pure, lift, ◌>>=◌}
use somethingremotelygood.Port.{Port}
use somethingremotelygood.Wire.{unpack}
use somethingremotelygood.Bridge.Object.{Bridge}
use somethingremotelygood.Bridge.Blobs.{
  ssh_agentc_request_identities, ssh_agentc_sign_request, ssh_agentc_extension,
  ssh_agentc_add_identity, ssh_agentc_remove_identity, ssh_agentc_remove_all_identities,
  create_failure, create_success,
}
use somethingremotelygood.Bridge.Requests.{unlock, lock, request_identities, sign_request}

-- b"esp32-unlock" and b"esp32-lock"
abbrev pub unlock_name : Bytes
unlock_name = codes "esp32-unlock"

abbrev pub lock_name : Bytes
lock_name = codes "esp32-lock"

module _ {p : Port} where
  unfoldable pub handle_sign : Bytes → Exec (Bridge p) Bytes
  handle_sign payload = if ltb (length payload) 8 then pure create_failure else (do
    key_len ← lift (unpack (slice 0 4 payload))
    if ltb (length payload) (4 + key_len + 4) then pure create_failure else (do
      let key_blob = slice 4 (4 + key_len) payload
      let data_offset = 4 + key_len
      data_len ← lift (unpack (slice data_offset (data_offset + 4) payload))
      let sign_data = slice (data_offset + 4) (data_offset + 4 + data_len) payload
      let flags_offset = data_offset + 4 + data_len
      flags ←
          if leb (flags_offset + 4) (length payload)
          then lift (unpack (slice flags_offset (flags_offset + 4) payload))
          else pure 0
      sign_request key_blob sign_data flags))

  unfoldable pub handle_extension : Bytes → Exec (Bridge p) Bytes
  handle_extension payload = if ltb (length payload) 4 then pure create_failure else (do
    name_len ← lift (unpack (slice 0 4 payload))
    if ltb (length payload) (4 + name_len) then pure create_failure else (do
      let ext_name = slice 4 (4 + name_len) payload
      let ext_data = drop (4 + name_len) payload
      if eqb ext_name unlock_name
          then (if ltb (length ext_data) 4 then pure create_failure else (do
            pw_len ← lift (unpack (slice 0 4 ext_data))
            unlock (slice 4 (4 + pw_len) ext_data)))
          else if eqb ext_name lock_name
          then lock
          else pure create_failure))

  unfoldable pub handle_message : ℕ → Bytes → Exec (Bridge p) Bytes
  unfolding handle_sign handle_extension
  handle_message msg_type payload =
      if msg_type == ssh_agentc_request_identities
      then request_identities
      else if msg_type == ssh_agentc_sign_request
      then handle_sign payload
      else if msg_type == ssh_agentc_extension
      then handle_extension payload
      else if (msg_type == ssh_agentc_add_identity || msg_type == ssh_agentc_remove_identity)
          || msg_type == ssh_agentc_remove_all_identities
      then pure create_success
      else pure create_failure

  unfoldable pub handle_agent_request : Bytes → Exec (Bridge p) Bytes
  unfolding handle_message
  handle_agent_request [] = pure create_failure
  handle_agent_request (msg_type ∷ payload) = handle_message msg_type payload
