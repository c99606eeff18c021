-- ===== src/Bridge/Requests.antt =====
-- The requests that the bridge sends to the device: `unlock`, `lock`, `request_identities` and
-- `sign_request`. Each holds `serial_lock` from its packet to the reply, so it is one step here;
-- Threads has the steps.
pub mod Replies
use somethingremotelygood.Base.{
  ℕ, Bool, Option, [], ◌∷◌, ◌++◌, Bytes, Result, ok, Exec, not, if◌then◌else◌,
}
use somethingremotelygood.Base.Results
use somethingremotelygood.Base.Effects.{pure, lift, ◌>>=◌}
use somethingremotelygood.Port.{Port}
use somethingremotelygood.Wire.{to_bytes}
use somethingremotelygood.Bridge.Object.{Bridge}
use somethingremotelygood.Bridge.Blobs.{
  ssh_agentc_request_identities, ssh_agentc_sign_request, protocol_unlock, protocol_lock,
  create_failure, ssh_string, extract_raw_key,
}
use somethingremotelygood.Bridge.Link.{send_to_esp32, recv_from_esp32}
use somethingremotelygood.Bridge.Replies.{status_reply, identities_reply, signature_reply}

module _ {p : Port} where
  unfoldable pub unlock : Bytes → Exec (Bridge p) Bytes
  unlock password = do
    sent ← send_to_esp32 protocol_unlock password
    if not sent
        then pure create_failure
        else (do result ← recv_from_esp32 30000; pure (status_reply result))

  unfoldable pub lock : Exec (Bridge p) Bytes
  lock = do
    sent ← send_to_esp32 protocol_lock []
    if not sent
        then pure create_failure
        else (do result ← recv_from_esp32 10000; pure (status_reply result))

  unfoldable pub request_identities : Exec (Bridge p) Bytes
  request_identities = do
    sent ← send_to_esp32 ssh_agentc_request_identities []
    if not sent
        then pure create_failure
        else (do result ← recv_from_esp32 10000; lift (identities_reply result))

  unfoldable pub sign_request : Bytes → Bytes → ℕ → Exec (Bridge p) Bytes
  sign_request key_blob sign_data flags = do
    raw_key ← lift (extract_raw_key key_blob)
    key ← lift (ssh_string raw_key)
    message ← lift (ssh_string sign_data)
    tail ← lift (to_bytes (flags ∷ []))
    sent ← send_to_esp32 ssh_agentc_sign_request (key ++ message ++ tail)
    if not sent
        then pure create_failure
        else (do result ← recv_from_esp32 30000; lift (signature_reply result))
