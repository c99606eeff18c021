-- ===== src/Bridge/Dispatch/Answers.antt =====
-- What a client hears when the device answers: the key, the unlocking and the locking.
use somethingremotelygood.Base.{
  ℕ, ◌+◌, ◌^◌, ◌<◌, some, [], ◌∷◌, ◌++◌, Bytes, length, slice, slice-rest, ok, ◌≡◌, refl, arith,
  ◌==◌, le→not-ltb, if◌then◌else◌,
}
use somethingremotelygood.Wire.{word}
use somethingremotelygood.Wire.Laws.{unpack-word}
use somethingremotelygood.Port.{Port}
use somethingremotelygood.Port.Laws.{Progress, Buffered}
use somethingremotelygood.Bridge.Object.{Bridge}
use somethingremotelygood.Bridge.Link.Exchange.{Answers, request, exchange}
use somethingremotelygood.Bridge.Replies.{status_reply}
use somethingremotelygood.Bridge.Requests.{unlock, lock, request_identities}
use somethingremotelygood.Bridge.Requests.Replies.{string, identities_message, one_identity_reply}
use somethingremotelygood.Bridge.Dispatch.{handle_agent_request, unlock_name, lock_name}

module _ {p : Port} (w : Progress p) (u : Buffered p) (t0 : ℕ) (s : Bridge p)
    (port : s.serial ≡ some (record { timeout = some t0 })) where
  -- The client that asks for identities is told of one key, in SSH format, with the raw bytes that
  -- the device sent.
  pub identities-key :
      (key trailer rest : Bytes)
      → length key < 4096
      → Answers u s.device (request 11 []) 10000 12 (word 1 ++ string key ++ trailer)
      → (handle_agent_request (11 ∷ rest) s).0 ≡ ok (identities_message key)
  unfolding handle_agent_request request_identities
  identities-key key trailer rest short a =
      let (sent, got) =
        exchange w u t0 11 10000 12 [] (word 1 ++ string key ++ trailer) s (omega arith) port a in
      rw (sent, got) (one_identity_reply key trailer short)

  -- The message that unlocks the device sends it the password, and succeeds exactly if the device
  -- answers success.
  pub unlock-status :
      (password payload : Bytes) (t : ℕ)
      → length password < 2 ^ 32
      → Answers u s.device (request 3 password) 30000 t payload
      → (handle_agent_request (27 ∷ string unlock_name ++ string password) s).0
        ≡ ok (if t == 6 then 6 ∷ [] else 5 ∷ [])
  unfolding handle_agent_request unlock status_reply
  unlock-status password payload t short a =
      let (sent, got) = exchange w u t0 3 30000 t password payload s (omega arith) port a in
      let whole : slice 4 (4 + length password) (string password) ≡ password =
        slice-rest (word (length password)) password (string password) 4 (4 + length password) refl
          refl (omega arith) in
      let all = string unlock_name ++ string password in
      let size : length all ≡ 20 + length password = omega arith in
      rw (
        le→not-ltb (length all) 4 (omega arith),
        unpack-word 12 (omega arith),
        le→not-ltb (length all) 16 (omega arith),
        le→not-ltb (length (string password)) 4 (omega arith),
        unpack-word (length password) short,
        whole,
        sent,
        got,
      )

  -- The message that locks the device succeeds exactly if the device answers success.
  pub lock-status :
      (payload : Bytes) (t : ℕ)
      → Answers u s.device (request 4 []) 10000 t payload
      → (handle_agent_request (27 ∷ string lock_name) s).0 ≡ ok (if t == 6 then 6 ∷ [] else 5 ∷ [])
  unfolding handle_agent_request lock status_reply
  lock-status payload t a =
      let (sent, got) = exchange w u t0 4 10000 t [] payload s (omega arith) port a in
      rw (unpack-word 10 (omega arith), sent, got)
