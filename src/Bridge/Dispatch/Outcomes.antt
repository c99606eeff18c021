-- ===== src/Bridge/Dispatch/Outcomes.antt =====
-- How a request of a client can end.
use somethingremotelygood.Base.{
  ℕ, ◌^◌, ◌+◌, false, ◌||◌, not, [], ◌∷◌, Bytes, length, slice, drop, eqb, ok, stuck, ◌≡◌, ◌≢◌,
  refl, arith, ltb, ◌==◌, if◌then◌else◌, inl, inr, Bool-cases, not-ltb→le, length-slice, Exec,
}
use native.Mathlib.Decide.{ℕ_discrete}
use somethingremotelygood.Base.Effects.{pure, lift, ◌>>=◌}
use somethingremotelygood.Base.Effects.Ends.{Ends, Ends-lift, Ends-pure, ends_rules}
use somethingremotelygood.Base.Effects.Yields.{
  Yields, Yields-pure, Yields-lift, Yields-if, Yields-bind,
}
use somethingremotelygood.Wire.{unpack, pack}
use somethingremotelygood.Wire.Laws.{unpack_four, unpack_cases}
use somethingremotelygood.Port.{Port}
use somethingremotelygood.Port.Laws.{Progress}
use somethingremotelygood.Bridge.Object.{Bridge}
use somethingremotelygood.Bridge.Blobs.{create_failure, create_success, extract_raw_key, ssh_string}
use somethingremotelygood.Bridge.Blobs.Laws.{extract_cases}
use somethingremotelygood.Bridge.Link.{send_to_esp32, recv_from_esp32}
use somethingremotelygood.Bridge.Link.Bounds.{IsSmall, recv-IsSmall}
use somethingremotelygood.Bridge.Link.Returns.{recv_returns, send_returns, to_bytes_ends}
use somethingremotelygood.Bridge.Replies.{signature_reply}
use somethingremotelygood.Bridge.Replies.Bounds.{
  IsReply, status_reply-IsReply, identities_reply-IsReply, signature_reply-IsReply,
}
use somethingremotelygood.Bridge.Requests.{unlock, lock, request_identities, sign_request}
use somethingremotelygood.Bridge.Dispatch.{
  handle_sign, handle_extension, handle_agent_request, unlock_name, lock_name,
}

four_left : (s : Bytes) → ltb (length s) 4 ≡ false → length (slice 0 4 s) ≡ 4
four_left s e = omega (arith, length-slice {0} 0 4 s, not-ltb→le (length s) 4 e)

ne→not-eq : (a b : ℕ) → a ≢ b → (a == b) ≡ false
ne→not-eq a b h = ground arith

module _ {p : Port} (w : Progress p) where
  send-Yields : (t : ℕ) (m : Bytes) → Yields {S = Bridge p} (λ b. Unit {0}) (send_to_esp32 t m)
  send-Yields t m = record { at = λ s. let (b, e) = send_returns w t m s in (b, e, tt) }

  recv-Yields : (timeout : ℕ) → Yields {S = Bridge p} IsSmall (recv_from_esp32 timeout)
  recv-Yields timeout = record {
    at = λ s. let (r, e) = recv_returns w timeout s in (r, e, recv-IsSmall w timeout s r e);
  }

  failure-Yields : Yields {S = Bridge p} IsReply (pure create_failure)
  failure-Yields = Yields-pure create_failure (refl, omega arith)

  pub unlock-Yields : (password : Bytes) → Yields {S = Bridge p} IsReply (unlock password)
  unfolding unlock
  unlock-Yields password =
      Yields-bind (λ b. Unit {0}) (send_to_esp32 3 password) _ (send-Yields 3 password)
        λ sent q. Yields-if (not sent) _ _ failure-Yields (
          Yields-bind IsSmall (recv_from_esp32 30000) _ (recv-Yields 30000)
            λ r small. Yields-pure _ (status_reply-IsReply r))

  pub lock-Yields : Yields {S = Bridge p} IsReply lock
  unfolding lock
  lock-Yields =
      Yields-bind (λ b. Unit {0}) (send_to_esp32 4 []) _ (send-Yields 4 [])
        λ sent q. Yields-if (not sent) _ _ failure-Yields (
          Yields-bind IsSmall (recv_from_esp32 10000) _ (recv-Yields 10000)
            λ r small. Yields-pure _ (status_reply-IsReply r))

  pub identities-Yields : Yields {S = Bridge p} IsReply request_identities
  unfolding request_identities
  identities-Yields =
      Yields-bind (λ b. Unit {0}) (send_to_esp32 11 []) _ (send-Yields 11 [])
        λ sent q. Yields-if (not sent) _ _ failure-Yields (
          Yields-bind IsSmall (recv_from_esp32 10000) _ (recv-Yields 10000)
            λ r small. Yields-lift _ (identities_reply-IsReply r small))

  -- `_` of a well-formed length
  word-Yields : (s : Bytes) → length s ≡ 4 → Yields {S = Bridge p} (λ n. Unit {0}) (lift (unpack s))
  word-Yields s h = Yields-lift (unpack s) (let (n, e) = unpack_four s h in (n, e, tt))

  unlock_part :
      (tail : Bytes)
      → Yields {S = Bridge p} IsReply (
          if ltb (length tail) 4
          then pure create_failure
          else (do pw_len ← lift (unpack (slice 0 4 tail)); unlock (slice 4 (4 + pw_len) tail)))
  unlock_part tail = elim (Bool-cases (ltb (length tail) 4)) [
    | inl e ↦ rw e failure-Yields
    | inr e ↦ rw e (
        Yields-bind (λ n. Unit {0}) (lift (unpack (slice 0 4 tail))) _
          (word-Yields (slice 0 4 tail) (four_left tail e))
          λ n q. unlock-Yields (slice 4 (4 + n) tail))
  ]

  extension-Yields : (payload : Bytes) → Yields {S = Bridge p} IsReply (handle_extension payload)
  unfolding handle_extension
  extension-Yields payload = elim (Bool-cases (ltb (length payload) 4)) [
    | inl e ↦ rw e failure-Yields
    | inr e ↦ rw e (
        Yields-bind (λ n. Unit {0}) (lift (unpack (slice 0 4 payload))) _
          (word-Yields (slice 0 4 payload) (four_left payload e))
          λ n q. Yields-if (ltb (length payload) (4 + n)) _ _ failure-Yields (
            Yields-if (eqb (slice 4 (4 + n) payload) unlock_name) _ _
              (unlock_part (drop (4 + n) payload))
              (Yields-if (eqb (slice 4 (4 + n) payload) lock_name) _ _ lock-Yields failure-Yields)))
  ]

  -- Every request but a signature comes back with a reply of the protocol, whatever the client
  -- wrote and however the port behaves.
  pub handle-IsReply :
      (t : ℕ) (payload : Bytes) (s : Bridge p)
      → t ≢ 13
      → (r : Bytes) × ((handle_agent_request (t ∷ payload) s).0 ≡ ok r) × IsReply r
  unfolding handle_agent_request
  handle-IsReply t payload s other =
      (Yields-if (t == 11) _ _ identities-Yields (
          rw (ne→not-eq t 13 other) (
            Yields-if (t == 27) _ _ (extension-Yields payload) (
              Yields-if ((t == 17 || t == 18) || t == 19) _ _
                (Yields-pure create_success (refl, omega arith)) failure-Yields)))).at
        s

  unpack_ends : (s : Bytes) → unpack s ≢ stuck
  unpack_ends s = elim (unpack_cases s) [ inl (n, e, _) ↦ rw e (λ q. cc) | inr e ↦ rw e (λ q. cc) ]

  extract_ends : (blob : Bytes) → extract_raw_key blob ≢ stuck
  extract_ends blob = elim (extract_cases blob) [
    | inl (n, e, _) ↦ rw e (λ q. cc)
    | inr e ↦ rw e (λ q. cc)
  ]

  ssh_string_ends : (s : Bytes) → ssh_string s ≢ stuck
  unfolding ssh_string pack
  ssh_string_ends s = elim (Bool-cases (ltb (length s) (2 ^ 32))) [
    | inl e ↦ rw e (λ q. cc)
    | inr e ↦ rw e (λ q. cc)
  ]

  pub Yields-Ends : {A : Type 0} {P : A → Type 0} (m : Exec (Bridge p) A) → Yields P m → Ends m
  Yields-Ends m y = record { at = λ s. let (a, e, _) = y.at s in rw e (λ q. cc) }

  Ends-send : (t : ℕ) (m : Bytes) → Ends {S = Bridge p} (send_to_esp32 t m)
  Ends-send t m = Yields-Ends (send_to_esp32 t m) (send-Yields t m)

  signature_part :
      Ends {S = Bridge p} (do result ← recv_from_esp32 30000; lift (signature_reply result))
  signature_part = Yields-Ends _ (
      Yields-bind {P = IsReply} IsSmall (recv_from_esp32 30000) _ (recv-Yields 30000)
        λ r small. Yields-lift _ (signature_reply-IsReply r small))

  pub Ends-sign_request :
      (key_blob sign_data : Bytes) (flags : ℕ)
      → Ends {S = Bridge p} (sign_request key_blob sign_data flags)
  unfolding sign_request
  Ends-sign_request key_blob sign_data flags =
      search
        (
          ends_rules, Ends-lift, extract_ends, ssh_string_ends, to_bytes_ends, Ends-send,
          signature_part,
        )
        depth 14

  Ends-handle_sign : (payload : Bytes) → Ends {S = Bridge p} (handle_sign payload)
  unfolding handle_sign
  Ends-handle_sign payload = search (ends_rules, Ends-lift, unpack_ends, Ends-sign_request) depth 14

  -- Every request of a client comes to an end.
  pub Ends-handle_agent_request :
      (request : Bytes) → Ends {S = Bridge p} (handle_agent_request request)
  unfolding handle_agent_request
  Ends-handle_agent_request [] = Ends-pure create_failure
  Ends-handle_agent_request (t ∷ payload) = elim (ℕ_discrete t 13) [
    | yes e ↦ rw e (Ends-handle_sign payload)
    | no other ↦ record {
      at = λ s. let (r, e, _) = handle-IsReply t payload s other in λ q. cc (e);
    }
  ]
