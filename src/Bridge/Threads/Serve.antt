-- ===== src/Bridge/Threads/Serve.antt =====
-- A request as one call, and as its packet and its reply.
use somethingremotelygood.Base.{
  ℕ, Bool, not, [], ◌∷◌, Bytes, Error, raised, stuck, Exec, ◌≡◌, refl, ◌∙◌, Result-cases, got,
  failed, ran_out, if◌then◌else◌,
}
use somethingremotelygood.Base.Effects.{pure, lift, ◌>>=◌}
use somethingremotelygood.Port.{Port}
use somethingremotelygood.Wire.{to_bytes}
use somethingremotelygood.Bridge.Object.{Bridge}
use somethingremotelygood.Bridge.Blobs.{create_failure, ssh_string, extract_raw_key}
use somethingremotelygood.Bridge.Link.{send_to_esp32, recv_from_esp32}
use somethingremotelygood.Bridge.Requests.{unlock, lock, request_identities, sign_request}
use somethingremotelygood.Bridge.Threads.{
  Request, unlock_call, lock_call, identities_call, sign_call, message_of, wait_of, answer_of,
}

-- The whole call, as one step.
abbrev pub serve : {p : Port} → Request → Exec (Bridge p) Bytes
serve (unlock_call password) = unlock password
serve lock_call = lock
serve identities_call = request_identities
serve (sign_call key_blob sign_data flags) = sign_request key_blob sign_data flags

module _ {p : Port} where
  abbrev pub received : Request → Bool → Exec (Bridge p) Bytes
  received r sent =
      if not sent
      then pure create_failure
      else (do result ← recv_from_esp32 (wait_of r); lift (answer_of r result))

  abbrev pub sent_parts : Request → ℕ × Bytes → Exec (Bridge p) Bytes
  sent_parts r message = send_to_esp32 message.0 message.1 >>= received r

  abbrev pub parts : Request → Exec (Bridge p) Bytes
  parts r = lift (message_of r) >>= sent_parts r

  pub serve-parts : (r : Request) (b : Bridge p) → serve r b ≡ parts r b
  unfolding unlock lock request_identities sign_request message_of
  serve-parts (unlock_call password) b = refl
  serve-parts lock_call b = refl
  serve-parts identities_call b = refl
  serve-parts (sign_call key_blob sign_data flags) b =
      elim (Result-cases (extract_raw_key key_blob)) [
        | failed (x, e) ↦ rw e refl
        | ran_out e ↦ rw e refl
        | got (raw_key, e) ↦ elim (Result-cases (ssh_string raw_key)) [
          | failed (x, f) ↦ rw (e, f) refl
          | ran_out f ↦ rw (e, f) refl
          | got (key, f) ↦ elim (Result-cases (ssh_string sign_data)) [
            | failed (x, g) ↦ rw (e, f, g) refl
            | ran_out g ↦ rw (e, f, g) refl
            | got (message, g) ↦ elim (Result-cases (to_bytes (flags ∷ []))) [
              | failed (x, h) ↦ rw (e, f, g, h) refl
              | ran_out h ↦ rw (e, f, g, h) refl
              | got (tail, h) ↦ rw (e, f, g, h) refl
            ]
          ]
        ]
      ]

  pub serve_raised :
      (r : Request) (x : Error) (b : Bridge p) → message_of r ≡ raised x → serve r b ≡ (raised x, b)
  serve_raised r x b e = serve-parts r b ∙ rw e refl

  pub serve_stuck : (r : Request) (b : Bridge p) → message_of r ≡ stuck → serve r b ≡ (stuck, b)
  serve_stuck r b e = serve-parts r b ∙ rw e refl
