-- ===== src/Examples/Bridge.antt =====
-- The bridge on a concrete line: runs, and the theorems at inputs.
use somethingremotelygood.Base.{
  ℕ, Option, none, some, [], ◌∷◌, ◌++◌, Bytes, codes, ok, raised, value_error, ◌≡◌, refl, arith,
}
use somethingremotelygood.Base.Results.{◌>>=◌}
use somethingremotelygood.Wire.{word, unpack}
use somethingremotelygood.Firmware.{packet}
use somethingremotelygood.Bridge.Object.{Bridge, serial_read, set_timeout}
use somethingremotelygood.Bridge.Blobs.{build_ed25519_key_blob, extract_raw_key}
use somethingremotelygood.Bridge.Blobs.Laws.{extract-build}
use somethingremotelygood.Bridge.Link.{recv_from_esp32, accept}
use somethingremotelygood.Bridge.Link.Returns.{recv_returns}
use somethingremotelygood.Bridge.Link.Receive.{recv-packet}
use somethingremotelygood.Bridge.Replies.Bounds.{IsReply}
use somethingremotelygood.Bridge.Requests.Replies.{
  string, blob, identities_message, signature_message,
}
use somethingremotelygood.Bridge.Dispatch.{handle_agent_request, unlock_name}
use somethingremotelygood.Bridge.Dispatch.Sign.{sign-signature, sign_large_flags, sign_truncated}
use somethingremotelygood.Bridge.Dispatch.Answers.{identities-key, unlock-status}
use somethingremotelygood.Bridge.Dispatch.Outcomes.{handle-IsReply}
use somethingremotelygood.Examples.Line.{line, line-Progress, line-Buffered, bridge}

-- a raw key of 32 bytes, and a signature of 64
abbrev raw : Bytes
raw = codes "0123456789abcdef0123456789abcdef"

abbrev raw_sig : Bytes
raw_sig = raw ++ raw

-- debug text of the firmware, then a packet
abbrev chatter : Bytes
chatter = codes "ready" ++ (packet 6 [] ++ [])

recv_chatter : (recv_from_esp32 10000 (bridge chatter [])).0 ≡ ok (some (6, []))
unfolding recv_from_esp32 serial_read set_timeout accept unpack
recv_chatter = refl

recv_nothing : (recv_from_esp32 3 (bridge (codes "ready") [])).0 ≡ ok none
unfolding recv_from_esp32 serial_read set_timeout accept unpack
recv_nothing = refl

extract-build_example : (build_ed25519_key_blob raw >>= extract_raw_key) ≡ ok raw
extract-build_example = extract-build raw (omega arith)

recv_returns_example :
    (r : Option (ℕ × Bytes)) × ((recv_from_esp32 10000 (bridge chatter [])).0 ≡ ok r)
recv_returns_example = recv_returns line-Progress 10000 (bridge chatter [])

recv-packet_example :
    ((recv_from_esp32 10000 (bridge chatter [])).0 ≡ ok (some (6, [])))
    × ((recv_from_esp32 10000 (bridge chatter [])).1.device.rx ≡ [])
    × ((recv_from_esp32 10000 (bridge chatter [])).1.serial ≡ some (record { timeout = some 5000 }))
recv-packet_example =
    recv-packet line-Progress line-Buffered 5000 6 10000 (codes "ready") [] [] (bridge chatter [])
      (omega arith) (omega arith) (omega arith) refl refl

identities-key_example :
    (handle_agent_request (11 ∷ []) (bridge [] (packet 12 (word 1 ++ string raw ++ word 0) ∷ []))).0
    ≡ ok (identities_message raw)
identities-key_example =
    identities-key line-Progress line-Buffered 5000
      (bridge [] (packet 12 (word 1 ++ string raw ++ word 0) ∷ [])) refl raw (word 0) []
      (omega arith)
      (record {
        noise = [];
        rest = [];
        written = refl;
        flushed = refl;
        line = refl;
        quiet = tt;
        fits = omega arith;
        quick = omega arith;
      })

-- a line whose device answers one packet
abbrev answering : ℕ → Bytes → Bridge line
answering t payload = bridge [] (packet t payload ∷ [])

sign-signature_example :
    (handle_agent_request
      (13 ∷ string (blob raw) ++ (string (codes "hi") ++ word 0))
      (answering 14 (string raw_sig ++ []))).0
    ≡ ok (signature_message raw_sig)
sign-signature_example =
    sign-signature raw (codes "hi") (answering 14 (string raw_sig ++ [])) (omega arith)
      (omega arith) line-Progress line-Buffered 5000 0 raw_sig [] (omega arith) (omega arith) refl
      (record {
        noise = [];
        rest = [];
        written = refl;
        flushed = refl;
        line = refl;
        quiet = tt;
        fits = omega arith;
        quick = omega arith;
      })

sign_large_flags_example :
    handle_agent_request
      (13 ∷ string (blob raw) ++ (string (codes "hi") ++ word 256))
      (bridge [] [])
    ≡ (raised value_error, bridge [] [])
sign_large_flags_example =
    sign_large_flags raw (codes "hi") (bridge [] []) (omega arith) (omega arith) 256 (omega arith)
      (omega arith)

sign_truncated_example :
    handle_agent_request (13 ∷ string (blob raw) ++ (word 9 ++ codes "hi")) (bridge [] [])
    ≡ handle_agent_request (13 ∷ string (blob raw) ++ string (codes "hi")) (bridge [] [])
sign_truncated_example =
    sign_truncated (blob raw) (codes "hi") 9 (bridge [] []) (omega arith) (omega arith)
      (omega arith)

unlock-status_example :
    (handle_agent_request (27 ∷ string unlock_name ++ string (codes "pw")) (answering 6 [])).0
    ≡ ok (6 ∷ [])
unlock-status_example =
    unlock-status line-Progress line-Buffered 5000 (answering 6 []) refl (codes "pw") [] 6
      (omega arith)
      (record {
        noise = [];
        rest = [];
        written = refl;
        flushed = refl;
        line = refl;
        quiet = tt;
        fits = omega arith;
        quick = omega arith;
      })

handle-IsReply_example :
    (r : Bytes) × ((handle_agent_request (27 ∷ codes "junk") (bridge [] [])).0 ≡ ok r) × IsReply r
handle-IsReply_example = handle-IsReply line-Progress 27 (codes "junk") (bridge [] []) (omega arith)
