-- ===== src/Examples/Client.antt =====
-- A client on a stream that hands out at most five bytes at a time.
use somethingremotelygood.Base.{
  ℕ, ◌≤◌, ◌<◌, true, Bool, [], ◌∷◌, ◌++◌, Bytes, codes, length, take, drop, Result, ok, raised,
  socket_timeout, ◌≡◌, ◌≢◌, refl, arith, min,
}
use somethingremotelygood.Wire.{word}
use somethingremotelygood.Bridge.Socket.{Socket, SocketEnds, Stream}
use somethingremotelygood.Bridge.Client.{Session, serve_round}
use somethingremotelygood.Bridge.Client.Serve.{
  serve_round-reply, serve_round-timeout, serve_round_returns,
}
use somethingremotelygood.Bridge.Dispatch.{handle_agent_request}
use somethingremotelygood.Examples.Line.{line, line-Progress, bridge}

-- what has arrived, and what was sent
abbrev five : Socket
five = record {
  Conn = Bytes × Bytes;
  recv = λ n c.
      (ok (take (min 5 (min n (length c.0))) c.0), (drop (min 5 (min n (length c.0))) c.0, c.1));
  send = λ b c. (ok (length b), (c.0, c.1 ++ b));
  close = λ c. c;
}

five-SocketEnds : SocketEnds five
five-SocketEnds = record { recv_ends = λ n c e. cc; send_ends = λ b c e. cc }

five_pos : (n : ℕ) (b : Bytes) → 0 < n → b ≢ [] → 0 < min 5 (min n (length b))
five_pos n [] h ne = absurd (ne refl)
five_pos n (x ∷ b) h ne = omega arith

five_le : (n k : ℕ) → min 5 (min n k) ≤ n
five_le n k = omega arith

five_le_pending : (n k : ℕ) → min 5 (min n k) ≤ k
five_le_pending n k = omega arith

abbrev five-Stream : Stream five
five-Stream = record {
  pending = λ c. c.0;
  chunk = λ n c. min 5 (min n (length c.0));
  chunk_pos = λ n c h ne. five_pos n c.0 h ne;
  chunk_le = λ n c. five_le n (length c.0);
  chunk_le_pending = λ n c. five_le_pending n (length c.0);
  recv_result = λ n c. refl;
  recv_pending = λ n c. refl;
}

abbrev session : Bytes → Session five line
session b = record { conn = (b, []); bridge = bridge [] [] }

-- an unknown request
unknown_failure : (handle_agent_request (codes "unknown") (bridge [] [])).0 ≡ ok (5 ∷ [])
unfolding handle_agent_request
unknown_failure = refl

serve_round-reply_example :
    (c : Bytes × Bytes) × (c.0 ≡ codes "+")
    × (serve_round (session (word 7 ++ (codes "unknown" ++ codes "+"))) ≡ (
      ok true,
      record {
        conn = (c.0, c.1 ++ (word 1 ++ (5 ∷ [])));
        bridge = (handle_agent_request (codes "unknown") (bridge [] [])).1;
      },
    ))
serve_round-reply_example =
    serve_round-reply five-Stream (codes "unknown") (codes "+") (5 ∷ []) 5
      (session (word 7 ++ (codes "unknown" ++ codes "+"))) (omega arith) refl refl unknown_failure
      (omega arith) (λ c. refl)

serve_round_returns_example : (more : Bool) × ((serve_round (session (codes "bad"))).0 ≡ ok more)
serve_round_returns_example =
    serve_round_returns five-SocketEnds line-Progress (session (codes "bad"))

-- a socket that times out when nothing has arrived
abbrev slow_recv : ℕ → Bytes → Result Bytes
slow_recv n [] = raised socket_timeout
slow_recv n (x ∷ b) = ok (take n (x ∷ b))

abbrev slow : Socket
slow = record {
  Conn = Bytes;
  recv = λ n c. (slow_recv n c, drop n c);
  send = λ b c. (ok (length b), c);
  close = λ c. c;
}

abbrev slow_session : Bytes → Session slow line
slow_session b = record { conn = b; bridge = bridge [] [] }

serve_round-timeout_example :
    serve_round (slow_session (word 3 ++ codes "ab")) ≡ (ok true, slow_session [])
serve_round-timeout_example =
    serve_round-timeout 3 (codes "b") b'a' (slow_session (word 3 ++ codes "ab")) (omega arith)
      (omega arith) refl refl refl
