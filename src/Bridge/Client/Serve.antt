-- ===== src/Bridge/Client/Serve.antt =====
-- One round of the loop over a client's messages.
use somethingremotelygood.Base.{
  ℕ, suc, ◌-◌, ◌^◌, ◌≤◌, ◌<◌, Bool, true, false, [], ◌∷◌, ◌++◌, Bytes, length, Result, ok, raised,
  stuck, socket_timeout, Exec, ◌≡◌, ◌≢◌, refl, ◌∙◌, arith, ltb, le→not-ltb, Bool-cases, inl, inr,
}
use somethingremotelygood.Base.Effects.Ends.{Ends, Ends-lift, ends_rules}
use somethingremotelygood.Wire.{word, pack, unpack}
use somethingremotelygood.Wire.Laws.{unpack-word, pack_fits, unpack_cases}
use somethingremotelygood.Port.{Port}
use somethingremotelygood.Port.Laws.{Progress}
use somethingremotelygood.Bridge.Object.{Bridge}
use somethingremotelygood.Bridge.Dispatch.{handle_agent_request}
use somethingremotelygood.Bridge.Dispatch.Outcomes.{Ends-handle_agent_request}
use somethingremotelygood.Bridge.Socket.{Socket, SocketEnds, Stream}
use somethingremotelygood.Bridge.Client.{
  Session, on_conn, on_bridge, read_body, serve_message, serve_round, handled,
}
use somethingremotelygood.Bridge.Client.Body.{read_body-whole, read_body_cut, Ends-read_body}

module _ {k : Socket} {p : Port} where
  handled_returns :
      (r : Result Bool) (s : Session k p)
      → r ≢ stuck
      → (more : Bool) × ((handled (r, s)).0 ≡ ok more)
  handled_returns (ok more) s h = (more, refl)
  handled_returns (raised socket_timeout) s h = (true, refl)
  handled_returns (raised e) s h = (false, refl)
  handled_returns stuck s h = absurd (h refl)

  -- A message of at most 65536 bytes that arrives behind its length gets the reply of
  -- `handle_agent_request`, framed by its own length, and the loop goes on. The four bytes of the
  -- length must come in one chunk; the rest may come in any.
  pub serve_round-reply :
      (w : Stream k) (message rest reply : Bytes) (n : ℕ) (s : Session k p)
      → length message ≤ 65536
      → w.pending s.conn ≡ word (length message) ++ (message ++ rest)
      → w.chunk 4 s.conn ≡ 4
      → (handle_agent_request message s.bridge).0 ≡ ok reply
      → length reply < 2 ^ 32
      → ((c : k.Conn) → (k.send (word (length reply) ++ reply) c).0 ≡ ok n)
      → (c : k.Conn) × (w.pending c ≡ rest)
        × (serve_round s ≡ (
          ok true,
          record {
            conn = (k.send (word (length reply) ++ reply) c).1;
            bridge = (handle_agent_request message s.bridge).1;
          },
        ))
  unfolding serve_round
  serve_round-reply w message rest reply n s small line whole answer short sends =
      let c1 = (k.recv 4 s.conn).1 in
      let e1 : (k.recv 4 s.conn).0 ≡ ok (word (length message)) =
        w.recv_result 4 s.conn ∙ rw (line, whole) in
      let a1 : w.pending c1 ≡ message ++ rest = w.recv_pending 4 s.conn ∙ rw (line, whole) in
      let (s2, e2, a2, kept) =
        read_body-whole {p = p} w (length message) (length message) [] message rest
          (record s { conn = c1 }) (omega arith) (omega arith) a1 in
      (
        s2.conn,
        a2,
        rw (
          e1,
          unpack-word (length message) (omega arith),
          le→not-ltb 65536 (length message) small,
          e2,
          le→not-ltb (length message) (length message) (omega arith),
          kept,
          answer,
          pack_fits (length reply) short,
          sends s2.conn,
        ),
      )

  -- A time-out in the middle of a message does not end the connection, and the bytes that were
  -- already read are dropped: the next round takes what comes next for a length.
  pub serve_round-timeout :
      (n : ℕ) (part : Bytes) (x : ℕ) (s : Session k p)
      → n ≤ 65536
      → suc (length part) < n
      → (k.recv 4 s.conn).0 ≡ ok (word n)
      → (k.recv n (k.recv 4 s.conn).1).0 ≡ ok (x ∷ part)
      → (k.recv (n - suc (length part)) (k.recv n (k.recv 4 s.conn).1).1).0 ≡ raised socket_timeout
      → serve_round s ≡ (
        ok true,
        record s { conn = (k.recv (n - suc (length part)) (k.recv n (k.recv 4 s.conn).1).1).1 },
      )
  unfolding serve_round
  serve_round-timeout n part x s small more e1 e2 e3 = rw (
    e1,
    unpack-word n (omega arith),
    le→not-ltb 65536 n small,
    read_body_cut {p = p} n n x part socket_timeout (record s { conn = (k.recv 4 s.conn).1 })
        (omega arith) more e2 e3,
  )

  module _ (v : SocketEnds k) (w : Progress p) where
    Ends-on_conn : {A : Type 0} (m : Exec k.Conn A) → Ends m → Ends {S = Session k p} (on_conn m)
    Ends-on_conn m h = record { at = λ s. h.at s.conn }

    Ends-on_bridge :
        {A : Type 0} (m : Exec (Bridge p) A) → Ends m → Ends {S = Session k p} (on_bridge m)
    Ends-on_bridge m h = record { at = λ s. h.at s.bridge }

    Ends-recv : (n : ℕ) → Ends (k.recv n)
    Ends-recv n = record { at = λ c. v.recv_ends n c }

    Ends-send : (b : Bytes) → Ends (k.send b)
    Ends-send b = record { at = λ c. v.send_ends b c }

    Ends-message :
        (message : Bytes) → Ends {S = Session k p} (on_bridge (handle_agent_request message))
    Ends-message message =
        Ends-on_bridge (handle_agent_request message) (Ends-handle_agent_request w message)

    word_ends : (b : Bytes) → unpack b ≢ stuck
    word_ends b = elim (unpack_cases b) [ inl (n, e, _) ↦ rw e (λ q. cc) | inr e ↦ rw e (λ q. cc) ]

    pack_ends : (n : ℕ) → pack n ≢ stuck
    unfolding pack
    pack_ends n = elim (Bool-cases (ltb n (2 ^ 32))) [
      | inl e ↦ rw e (λ q. cc)
      | inr e ↦ rw e (λ q. cc)
    ]

    Ends-body : (n : ℕ) → Ends {S = Session k p} (read_body n n [])
    Ends-body n = Ends-read_body v n n [] (omega arith)

    Ends-conn : (n : ℕ) → Ends {S = Session k p} (on_conn (k.recv n))
    Ends-conn n = Ends-on_conn (k.recv n) (Ends-recv n)

    Ends-conn_send : (b : Bytes) → Ends {S = Session k p} (on_conn (k.send b))
    Ends-conn_send b = Ends-on_conn (k.send b) (Ends-send b)

    Ends-serve_message : Ends {S = Session k p} serve_message
    unfolding serve_message
    Ends-serve_message =
        search
          (
            ends_rules, Ends-lift, Ends-conn, word_ends, pack_ends, Ends-body, Ends-message,
            Ends-conn_send,
          )
          depth 16

    -- Every round comes to an end, and tells whether the loop goes on: no exception of the socket,
    -- of the device or of a malformed message leaves it.
    pub serve_round_returns : (s : Session k p) → (more : Bool) × ((serve_round s).0 ≡ ok more)
    unfolding serve_round
    serve_round_returns s =
        handled_returns (serve_message s).0 (serve_message s).1 (Ends-serve_message.at s)
