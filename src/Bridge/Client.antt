-- ===== src/Bridge/Client.antt =====
-- `handle_client`: the loop that serves one client connection.
pub mod Body
pub mod Serve
use somethingremotelygood.Base.{
  ℕ, zero, suc, ◌-◌, Bool, true, false, [], ◌∷◌, ◌++◌, Bytes, length, Error, socket_timeout, Result,
  ok, raised, stuck, Exec, ltb, if◌then◌else◌,
}
use somethingremotelygood.Base.Effects.{pure, lift, ◌>>=◌, ◌>>◌}
use somethingremotelygood.Wire.{pack, unpack}
use somethingremotelygood.Port.{Port}
use somethingremotelygood.Bridge.Object.{Bridge}
use somethingremotelygood.Bridge.Dispatch.{handle_agent_request}
use somethingremotelygood.Bridge.Socket.{Socket}

-- What the thread of a client works on: its socket, and the bridge that all share.
pub record Session (k : Socket) (p : Port) : Type 0 where
  pub conn : k.Conn
  pub bridge : Bridge p

module _ {k : Socket} {p : Port} where
  abbrev pub on_conn : {A : Type 0} → Exec k.Conn A → Exec (Session k p) A
  on_conn m s = let (r, c) = m s.conn in (r, record s { conn = c })

  abbrev pub on_bridge : {A : Type 0} → Exec (Bridge p) A → Exec (Session k p) A
  on_bridge m s = let (r, b) = m s.bridge in (r, record s { bridge = b })

  -- `while len(data) < length`; a chunk has a byte at least, so `length` rounds are enough
  unfoldable pub read_body : ℕ → ℕ → Bytes → Exec (Session k p) Bytes
  read_body zero n received s = if ltb (length received) n then (stuck, s) else (ok received, s)
  read_body (suc fuel) n received s = elim (ltb (length received) n) [
    | false ↦ (pure received) s
    | true ↦
        (do
          chunk ← on_conn (k.recv (n - length received))
          elim chunk [ [] ↦ pure received | c ∷ cs ↦ read_body fuel n (received ++ (c ∷ cs)) ])
          s
  ]

  -- the body of the `try`; `false` is a `break`
  unfoldable pub serve_message : Exec (Session k p) Bool
  serve_message = do
    length_data ← on_conn (k.recv 4)
    if ltb (length length_data) 4 then pure false else (do
      n ← lift (unpack length_data)
      if ltb 65536 n then pure false else (do
        message ← read_body n n []
        if ltb (length message) n then pure false else (do
          response ← on_bridge (handle_agent_request message)
          header ← lift (pack (length response))
          on_conn (k.send (header ++ response))
          pure true)))

  -- `except socket.timeout: continue` and `except Exception: break`
  abbrev handled : Result Bool × Session k p → Result Bool × Session k p
  handled (ok more, s) = (ok more, s)
  handled (raised socket_timeout, s) = (ok true, s)
  handled (raised e, s) = (ok false, s)
  handled (stuck, s) = (stuck, s)

  unfoldable pub serve_round : Exec (Session k p) Bool
  unfolding serve_message
  serve_round s = handled (serve_message s)

  -- `while self.running`, for at most `rounds` rounds
  unfoldable pub serve_loop : ℕ → Exec (Session k p) (Unit {0})
  serve_loop zero s = (stuck, s)
  serve_loop (suc rounds) s = elim s.bridge.running [
    | false ↦ (ok tt, s)
    | true ↦ (do more ← serve_round; elim more [ true ↦ serve_loop rounds | false ↦ pure tt ]) s
  ]

  -- the `finally`
  abbrev close_conn : Result (Unit {0}) × Session k p → Result (Unit {0}) × Session k p
  close_conn (r, s) = (r, record s { conn = k.close s.conn })

  unfoldable pub handle_client : ℕ → Exec (Session k p) (Unit {0})
  unfolding serve_loop
  handle_client rounds s = close_conn (serve_loop rounds s)
