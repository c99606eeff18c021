-- ===== src/Bridge/Socket.antt =====
-- A connected Unix stream socket of the standard library, and what `handle_client` relies on.
use somethingremotelygood.Base.{
  ℕ, ◌≤◌, ◌<◌, Bytes, [], length, take, drop, ok, stuck, ◌≡◌, ◌≢◌, Exec,
}

pub record Socket : Type 1 where
  pub Conn : Type 0
  pub recv : ℕ → Exec Conn Bytes
  pub send : Bytes → Exec Conn ℕ
  pub close : Conn → Conn

-- `recv` comes back, with a result or an exception, and so does `send`.
pub record SocketEnds (k : Socket) : Type 0 where
  pub recv_ends : (n : ℕ) (c : k.Conn) → (k.recv n c).0 ≢ stuck
  pub send_ends : (b : Bytes) (c : k.Conn) → (k.send b c).0 ≢ stuck

-- A stream: `recv n` hands out some of the bytes that were sent and not read yet, at least one and
-- at most `n`.
pub record Stream (k : Socket) : Type 0 where
  pub pending : k.Conn → Bytes
  pub chunk : ℕ → k.Conn → ℕ
  pub chunk_pos : (n : ℕ) (c : k.Conn) → 0 < n → pending c ≢ [] → 0 < chunk n c
  pub chunk_le : (n : ℕ) (c : k.Conn) → chunk n c ≤ n
  pub chunk_le_pending : (n : ℕ) (c : k.Conn) → chunk n c ≤ length (pending c)
  pub recv_result : (n : ℕ) (c : k.Conn) → (k.recv n c).0 ≡ ok (take (chunk n c) (pending c))
  pub recv_pending : (n : ℕ) (c : k.Conn) → pending (k.recv n c).1 ≡ drop (chunk n c) (pending c)
