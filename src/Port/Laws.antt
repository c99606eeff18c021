-- ===== src/Port/Laws.antt =====
-- What the scripts rely on: the clock moves on, calls come back, and bytes that have arrived are
-- handed out in order.
use somethingremotelygood.Base.{
  ℕ, ◌+◌, ◌≤◌, ◌<◌, Option, Bytes, length, take, drop, ok, stuck, ◌≡◌, ◌≢◌,
}
use somethingremotelygood.Port.{Port}

-- Every read takes time and comes back, with at most the bytes asked for or an exception; writing
-- comes back too.
pub record Progress (p : Port) : Type 0 where
  pub read_ticks : (t : Option ℕ) (n : ℕ) (d : p.Device) → p.now d < p.now (p.read t n d).1
  pub read_ends : (t : Option ℕ) (n : ℕ) (d : p.Device) → (p.read t n d).0 ≢ stuck
  pub read_bounded :
      (t : Option ℕ) (n : ℕ) (d : p.Device) (b : Bytes) → (p.read t n d).0 ≡ ok b → length b ≤ n
  pub write_ends : (b : Bytes) (d : p.Device) → (p.write b d).0 ≢ stuck
  pub flush_ends : (d : p.Device) → (p.flush d).0 ≢ stuck

-- Opening, closing and reading a line come back too, and reading a line takes time.
pub record Lifecycle (p : Port) : Type 0 where
  pub connect_ends : (d : p.Device) → (p.connect d).0 ≢ stuck
  pub reset_ends : (d : p.Device) → (p.reset_input_buffer d).0 ≢ stuck
  pub close_ends : (d : p.Device) → (p.close d).0 ≢ stuck
  pub readline_ends : (t : Option ℕ) (d : p.Device) → (p.readline t d).0 ≢ stuck
  pub readline_ticks : (t : Option ℕ) (d : p.Device) → p.now d < p.now (p.readline t d).1

-- `pending` are the bytes that have arrived and were not read yet. A read that they can serve
-- returns the first of them, and takes at most `lag`.
pub record Buffered (p : Port) : Type 0 where
  pub pending : p.Device → Bytes
  pub lag : ℕ
  pub read_result :
      (t : Option ℕ) (n : ℕ) (d : p.Device)
      → n ≤ length (pending d)
      → (p.read t n d).0 ≡ ok (take n (pending d))
  pub read_pending :
      (t : Option ℕ) (n : ℕ) (d : p.Device)
      → n ≤ length (pending d)
      → pending (p.read t n d).1 ≡ drop n (pending d)
  pub read_lag :
      (t : Option ℕ) (n : ℕ) (d : p.Device)
      → n ≤ length (pending d)
      → p.now (p.read t n d).1 ≤ p.now d + lag
