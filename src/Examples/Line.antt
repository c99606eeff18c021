-- ===== src/Examples/Line.antt =====
-- A serial line with a device that answers each packet by the next of its prepared replies. Every
-- read takes a millisecond.
use somethingremotelygood.Base.{
  ℕ, suc, ◌+◌, ◌≤◌, List, [], ◌∷◌, ◌++◌, some, true, Bytes, length, take, drop, length-take, Result,
  ok, ◌≡◌, refl, arith, subst,
}
use somethingremotelygood.Port.{Port}
use somethingremotelygood.Port.Laws.{Progress, Lifecycle, Buffered}
use somethingremotelygood.Bridge.Object.{Bridge}

pub record Line : Type 0 where
  pub rx : Bytes
  pub tx : Bytes
  pub replies : List Bytes
  pub clock : ℕ

abbrev answer : List Bytes → Line → Line
answer [] d = d
answer (r ∷ rs) d = record d { rx = d.rx ++ r; replies = rs }

abbrev pub line : Port
line = record {
  Device = Line;
  now = λ d. d.clock;
  sleep = λ n d. record d { clock = d.clock + n };
  connect = λ d. (ok tt, d);
  reset_input_buffer = λ d. (ok tt, record d { rx = [] });
  read = λ t n d. (ok (take n d.rx), record d { rx = drop n d.rx; clock = suc d.clock });
  readline = λ t d. (ok d.rx, record d { rx = []; clock = suc d.clock });
  write = λ b d. (ok tt, record d { tx = d.tx ++ b });
  flush = λ d. (ok tt, answer d.replies d);
  close = λ d. (ok tt, d);
}

take_short :
    (n : ℕ) (d : Line) (b : Bytes) → ◌≡◌ {A = Result Bytes} (ok (take n d.rx)) (ok b) → length b ≤ n
take_short n d b e =
    subst (λ (x : Bytes). length x ≤ n) {x = take n d.rx} (cc)
      (omega (arith, length-take {0} n d.rx))

pub line-Progress : Progress line
line-Progress = record {
  read_ticks = λ t n d. omega arith;
  read_ends = λ t n d e. cc;
  read_bounded = λ t n d b e. take_short n d b e;
  write_ends = λ b d e. cc;
  flush_ends = λ d e. cc;
}

pub line-Lifecycle : Lifecycle line
line-Lifecycle = record {
  connect_ends = λ d e. cc;
  reset_ends = λ d e. cc;
  close_ends = λ d e. cc;
  readline_ends = λ t d e. cc;
  readline_ticks = λ t d. omega arith;
}

pub line_lag : (c : ℕ) → suc c ≤ c + 1
line_lag c = omega arith

abbrev pub line-Buffered : Buffered line
line-Buffered = record {
  pending = λ d. d.rx;
  lag = 1;
  read_result = λ t n d h. refl;
  read_pending = λ t n d h. refl;
  read_lag = λ t n d h. line_lag d.clock;
}

-- A bridge on that line, with the timeout that `connect_serial` sets.
abbrev pub bridge : Bytes → List Bytes → Bridge line
bridge rx replies = record {
  serial = some (record { timeout = some 5000 });
  device = record { rx = rx; tx = []; replies = replies; clock = 0 };
  running = true;
}
