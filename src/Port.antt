-- ===== src/Port.antt =====
-- What the wrapper scripts take from outside: a serial port of pyserial, the clock `time.time()`
-- and `time.sleep`. Times are in milliseconds. The device stands for the port and all behind it.
pub mod Laws
use somethingremotelygood.Base.{ℕ, Option, Bytes, Exec}

pub record Port : Type 1 where
  pub Device : Type 0
  pub now : Device → ℕ
  pub sleep : ℕ → Device → Device
  -- `serial.Serial(...)`, which may raise
  pub connect : Exec Device (Unit {0})
  pub reset_input_buffer : Exec Device (Unit {0})
  -- `ser.read(n)` under the timeout of `ser`; `none` is a timeout of `None`
  pub read : Option ℕ → ℕ → Exec Device Bytes
  -- `ser.readline()`
  pub readline : Option ℕ → Exec Device Bytes
  pub write : Bytes → Exec Device (Unit {0})
  pub flush : Exec Device (Unit {0})
  pub close : Exec Device (Unit {0})
