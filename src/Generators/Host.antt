-- ===== src/Generators/Host.antt =====
-- What the two scripts use: the modules random, time and os, and the connection to the database.
use somethingremotelygood.Base.{ℕ, Bool, List, Bytes, Exec}
use somethingremotelygood.Database.Bind.{Value}
use somethingremotelygood.Database.Cells.{Cell}
use somethingremotelygood.Generators.Integers.{ℤ}

pub record Host : Type 1 where
  pub World : Type 0
  pub homes_dir : Bytes
  -- `int(time.time())` and `time.localtime(t).tm_hour`
  pub now : World → ℕ
  pub local_hour : ℤ → World → ℕ
  pub randint : ℕ → ℕ → Exec World ℕ
  -- `int(random.gauss(m, s))`, with `m` and `s` in halves
  pub int_gauss : ℤ → ℕ → Exec World ℤ
  pub urandom : ℕ → Exec World Bytes
  pub choices : List Bytes → ℕ → Exec World (List Bytes)
  pub shuffle : List Bytes → Exec World (List Bytes)
  -- `get_connection()`, and the methods of the connection
  pub connect : Exec World (Unit {0})
  pub execute : Bytes → List Value → Exec World (List (List Cell))
  pub execute_update : Bytes → List Value → Exec World (Unit {0})
  pub close : World → World
  -- files
  pub make_dirs : Bytes → Exec World (Unit {0})
  pub write_text : Bytes → Bytes → Exec World (Unit {0})
  pub path_exists : Bytes → World → Bool
  pub list_dir : Bytes → Exec World (List Bytes)
  -- `shutil.rmtree(d, ignore_errors=True)`
  pub remove_tree : Bytes → Exec World (Unit {0})
