-- ===== src/Database/Connection.antt =====
-- Connections to the database (`SQLCipherConnection`, `get_connection`). A connection is an object
-- with a flag, numbered in the order of creation; the sqlcipher program is a parameter.
pub mod Tidy
use somethingremotelygood.Base.{
  ℕ, zero, suc, ◌+◌, Bool, true, false, Option, none, some, List, [], ◌∷◌, ◌++◌, Bytes, codes,
  Result, ok, raised, stuck, runtime_error, Exec, ◌==◌, if◌then◌else◌,
}
use somethingremotelygood.Base.Texts.{strip, strip_right, splitlines}
use somethingremotelygood.Base.Effects.{pure, raise, lift, gets, modify, ◌>>=◌, ◌>>◌}
use somethingremotelygood.Database.Bind.{Value, bind_params}
use somethingremotelygood.Database.Cells.{Cell, separator, int_of, read_rows}

-- What `subprocess.run` returns.
pub record Output : Type 0 where
  pub returncode_zero : Bool
  pub stdout : Bytes

-- The program sqlcipher with the database file, as a call that may raise.
pub record Sqlcipher : Type 1 where
  pub World : Type 0
  pub password : Bytes
  pub run_program : Bytes → Exec World Output

-- `closed n` is the flag of connection `n`; those from `created` on are not there yet.
pub record Store (q : Sqlcipher) : Type 0 where
  pub world : q.World
  pub created : ℕ
  pub closed : ℕ → Bool

abbrev pub set_flag : (ℕ → Bool) → ℕ → Bool → ℕ → Bool
set_flag f c b = λ n. if n == c then b else f n

-- `try: m  finally: clean` where `clean` returns
abbrev restored {ℓ} : {S A : Type ℓ} → (S → S) → Result A × S → Result A × S
restored clean (r, s) = (r, clean s)

abbrev pub finally {ℓ} : {S A : Type ℓ} → Exec S A → (S → S) → Exec S A
finally m clean s = restored clean (m s)

-- `sql.rstrip(";")`
unfoldable pub no_semicolons : Bytes → Bytes
unfolding strip_right
no_semicolons sql = strip_right (λ c. c == b';') sql

unfoldable pub commands : Bytes → Bytes → Bytes
unfolding no_semicolons
commands password sql =
    codes ".headers off\n.separator \""
    ++ (separator
        ++ (codes "\"\n.output /dev/null\nPRAGMA key=\""
            ++ (password
                ++ (codes "\";\nSELECT count(*) FROM sqlite_master;\n.output stdout\n"
                    ++ (no_semicolons sql ++ codes ";\n")))))

-- `if params: sql = self._bind_params(sql, params)`
abbrev pub bound : Bytes → List Value → Result Bytes
bound sql [] = ok sql
bound sql (v ∷ vs) = bind_params sql (v ∷ vs)

-- The first line that is a number, as the id of the row.
unfoldable pub first_id : List Bytes → Option Cell
unfolding int_of strip
first_id [] = none
first_id (line ∷ lines) = elim (strip line) [
  | [] ↦ first_id lines
  | c ∷ s ↦ elim (int_of (c ∷ s)) [ some n ↦ some n | none ↦ first_id lines ]
]

module _ {q : Sqlcipher} where
  -- `SQLCipherConnection()`
  unfoldable pub new_connection : Exec (Store q) ℕ
  new_connection s = (
    ok s.created,
    record s { created = suc s.created; closed = set_flag s.closed s.created false },
  )

  -- `close`
  abbrev pub close : ℕ → Store q → Store q
  close c s = record s { closed = set_flag s.closed c true }

  -- A call of the program.
  abbrev pub call_program : Bytes → Exec (Store q) Output
  call_program input s = let (r, w) = q.run_program input s.world in (r, record s { world = w })

  -- `_run`
  unfoldable pub run_sql : ℕ → Bytes → Exec (Store q) Bytes
  unfolding commands
  run_sql c sql s =
      if s.closed c
      then (raised runtime_error, s)
      else (do
        result ← call_program (commands q.password sql)
        if result.returncode_zero then pure result.stdout else raise runtime_error)
          s

  unfoldable pub execute : ℕ → Bytes → List Value → Exec (Store q) (List (List Cell))
  unfolding run_sql read_rows
  execute c sql params = do
    text ← lift (bound sql params)
    output ← run_sql c text
    pure (read_rows output)

  unfoldable pub execute_insert : ℕ → Bytes → List Value → Exec (Store q) (Option Cell)
  unfolding run_sql first_id no_semicolons splitlines strip
  execute_insert c sql params = do
    text ← lift (bound sql params)
    output ← run_sql c (no_semicolons text ++ codes ";\nSELECT last_insert_rowid();")
    pure (first_id (splitlines (strip output)))

  unfoldable pub execute_update : ℕ → Bytes → List Value → Exec (Store q) (Unit {0})
  unfolding run_sql
  execute_update c sql params = do text ← lift (bound sql params); run_sql c text; pure tt

  -- `get_connection`
  unfoldable pub get_connection : Exec (Store q) ℕ
  unfolding new_connection execute
  get_connection = do
    c ← new_connection
    rows ← execute c (codes "SELECT count(*) FROM sqlite_master") []
    elim rows [ [] ↦ raise runtime_error | r ∷ rs ↦ pure c ]

  -- `own_conn`: without a connection the body has one of its own, which is closed at the end.
  unfoldable pub with_connection :
      {A : Type 0} → Option ℕ → (ℕ → Exec (Store q) A) → Exec (Store q) A
  unfolding get_connection
  with_connection (some c) body = body c
  with_connection none body = do c ← get_connection; finally (body c) (close c)
