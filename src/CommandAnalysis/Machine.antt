-- ===== src/CommandAnalysis/Machine.antt =====
-- What the analysis takes from outside: programs, files, the database and the language model.
use somethingremotelygood.Base.{
  ℕ, Bool, false, Option, List, [], ◌∷◌, ◌++◌, Bytes, codes, Result, ok, raised, stuck, Exec, ◌==◌,
  if◌then◌else◌,
}
use somethingremotelygood.Json.{Json}

-- The programs that are run, with their arguments.
pub data Command : Type 0 where
  -- losetup --find --show, -d, -j
  attach_loop : Bytes → Command
  detach_loop : Bytes → Command
  list_loops : Bytes → Command
  -- cryptsetup open and close
  open_luks : Bytes → Bytes → Bytes → Command
  close_luks : Bytes → Command
  mount_device : Bytes → Bytes → Command
  unmount_point : Bytes → Command

-- `returncode == 0` and `stdout`
pub record Output : Type 0 where
  pub returncode_zero : Bool
  pub stdout : Bytes

-- An anomaly report of the database, as far as it is read.
pub record AnomalyReport : Type 0 where
  pub user_id : Bytes
  pub anomaly_type : Bytes
  pub severity : Bytes
  pub summary : Bytes
  pub details_json : Bytes

-- A session, as far as it is read.
pub record Visit : Type 0 where
  pub container_id : Bytes
  pub event_type : Bytes

pub record Machine : Type 1 where
  pub World : Type 0
  pub homes_dir : Bytes
  pub model_name : Bytes
  -- `subprocess.run`
  pub run : Command → Exec World Output
  pub path_exists : Bytes → World → Bool
  pub is_mount : Bytes → World → Bool
  pub is_dir : Bytes → World → Bool
  pub make_dirs : Bytes → Exec World (Unit {0})
  -- `tempfile.mkstemp`, the writing of the key to it, `os.unlink`
  pub make_temp : Exec World Bytes
  pub write_key : Bytes → Bytes → Exec World (Unit {0})
  pub unlink : Bytes → World → World
  -- a text file, read in whole and written in whole
  pub read_text : Bytes → Exec World Bytes
  pub write_text : Bytes → Bytes → Exec World (Unit {0})
  -- `now.isoformat()` and `now.strftime('%Y%m%d_%H%M%S')`
  pub now_iso : World → Bytes
  pub now_stamp : World → Bytes
  -- the calls of `db_access` on the connection of the analysis
  pub connect : Exec World (Unit {0})
  pub close : World → World
  pub get_anomaly_report : ℕ → Exec World (Option AnomalyReport)
  pub get_sessions : Bytes → Exec World (List Visit)
  pub get_container_key : Bytes → Bytes → Exec World (Option Bytes)
  pub insert_command_report : ℕ → Bytes → Bytes → Bytes → Bytes → Exec World (Unit {0})
  -- `call_llm`
  pub call_llm : Bytes → Exec World Bytes
  -- `json.loads`, whose error is `none`, `json.dumps` and `json.dump` with an indent of 2
  pub loads : Bytes → Option Json
  pub dumps : Json → Bytes
  pub dumps_indented : Json → Bytes
  -- `list(set(xs))`
  pub unique : List Bytes → List Bytes

-- `try: m  finally: clean`
abbrev settle : {A : Type 0} → Result A → Result (Unit {0}) → Result A
settle r (ok u) = r
settle r (raised e) = raised e
settle r stuck = stuck

abbrev after : {S A : Type 0} → Exec S (Unit {0}) → Result A × S → Result A × S
after clean (r, s) = let (c, s') = clean s in (settle r c, s')

abbrev pub finally : {S A : Type 0} → Exec S A → Exec S (Unit {0}) → Exec S A
finally m clean s = after clean (m s)

abbrev ends_with_slash : Bytes → Bool
ends_with_slash [] = false
ends_with_slash (c ∷ []) = c == b'/'
ends_with_slash (c ∷ d ∷ s) = ends_with_slash (d ∷ s)

-- `os.path.join(a, b)` for an `a` that is not empty
unfoldable pub join : Bytes → Bytes → Bytes
join a [] = if ends_with_slash a then a else a ++ codes "/"
join a (c ∷ b) =
    if c == b'/' then c ∷ b else if ends_with_slash a then a ++ (c ∷ b) else a ++ (b'/' ∷ c ∷ b)
