-- ===== src/Database/Queries.antt =====
-- The queries of the program (`get_sessions` to `get_anomaly_report`).
pub mod Tidy
use somethingremotelygood.Base.{
  ℕ, zero, suc, Bool, true, false, ◌||◌, not, Option, none, some, List, [], ◌∷◌, ◌++◌, Bytes, codes,
  eqb, map, Result, ok, raised, index_error, value_error, Exec, if◌then◌else◌,
}
use somethingremotelygood.Base.Hex.{fromhex}
use somethingremotelygood.Base.Effects.{pure, raise, lift, ◌>>=◌, ◌>>◌}
use somethingremotelygood.Sanitizer.Lines.{decimal}
use somethingremotelygood.Database.Bind.{Value, text, null, number, blob}
use somethingremotelygood.Database.Cells.{Cell, positive, negative, real}
use somethingremotelygood.Database.Rows.{Row, zip, head_of, first_cells, first_row}
use somethingremotelygood.Database.Connection.{
  Sqlcipher, Store, execute, execute_insert, execute_update, with_connection,
}

-- `if user_id:`: a value that is not None, empty or zero
abbrev pub given : Option Value → Bool
given none = false
given (some null) = false
given (some (number s)) = not (eqb s (codes "0") || (eqb s (codes "0.0") || eqb s (codes "-0.0")))
given (some (blob [])) = false
given (some (blob (c ∷ s))) = true
given (some (text [])) = false
given (some (text (c ∷ s))) = true

abbrev pub since_given : Option ℕ → Bool
since_given none = false
since_given (some zero) = false
since_given (some (suc n)) = true

-- `params.append(user_id)` and `params.append(int(since))`
abbrev pub user_params : Option Value → List Value
user_params none = []
user_params (some v) = if given (some v) then v ∷ [] else []

abbrev pub since_params : Option ℕ → List Value
unfolding decimal
since_params none = []
since_params (some zero) = []
since_params (some (suc n)) = number (decimal (suc n)) ∷ []

unfoldable pub sessions_sql : Option Value → Option ℕ → Bytes
sessions_sql user_id since =
    codes "SELECT session_id, user_id, container_id, event_type, timestamp FROM sessions WHERE 1=1"
    ++ ((if given user_id then codes " AND user_id = ?" else [])
        ++ ((if since_given since then codes " AND timestamp >= ?" else [])
            ++ codes " ORDER BY timestamp ASC"))

unfoldable pub sessions_params : Option Value → Option ℕ → List Value
unfolding since_params
sessions_params user_id since = user_params user_id ++ since_params since

abbrev session_columns : List Bytes
session_columns =
    codes "session_id"
    ∷ codes "user_id"
    ∷ codes "container_id"
    ∷ codes "event_type"
    ∷ codes "timestamp"
    ∷ []

abbrev pending_columns : List Bytes
pending_columns =
    codes "report_id"
    ∷ codes "user_id"
    ∷ codes "anomaly_type"
    ∷ codes "severity"
    ∷ codes "summary"
    ∷ codes "details_json"
    ∷ codes "created"
    ∷ []

abbrev report_columns : List Bytes
report_columns =
    codes "report_id"
    ∷ codes "user_id"
    ∷ codes "anomaly_type"
    ∷ codes "severity"
    ∷ codes "summary"
    ∷ codes "details_json"
    ∷ codes "created"
    ∷ codes "status"
    ∷ []

-- `str(val)` of a float and its test for zero, of Python
pub record Floats : Type 0 where
  pub str_float : Bytes → Bytes
  pub is_zero : Bytes → Bool

-- `rows[0][0]` as a condition, and as a text
abbrev pub truthy : Floats → Cell → Bool
truthy f (positive zero) = false
truthy f (positive (suc n)) = true
truthy f (negative n) = true
truthy f (real s) = not (f.is_zero s)
truthy f (Cell.text []) = false
truthy f (Cell.text (c ∷ s)) = true

abbrev pub str_of : Floats → Cell → Bytes
unfolding decimal
str_of f (positive n) = decimal n
str_of f (negative n) = b'-' ∷ decimal n
str_of f (real s) = f.str_float s
str_of f (Cell.text s) = s

abbrev pub found_key : Result Bytes → Result (Option Bytes)
found_key (ok key) = ok (some key)
found_key (raised e) = raised e
found_key _ = raised value_error

-- `rows and rows[0][0]`, and then the key
unfoldable pub key_from : Floats → List (List Cell) → Result (Option Bytes)
unfolding fromhex
key_from f [] = ok none
key_from f ([] ∷ rows) = raised index_error
key_from f ((cell ∷ cells) ∷ rows) = elim (truthy f cell) [
  | false ↦ ok none
  | true ↦ found_key (fromhex (str_of f cell))
]

module _ {q : Sqlcipher} where
  unfoldable pub get_sessions : Option Value → Option ℕ → Option ℕ → Exec (Store q) (List Row)
  unfolding sessions_sql sessions_params zip
  get_sessions user_id since conn = with_connection conn λ c. do
    rows ← execute c (sessions_sql user_id since) (sessions_params user_id since)
    pure (map (zip session_columns) rows)

  unfoldable pub get_all_users : Option ℕ → Exec (Store q) (List Cell)
  unfolding first_cells
  get_all_users conn =
      with_connection conn
        λ c. do rows ← execute c (codes "SELECT user_id FROM users") []; lift (first_cells rows)

  unfoldable pub insert_anomaly_report :
      Value → Value → Value → Value → Value → Option ℕ → Exec (Store q) (Option Cell)
  insert_anomaly_report user_id anomaly_type severity summary details_json conn =
      with_connection conn λ c.
        execute_insert c
          (codes
            "INSERT INTO anomaly_reports(user_id, anomaly_type, severity, summary, details_json) VALUES(?,?,?,?,?)")
          (user_id ∷ anomaly_type ∷ severity ∷ summary ∷ details_json ∷ [])

  unfoldable pub get_pending_anomalies : Option ℕ → Exec (Store q) (List Row)
  unfolding zip
  get_pending_anomalies conn = with_connection conn λ c. do
    rows ←
        execute c
          (codes
            "SELECT report_id, user_id, anomaly_type, severity, summary, details_json, datetime(created_at, 'unixepoch') as created FROM anomaly_reports WHERE status = 'pending' ORDER BY created_at DESC")
          []
    pure (map (zip pending_columns) rows)

  unfoldable pub insert_command_report :
      Value → Value → Value → Value → Value → Option ℕ → Exec (Store q) (Option Cell)
  insert_command_report anomaly_id user_id container_id analysis risk_level conn =
      with_connection conn λ c.
        execute_insert c
          (codes
            "INSERT INTO command_reports(anomaly_report_id, user_id, container_id, analysis_text, risk_level) VALUES(?,?,?,?,?)")
          (anomaly_id ∷ user_id ∷ container_id ∷ analysis ∷ risk_level ∷ [])

  unfoldable pub update_anomaly_status : Value → Value → Option ℕ → Exec (Store q) (Unit {0})
  update_anomaly_status report_id status conn = with_connection conn λ c.
      execute_update c (codes "UPDATE anomaly_reports SET status = ? WHERE report_id = ?")
        (status ∷ report_id ∷ [])

  unfoldable pub get_container_key :
      Floats → Value → Value → Option ℕ → Exec (Store q) (Option Bytes)
  unfolding key_from
  get_container_key floats user_id container_id conn = with_connection conn λ c. do
    rows ←
        execute c
          (codes "SELECT hex(container_key) FROM containers WHERE user_id = ? AND container_id = ?")
          (user_id ∷ container_id ∷ [])
    lift (key_from floats rows)

  unfoldable pub get_anomaly_report : Value → Option ℕ → Exec (Store q) (Option Row)
  unfolding zip
  get_anomaly_report report_id conn = with_connection conn λ c. do
    rows ←
        execute c
          (codes
            "SELECT report_id, user_id, anomaly_type, severity, summary, details_json, datetime(created_at, 'unixepoch') as created, status FROM anomaly_reports WHERE report_id = ?")
          (report_id ∷ [])
    pure (first_row (map (zip report_columns) rows))
