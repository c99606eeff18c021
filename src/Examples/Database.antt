-- ===== src/Examples/Database.antt =====
-- Values bound into queries, fields read from their output, and a concrete program.
use somethingremotelygood.Base.{
  ◌≤◌, ◌<◌, List, [], ◌∷◌, Bytes, codes, length, map, some, ok, raised, stop_iteration, ◌≡◌, refl,
}
use somethingremotelygood.Database.Bind.{null, number, blob, text, bind_params}
use somethingremotelygood.Database.Bind.Counts.{marks, bind_params-marks}
use somethingremotelygood.Database.Bind.Literals.{read_values, bind_params-values}
use somethingremotelygood.Base.{true, false, arith, none, Bytes}
use somethingremotelygood.Database.Cells.{Cell, positive, negative, real, convert, read_rows}
use somethingremotelygood.Database.Cells.Numbers.{digits_value, convert-digits}
use somethingremotelygood.Database.Connection.{Sqlcipher, Store, with_connection, execute_insert}
use somethingremotelygood.Database.Connection.Tidy.{Tidy}
use somethingremotelygood.Database.Queries.{
  Floats, get_sessions, get_all_users, insert_anomaly_report, get_pending_anomalies,
  insert_command_report, update_anomaly_status, get_container_key, get_anomaly_report,
}
use somethingremotelygood.Database.Queries.Tidy.{queries-Tidy}

abbrev template : Bytes
template = codes "a = ? AND b = ?"

abbrev values : List Bytes
values = codes "x' OR '1'='1" ∷ codes "??" ∷ []

bound_runs :
    (bind_params template (null ∷ number (codes "-3") ∷ []) ≡ ok (codes "a = NULL AND b = -3"))
    × (bind_params template (blob (0 ∷ 255 ∷ []) ∷ text (codes "it's") ∷ [])
        ≡ ok (codes "a = X'00ff' AND b = 'it''s'"))
    × (bind_params template (null ∷ []) ≡ raised stop_iteration)
unfolding bind_params
bound_runs = (refl, refl, refl)

bind_params-values_example :
    (bound : Bytes) × (bind_params template (map text values) ≡ ok bound)
    × (read_values template bound ≡ some values)
unfolding marks
bind_params-values_example = bind_params-values template values refl refl

bind_params-marks_example :
    (marks template ≤ length (null ∷ []) → (b : Bytes) × (bind_params template (null ∷ []) ≡ ok b))
    × (length (null ∷ []) < marks template
        → bind_params template (null ∷ []) ≡ raised stop_iteration)
bind_params-marks_example = bind_params-marks template (null ∷ [])

converted :
    (convert (codes "-12") ≡ negative 12)
    × (convert (codes "1_000") ≡ positive 1000)
    × (convert (codes "1e3") ≡ real (codes "1e3"))
    × (convert (codes "12a") ≡ Cell.text (codes "12a"))
    × (convert [] ≡ Cell.text [])
unfolding convert
converted = (refl, refl, refl, refl, refl)

rows_run :
    read_rows (codes "1||<SEP>||ann\n\n2||<SEP>||007\n")
    ≡ (positive 1 ∷ Cell.text (codes "ann") ∷ []) ∷ (positive 2 ∷ positive 7 ∷ []) ∷ []
unfolding read_rows
rows_run = refl

convert-digits_example :
    (convert (codes "07") ≡ positive (digits_value 0 (codes "07")))
    × (convert (b'0' ∷ codes "07") ≡ convert (codes "07"))
convert-digits_example = convert-digits (codes "07") (λ e. cc) (omega arith) (omega arith)

-- a program that keeps its inputs and always prints one row
abbrev program : Sqlcipher
program = record {
  World = List Bytes;
  password = codes "secret";
  run_program =
      λ input w. (ok (record { returncode_zero = true; stdout = codes "7\n" }), input ∷ w);
}

abbrev fresh_store : Store program
fresh_store = record { world = []; created = 0; closed = λ n. true }

insert_runs :
    (insert_anomaly_report {q = program}
      (text (codes "ann"))
      null
      null
      null
      null
      none
      fresh_store).0
    ≡ ok (some (positive 7))
unfolding insert_anomaly_report with_connection execute_insert bind_params
insert_runs = refl

abbrev floats : Floats
floats = record { str_float = λ s. s; is_zero = λ s. false }

queries-Tidy_example :
    Tidy {q = program} (get_sessions none none none)
    × Tidy {q = program} (get_all_users none)
    × Tidy {q = program} (insert_anomaly_report null null null null null none)
    × Tidy {q = program} (get_pending_anomalies none)
    × Tidy {q = program} (insert_command_report null null null null null none)
    × Tidy {q = program} (update_anomaly_status null null none)
    × Tidy {q = program} (get_container_key floats null null none)
    × Tidy {q = program} (get_anomaly_report null none)
queries-Tidy_example = queries-Tidy floats null null null null null none none none
