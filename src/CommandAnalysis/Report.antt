-- ===== src/CommandAnalysis/Report.antt =====
-- The history that is read and the report that is written (`read_shell_history`,
-- `save_json_report`).
use somethingremotelygood.Base.{
  ℕ, none, some, List, [], ◌∷◌, ◌++◌, Bytes, codes, length, json_error, Exec, if◌then◌else◌,
}
use somethingremotelygood.Base.{Option, none, some, Result, ok, raised}
use somethingremotelygood.Base.Texts.{splitlines}
use somethingremotelygood.Base.Effects.{pure, lift, gets, ◌>>=◌, ◌>>◌}
use somethingremotelygood.Json.{Json, Items, number, string, array, object, nil, cons, end, field}
use somethingremotelygood.Sanitizer.Lines.{decimal}
use somethingremotelygood.CommandAnalysis.Machine.{Machine, AnomalyReport, join}

abbrev pub strings : List Bytes → Items
strings [] = nil
strings (s ∷ ss) = cons (string s) (strings ss)

-- the dict of `save_json_report`
unfoldable pub report_json :
    Bytes → Bytes → ℕ → AnomalyReport → Bytes → Bytes → Json → Json → List Bytes → Json
unfolding decimal
report_json generated_at model anomaly_id report user_id container_id details analysis_result
      commands =
    object (
      field (codes "report_metadata")
        (object (
          field (codes "generated_at") (string generated_at) (
            field (codes "anomaly_report_id") (number (decimal anomaly_id))
              (field (codes "model") (string model) end))))
        (field (codes "user")
          (object (
            field (codes "user_id") (string user_id)
              (field (codes "container_id") (string container_id) end)))
          (field (codes "anomaly")
            (object (
              field (codes "type") (string report.anomaly_type) (
                field (codes "severity") (string report.severity) (
                  field (codes "summary") (string report.summary)
                    (field (codes "details") details end)))))
            (field (codes "command_analysis") analysis_result (
              field (codes "commands_analyzed") (number (decimal (length commands)))
                (field (codes "command_history") (array (strings commands)) end))))))

abbrev json_or_raise : Option Json → Result Json
json_or_raise none = raised json_error
json_or_raise (some j) = ok j

module _ (m : Machine) where
  open m use {
    World, model_name, path_exists, make_dirs, read_text, write_text, now_iso, now_stamp, loads,
    dumps_indented,
  }

  -- `if os.path.exists(path)`, and then its lines
  unfoldable pub read_lines : Bytes → Exec World (List Bytes)
  unfolding splitlines
  read_lines path w =
      if path_exists path w
      then (do text ← read_text path; pure (splitlines text)) w
      else (pure []) w

  unfoldable pub read_shell_history : Bytes → Bytes → Exec World (List Bytes)
  unfolding read_lines join
  read_shell_history mount_point user_id = do
    ash ← read_lines (join (join mount_point user_id) (codes ".ash_history"))
    bash ← read_lines (join (join mount_point user_id) (codes ".bash_history"))
    zsh ← read_lines (join (join mount_point user_id) (codes ".zsh_history"))
    pure (ash ++ (bash ++ zsh))

  -- `json.loads` of a text that must be JSON
  unfoldable pub load_json : Bytes → Exec World Json
  load_json text = lift (json_or_raise (loads text))

  abbrev reports_dir : Bytes
  reports_dir = codes "./reports"

  abbrev report_path : ℕ → Bytes → Bytes → Bytes
  report_path anomaly_id user_id stamp = join reports_dir (
      codes "report_anomaly"
      ++ (decimal anomaly_id
          ++ (codes "_" ++ (user_id ++ (codes "_" ++ (stamp ++ codes ".json"))))))

  unfoldable pub save_json_report :
      ℕ → AnomalyReport → Bytes → Bytes → Json → List Bytes → Exec World Bytes
  unfolding report_json load_json decimal join
  save_json_report anomaly_id report user_id container_id analysis_result commands = do
    make_dirs reports_dir
    generated_at ← gets now_iso
    stamp ← gets now_stamp
    details ← load_json report.details_json
    write_text (report_path anomaly_id user_id stamp) (
        dumps_indented (
          report_json generated_at model_name anomaly_id report user_id container_id details
            analysis_result commands))
    pure (report_path anomaly_id user_id stamp)
