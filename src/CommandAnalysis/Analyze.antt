-- ===== src/CommandAnalysis/Analyze.antt =====
-- The analysis of an anomaly (`analyze_anomaly`).
pub mod Unmounts
use somethingremotelygood.Base.{
  ℕ, Bool, true, false, ◌&&◌, not, Option, none, some, List, [], ◌∷◌, ◌++◌, Bytes, codes, take, eqb,
  Result, ok, raised, key_error, Exec, if◌then◌else◌,
}
use somethingremotelygood.Base.Effects.{pure, raise, lift, gets, ◌>>=◌, ◌>>◌}
use somethingremotelygood.Json.{Json, Items, Fields, string, array, object, nil, end, field, get}
use somethingremotelygood.Sanitizer.Lines.{sanitize_commands}
use somethingremotelygood.Sanitizer.Prompt.{build_analysis_prompt}
use somethingremotelygood.Sanitizer.Response.{validate_llm_response}
use somethingremotelygood.CommandAnalysis.Machine.{Machine, AnomalyReport, Visit, finally, join}
use somethingremotelygood.CommandAnalysis.Volume.{mount_volume, unmount_volume}
use somethingremotelygood.CommandAnalysis.Report.{read_shell_history, load_json, save_json_report}

-- the dict for an answer that is not valid
unfoldable pub fallback_result : Bytes → Json
fallback_result response = object (
    field (codes "risk_level") (string (codes "suspicious")) (
      field (codes "summary") (string (codes "LLM response failed schema validation")) (
        field (codes "findings") (array nil) (
          field (codes "recommendation") (string (codes "Manual review required"))
            (field (codes "raw_response") (string (take 500 response)) end)))))

-- `if not result`: a dict that has a key
unfoldable pub result_or : Option Json → Bytes → Json
unfolding fallback_result
result_or none response = fallback_result response
result_or (some result) response = result

-- `result["risk_level"]`, a text
abbrev text_value : Option Json → Result Bytes
text_value (some (string s)) = ok s
text_value _ = raised key_error

unfoldable pub risk_of : Json → Result Bytes
unfolding get
risk_of (object fields) = text_value (get (codes "risk_level") fields)
risk_of _ = raised key_error

-- `if s["container_id"] and s["event_type"] == "ssh_connected"`
unfoldable pub visited : List Visit → List Bytes
visited [] = []
visited (s ∷ ss) =
    let rest = visited ss in
    if not (eqb s.container_id []) && eqb s.event_type (codes "ssh_connected")
    then s.container_id ∷ rest
    else rest

module _ (m : Machine) where
  open m use {
    World, homes_dir, is_dir, connect, close, get_anomaly_report, get_sessions, get_container_key,
    insert_command_report, call_llm, loads, dumps, unique,
  }

  -- `if not commands: continue`
  unfoldable pub analyze_commands : ℕ → AnomalyReport → Bytes → List Bytes → Exec World (Unit {0})
  unfolding sanitize_commands build_analysis_prompt validate_llm_response result_or risk_of
      save_json_report
  analyze_commands anomaly_id report container_id [] = pure tt
  analyze_commands anomaly_id report container_id (command ∷ commands) = do
    let user_id = report.user_id
    let sanitized = sanitize_commands (command ∷ commands)
    response ← call_llm (build_analysis_prompt sanitized.0 user_id report.summary)
    valid ← lift (validate_llm_response loads response)
    let result = result_or valid response
    risk ← lift (risk_of result)
    insert_command_report anomaly_id user_id container_id (dumps result) risk
    save_json_report m anomaly_id report user_id container_id result sanitized.1
    pure tt

  -- inside the inner `try`
  unfoldable pub analyze_history : ℕ → AnomalyReport → Bytes → Bytes → Exec World (Unit {0})
  unfolding read_shell_history analyze_commands
  analyze_history anomaly_id report container_id mount_point = do
    commands ← read_shell_history m mount_point report.user_id
    analyze_commands anomaly_id report container_id commands

  abbrev pub test_dir : Bytes → Bytes
  unfolding join
  test_dir user_id = join homes_dir (codes "test_" ++ user_id)

  -- the volume, or the directory of the test data
  unfoldable pub analyze_mounted : ℕ → AnomalyReport → Bytes → Option Bytes → Exec World (Unit {0})
  unfolding analyze_history unmount_volume
  analyze_mounted anomaly_id report container_id (some mount_point) w =
      finally (analyze_history anomaly_id report container_id mount_point)
        (unmount_volume m container_id) w
  analyze_mounted anomaly_id report container_id none w =
      if is_dir (test_dir report.user_id) w
      then analyze_history anomaly_id report container_id (test_dir report.user_id) w
      else (pure tt) w

  -- `if not container_key: continue`
  unfoldable pub analyze_with_key : ℕ → AnomalyReport → Bytes → Option Bytes → Exec World (Unit {0})
  unfolding mount_volume analyze_mounted
  analyze_with_key anomaly_id report container_id none = pure tt
  analyze_with_key anomaly_id report container_id (some []) = pure tt
  analyze_with_key anomaly_id report container_id (some (b ∷ key)) = do
    mounted ← mount_volume m container_id (b ∷ key)
    analyze_mounted anomaly_id report container_id mounted

  -- the loop over the containers
  unfoldable pub analyze_containers : ℕ → AnomalyReport → List Bytes → Exec World (Unit {0})
  unfolding analyze_with_key
  analyze_containers anomaly_id report [] = pure tt
  analyze_containers anomaly_id report (container_id ∷ ids) = do
    key ← get_container_key report.user_id container_id
    analyze_with_key anomaly_id report container_id key
    analyze_containers anomaly_id report ids

  -- with the report: the exit code
  unfoldable pub analyze_report : ℕ → AnomalyReport → Exec World ℕ
  unfolding load_json visited analyze_containers
  analyze_report anomaly_id report = do
    load_json m report.details_json
    sessions ← get_sessions report.user_id
    elim (unique (visited sessions)) [
      | [] ↦ pure 1
      | c ∷ cs ↦ (do analyze_containers anomaly_id report (c ∷ cs); pure 0)
    ]

  abbrev closed : {A : Type 0} → Result A × World → Result A × World
  closed (r, w) = (r, close w)

  unfoldable pub analyze_anomaly : ℕ → Exec World ℕ
  unfolding analyze_report
  analyze_anomaly anomaly_id = do
    connect
    λ w. closed (
        (do
          found ← get_anomaly_report anomaly_id
          elim found [ none ↦ pure 1 | some report ↦ analyze_report anomaly_id report ])
          w)
