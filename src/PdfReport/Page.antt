-- ===== src/PdfReport/Page.antt =====
-- The whole report (`generate_pdf`, `main`).
pub mod LineTexts
pub mod Quiet
pub mod Lines
pub mod Contents
pub mod Shown
pub mod Parts
pub mod Sections
pub mod Rendered
use somethingremotelygood.Base.{
  ℕ, Bool, true, false, Option, none, some, List, [], ◌∷◌, ◌++◌, Bytes, codes, Result, ok, Exec,
  ◌==◌, if◌then◌else◌,
}
use somethingremotelygood.Base.Effects.{pure, lift, ◌>>=◌, ◌>>◌}
use somethingremotelygood.Json.{Json, number, string, array, object, nil, end}
use somethingremotelygood.PdfReport.Values.{Python, get_or}
use somethingremotelygood.PdfReport.Canvas.{
  Draw, alias_nb_pages, add_page, set_auto_page_break, set_text_color, ln, output, Refusal, draw,
  section_title, label_value, risk_badge,
}
use somethingremotelygood.PdfReport.Details.{details_part, findings_part}
use somethingremotelygood.PdfReport.History.{history_part}

-- `json_path.rsplit(".", 1)[0]`: the text before its last point, if it has one
abbrev pub keep_first : ℕ → Option Bytes → Option Bytes
keep_first c none = if c == b'.' then some [] else none
keep_first c (some s) = some (c ∷ s)

unfoldable pub before_point : Bytes → Option Bytes
before_point [] = none
before_point (c ∷ s) = keep_first c (before_point s)

abbrev pub or_all : Bytes → Option Bytes → Bytes
or_all path none = path
or_all path (some s) = s

-- `if not output_path`
unfoldable pub pdf_path : Bytes → Option Bytes → Bytes
unfolding before_point
pdf_path json_path none = or_all json_path (before_point json_path) ++ codes ".pdf"
pdf_path json_path (some []) = or_all json_path (before_point json_path) ++ codes ".pdf"
pdf_path json_path (some (c ∷ s)) = c ∷ s

abbrev pub not_given : Json
not_given = string (codes "N/A")

module _ (refuses : Refusal) (python : Python) where
  -- `pdf.label_value(label, d.get(key, "N/A"))`
  unfoldable pub label_of : Bytes → Bytes → Json → Exec (List Draw) (Unit {0})
  unfolding get_or label_value
  label_of label key d = do
    value ← lift (get_or key not_given d)
    label_value refuses python label value

  unfoldable pub metadata_part : Json → Exec (List Draw) (Unit {0})
  unfolding section_title label_of draw
  metadata_part meta = do
    section_title refuses (codes "Report Metadata")
    label_of (codes "Generated") (codes "generated_at") meta
    label_of (codes "Anomaly ID") (codes "anomaly_report_id") meta
    label_of (codes "LLM Model") (codes "model") meta
    draw refuses (ln 30)

  unfoldable pub user_part : Json → Exec (List Draw) (Unit {0})
  unfolding section_title label_of draw
  user_part user = do
    section_title refuses (codes "User Information")
    label_of (codes "User ID") (codes "user_id") user
    label_of (codes "Container ID") (codes "container_id") user
    draw refuses (ln 30)

  unfoldable pub anomaly_part : Json → Exec (List Draw) (Unit {0})
  unfolding section_title label_of get_or details_part draw
  anomaly_part anomaly = do
    section_title refuses (codes "Anomaly Detection (AI 1)")
    label_of (codes "Type") (codes "type") anomaly
    label_of (codes "Severity") (codes "severity") anomaly
    label_of (codes "Summary") (codes "summary") anomaly
    details ← lift (get_or (codes "details") (array nil) anomaly)
    details_part refuses python details
    draw refuses (ln 30)

  unfoldable pub analysis_part : Json → Json → Exec (List Draw) (Unit {0})
  unfolding section_title label_of label_value get_or risk_badge findings_part draw
  analysis_part report analysis = do
    section_title refuses (codes "Command Analysis (AI 2)")
    risk ← lift (get_or (codes "risk_level") (string (codes "unknown")) analysis)
    risk_badge refuses python risk
    label_of (codes "Summary") (codes "summary") analysis
    label_of (codes "Recommendation") (codes "recommendation") analysis
    analyzed ← lift (get_or (codes "commands_analyzed") (number (codes "0")) report)
    label_value refuses python (codes "Commands Analyzed") analyzed
    findings ← lift (get_or (codes "findings") (array nil) analysis)
    findings_part refuses python findings
    draw refuses (ln 30)

  -- with what `json.load` gave
  unfoldable pub draw_report : Json → Bytes → Exec (List Draw) (Unit {0})
  unfolding get_or draw metadata_part user_part anomaly_part analysis_part history_part
  draw_report report output_path = do
    meta ← lift (get_or (codes "report_metadata") (object end) report)
    user ← lift (get_or (codes "user") (object end) report)
    anomaly ← lift (get_or (codes "anomaly") (object end) report)
    analysis ← lift (get_or (codes "command_analysis") (object end) report)
    commands ← lift (get_or (codes "command_history") (array nil) report)
    draw refuses alias_nb_pages
    draw refuses (set_auto_page_break 200)
    draw refuses add_page
    metadata_part meta
    user_part user
    anomaly_part anomaly
    analysis_part report analysis
    history_part refuses python commands
    draw refuses (set_text_color 33 33 33)
    draw refuses (output output_path)

  -- `load` is `open` and `json.load`
  module _ (load : Bytes → Result Json) where
    unfoldable pub generate_pdf : Bytes → Option Bytes → Exec (List Draw) Bytes
    unfolding draw_report pdf_path
    generate_pdf json_path output_path = do
      report ← lift (load json_path)
      draw_report report (pdf_path json_path output_path)
      pure (pdf_path json_path output_path)

    -- `main` after the arguments: the exit code
    unfoldable pub run_report : (Bytes → Bool) → Bytes → Option Bytes → Exec (List Draw) ℕ
    unfolding generate_pdf
    run_report exists json_file output_path =
        if exists json_file then (do generate_pdf json_file output_path; pure 0) else pure 1
