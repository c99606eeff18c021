-- ===== src/Examples/PdfReport.antt =====
-- A report of two findings as a PDF, with texts of ASCII.
use somethingremotelygood.Base.{
  ◌≤◌, true, false, ◌&&◌, none, some, [], ◌∷◌, codes, map, length, All, eqb, ltb, ok, raised,
  attribute_error, inl, ◌-◌, ◌≡◌, refl, if◌then◌else◌,
}
use somethingremotelygood.Json.{
  Json, number, string, array, object, Items, nil, cons, end, field, get,
}
use somethingremotelygood.Sanitizer.Response.Schema.{IsReport}
use somethingremotelygood.CommandAnalysis.Machine.{AnomalyReport}
use somethingremotelygood.CommandAnalysis.Report.{report_json}
use somethingremotelygood.PdfReport.Values.{Python}
use somethingremotelygood.PdfReport.Canvas.{
  set_y_from_end, set_font, set_text_color, centered_cell, Refusal, footer,
}
use somethingremotelygood.PdfReport.History.{is_highlighted, history_line}
use somethingremotelygood.PdfReport.History.Highlights.{lower_code}
use somethingremotelygood.PdfReport.Page.{pdf_path, generate_pdf, run_report}
use somethingremotelygood.PdfReport.Page.LineTexts.{Fits, line_texts}
use somethingremotelygood.PdfReport.Page.Lines.{generate_pdf-Fits}
use somethingremotelygood.PdfReport.Page.Contents.{report_texts}
use somethingremotelygood.PdfReport.Page.Shown.{shown}
use somethingremotelygood.PdfReport.Page.Rendered.{generate_pdf-report_json}

abbrev python : Python
python = record {
  str_other = λ v. codes "?";
  is_zero = λ s. eqb s (codes "0");
  upper = λ s. map (λ c. if ltb 96 c && ltb c 123 then c - 32 else c) s;
  lower = map lower_code;
}

abbrev finding : Json
finding = object (
    field (codes "line") (number (codes "3"))
      (field (codes "category") (string (codes "exfiltration")) end))

abbrev analysis_with : Items → Json
analysis_with findings = object (
    field (codes "risk_level") (string (codes "benign")) (
      field (codes "summary") (string (codes "nothing")) (
        field (codes "findings") (array findings)
          (field (codes "recommendation") (string (codes "none")) end))))

unfoldable validated : (findings : Items) → IsReport (analysis_with findings)
unfolding get
validated findings = record {
  fields = _;
  risk = codes "benign";
  items = findings;
  summary = _;
  recommendation = _;
  is_object = refl;
  has_risk = refl;
  known_risk = inl refl;
  has_findings = refl;
  has_summary = refl;
  has_recommendation = refl;
}

abbrev anomaly : AnomalyReport
anomaly = record {
  user_id = codes "user";
  anomaly_type = codes "unusual_time";
  severity = codes "low";
  summary = [];
  details_json = codes "[]";
}

abbrev written_with : Items → Json
written_with findings =
    report_json (codes "now") (codes "model") 1 anomaly (codes "user") (codes "box") (array nil)
      (analysis_with findings) (codes "ls" ∷ [])

abbrev never : Refusal
never calls call = none

paths :
    (pdf_path (codes "a.b.json") none ≡ codes "a.b.pdf")
    × (pdf_path (codes "report") (some []) ≡ codes "report.pdf")
    × (pdf_path (codes "a.json") (some (codes "b")) ≡ codes "b")
unfolding pdf_path
paths = (refl, refl, refl)

lines :
    (history_line 7 (codes "ls") ≡ codes "   7| ls")
    × (is_highlighted python (codes "cat /etc/shadow") ≡ true)
    × (is_highlighted python (codes "ls") ≡ false)
unfolding history_line is_highlighted
lines = (refl, refl, refl)

first_footer :
    (footer never 1 []).1
    ≡ set_y_from_end 150
      ∷ set_font (codes "Helvetica") (codes "I") 8
      ∷ set_text_color 128 128 128
      ∷ centered_cell 0 100 (codes "Page 1/{nb}") false
      ∷ []
unfolding footer
first_footer = refl

not_a_file :
    (run_report never python
      (λ path. ok (written_with nil))
      (λ path. false)
      (codes "a.json")
      none
      []).0
    ≡ ok 1
unfolding run_report
not_a_file = refl

generate_pdf-Fits_example :
    (length (
        line_texts
          (generate_pdf never python (λ path. ok (written_with nil)) (codes "a.json") none []).1)
      ≤ 200)
    × All Fits (
        line_texts
          (generate_pdf never python (λ path. ok (written_with nil)) (codes "a.json") none []).1)
generate_pdf-Fits_example =
    generate_pdf-Fits never python (λ path. ok (written_with nil)) (codes "a.json") none

-- the second finding is a text
refused :
    (generate_pdf never python
      (λ path. ok (written_with (cons finding (cons (string []) nil))))
      (codes "a.json")
      none
      []).0
    ≡ raised attribute_error
unfolding generate_pdf report_json
refused = refl

generate_pdf-report_json_example :
    let (result, drawn) =
      generate_pdf never python
        (λ path. ok (written_with (cons finding nil)))
        (codes "a.json")
        none
        [] in
    (result ≡ ok (pdf_path (codes "a.json") none))
    × (shown drawn
        ≡ report_texts python
            (codes "now")
            (codes "model")
            1
            anomaly
            (codes "user")
            (codes "box")
            nil
            (validated (cons finding nil))
            (codes "ls" ∷ [])
            (pdf_path (codes "a.json") none))
unfolding validated
generate_pdf-report_json_example =
    generate_pdf-report_json {refuses = never} (λ calls call. refl) python
      (λ path. ok (written_with (cons finding nil))) (codes "a.json") none (codes "now")
      (codes "model") 1 anomaly (codes "user") (codes "box") nil (analysis_with (cons finding nil))
      (codes "ls" ∷ []) (validated (cons finding nil)) [] refl
