-- ===== src/PdfReport/Page/Quiet.antt =====
-- The parts of the report that write no line of the history.
use somethingremotelygood.Base.{not-ltb→le}
use somethingremotelygood.Base.{
  ℕ, zero, suc, ◌+◌, ◌-◌, ◌≤◌, Bool, true, false, Option, none, some, List, [], ◌∷◌, ◌++◌,
  append_assoc, append-nil, Bytes, codes, length, take, length-append, length-take, All, All-append,
  ltb, ◌==◌, Result, Error, ok, raised, stuck, got, failed, ran_out, Result-cases, Bool-cases, inl,
  inr, Exec, ◌≡◌, refl, sym, ap, ◌∙◌, arith, if◌then◌else◌,
}
use somethingremotelygood.Base.Effects.Same.{Same, Same-pure, Same-lift, Same-bind, Same-if}
use somethingremotelygood.Json.{Json, Items, nil, cons}
use somethingremotelygood.PdfReport.Values.{Python}
use somethingremotelygood.PdfReport.Canvas.{Refusal, draw, section_title, label_value, risk_badge}
use somethingremotelygood.PdfReport.Rows.{detail_line, finding_row}
use somethingremotelygood.PdfReport.Details.{
  draw_details, details_part, draw_findings, findings_part,
}
use somethingremotelygood.PdfReport.History.{line_color, more_commands}
use somethingremotelygood.PdfReport.Page.{
  label_of, metadata_part, user_part, anomaly_part, analysis_part,
}
use somethingremotelygood.PdfReport.Page.LineTexts.{line_texts, Same-draw}

module _ (refuses : Refusal) where
  pub ruleset quiet = (Same-pure, Same-lift, Same-bind, Same-if, Same-draw, refl)

  pub Same-section_title : (title : Bytes) → Same line_texts (section_title refuses title)
  unfolding section_title
  Same-section_title title = search quiet depth 14

  pub Same-label_value :
      (python : Python) (label : Bytes) (v : Json)
      → Same line_texts (label_value refuses python label v)
  unfolding label_value
  Same-label_value python label v = search quiet depth 14

  pub Same-risk_badge : (python : Python) (v : Json) → Same line_texts (risk_badge refuses python v)
  unfolding risk_badge
  Same-risk_badge python v = search quiet depth 16

  module _ (python : Python) where
    pub Same-draw_details : (items : Items) → Same line_texts (draw_details refuses python items)
    unfolding draw_details
    Same-draw_details nil = Same-pure tt
    Same-draw_details (cons d items) =
        Same-bind _ _ (Same-lift (detail_line python d))
          λ text. Same-bind _ _ (Same-draw refuses _ refl) λ _. Same-draw_details items

    pub Same-details_part : (v : Json) → Same line_texts (details_part refuses python v)
    unfolding details_part
    Same-details_part v = search (quiet, Same-draw_details) depth 16

    pub Same-draw_findings : (items : Items) → Same line_texts (draw_findings refuses python items)
    unfolding draw_findings
    Same-draw_findings nil = Same-pure tt
    Same-draw_findings (cons d items) = Same-bind _ _ (Same-lift (finding_row python d)) λ row.
        Same-bind _ _ (Same-draw refuses _ refl) λ _. Same-bind _ _ (Same-draw refuses _ refl) λ _.
          Same-bind _ _ (Same-draw refuses _ refl)
            λ _. Same-bind _ _ (Same-draw refuses _ refl) λ _. Same-draw_findings items

    pub Same-findings_part : (v : Json) → Same line_texts (findings_part refuses python v)
    unfolding findings_part
    Same-findings_part v = search (quiet, Same-draw_findings) depth 20

    pub Same-label_of :
        (label key : Bytes) (d : Json) → Same line_texts (label_of refuses python label key d)
    unfolding label_of
    Same-label_of label key d = search (quiet, Same-label_value) depth 14

    pub ruleset parts = (
      quiet, Same-section_title, Same-label_value, Same-risk_badge, Same-label_of,
      Same-details_part, Same-findings_part,
    )

    pub Same-metadata_part : (d : Json) → Same line_texts (metadata_part refuses python d)
    unfolding metadata_part
    Same-metadata_part d = search parts depth 16

    pub Same-user_part : (d : Json) → Same line_texts (user_part refuses python d)
    unfolding user_part
    Same-user_part d = search parts depth 16

    pub Same-anomaly_part : (d : Json) → Same line_texts (anomaly_part refuses python d)
    unfolding anomaly_part
    Same-anomaly_part d = search parts depth 18

    pub Same-analysis_part :
        (report d : Json) → Same line_texts (analysis_part refuses python report d)
    unfolding analysis_part
    Same-analysis_part report d = search parts depth 20

    pub Same-line_color : (b : Bool) → Same line_texts (draw refuses (line_color b))
    Same-line_color true = Same-draw refuses _ refl
    Same-line_color false = Same-draw refuses _ refl

    pub Same-more_commands : (n : ℕ) → Same line_texts (more_commands refuses python n)
    unfolding more_commands
    Same-more_commands n = search quiet depth 16
