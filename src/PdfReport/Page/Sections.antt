-- ===== src/PdfReport/Page/Sections.antt =====
-- The sections of a report over the objects that the script reads.
use somethingremotelygood.Base.{none, some, List, append-nil, Bytes, codes, ok, Exec, ◌≡◌, refl}
use somethingremotelygood.Base.Effects.{lift, ◌>>=◌, ◌>>◌}
use somethingremotelygood.Json.{Json, number, string, array, object, Items, nil, Fields, get}
use somethingremotelygood.PdfReport.Values.{Python, get_or}
use somethingremotelygood.PdfReport.Canvas.{Draw, ln, Refusal, draw, label_value, risk_badge}
use somethingremotelygood.PdfReport.Details.{details_part, findings_part}
use somethingremotelygood.PdfReport.Page.{
  label_of, metadata_part, user_part, anomaly_part, analysis_part,
}
use somethingremotelygood.PdfReport.Page.Contents.{
  texts, metadata_texts, user_texts, anomaly_texts, analysis_texts, details_texts, findings_texts,
}
use somethingremotelygood.PdfReport.Page.Shown.{
  Shows, Shows-as, Shows-then, Shows-if, Shows-known, Shows-draw,
}
use somethingremotelygood.PdfReport.Page.Parts.{
  verdict, get_or-known, Shows-section_title, Shows-label_value, Shows-risk_badge,
  Shows-details_part, Shows-findings_part, Shows-label_of,
}

module _ {refuses : Refusal}
    (accepts : (calls : List Draw) (call : Draw) → refuses calls call ≡ none)
    (python : Python) where
  pub Shows-metadata_part :
      (fields : Fields) (generated id model : Json)
      → get (codes "generated_at") fields ≡ some generated
      → get (codes "anomaly_report_id") fields ≡ some id
      → get (codes "model") fields ≡ some model
      → Shows
          (texts (metadata_texts python generated id model))
          (ok tt)
          (metadata_part refuses python (object fields))
  unfolding metadata_part
  Shows-metadata_part fields generated id model e f g =
      Shows-as
        (Shows-then _ _ _ (Shows-section_title accepts python (codes "Report Metadata")) (
          Shows-then _ _ _
            (Shows-label_of accepts python (codes "Generated") (codes "generated_at") fields
              generated e)
            (Shows-then _ _ _
              (Shows-label_of accepts python (codes "Anomaly ID") (codes "anomaly_report_id") fields
                id f)
              (Shows-then _ _ _
                (Shows-label_of accepts python (codes "LLM Model") (codes "model") fields model g)
                (Shows-draw accepts (ln 30))))))
        refl

  pub Shows-user_part :
      (fields : Fields) (user container : Json)
      → get (codes "user_id") fields ≡ some user
      → get (codes "container_id") fields ≡ some container
      → Shows
          (texts (user_texts python user container))
          (ok tt)
          (user_part refuses python (object fields))
  unfolding user_part
  Shows-user_part fields user container e f =
      Shows-as
        (Shows-then _ _ _ (Shows-section_title accepts python (codes "User Information")) (
          Shows-then _ _ _
            (Shows-label_of accepts python (codes "User ID") (codes "user_id") fields user e)
            (Shows-then _ _ _
              (Shows-label_of accepts python (codes "Container ID") (codes "container_id") fields
                container f)
              (Shows-draw accepts (ln 30)))))
        refl

  pub Shows-anomaly_part :
      (fields : Fields) (kind severity summary : Json) (details : Items)
      → get (codes "type") fields ≡ some kind
      → get (codes "severity") fields ≡ some severity
      → get (codes "summary") fields ≡ some summary
      → get (codes "details") fields ≡ some (array details)
      → Shows
          (texts (anomaly_texts python kind severity summary details))
          (verdict details)
          (anomaly_part refuses python (object fields))
  unfolding anomaly_part
  Shows-anomaly_part fields kind severity summary details e f g h =
      Shows-as
        (Shows-then _ _ _ (Shows-section_title accepts python (codes "Anomaly Detection (AI 1)")) (
          Shows-then _ _ _
            (Shows-label_of accepts python (codes "Type") (codes "type") fields kind e)
            (Shows-then _ _ _
              (Shows-label_of accepts python (codes "Severity") (codes "severity") fields severity
                f)
              (Shows-then _ _ _
                (Shows-label_of accepts python (codes "Summary") (codes "summary") fields summary g)
                (Shows-known (get_or (codes "details") (array nil) (object fields)) (array details)
                  _ (λ v. details_part refuses python v >> draw refuses (ln 30))
                  (get_or-known (codes "details") (array nil) (array details) fields h)
                  (Shows-if _ _ _ _ _ (Shows-details_part accepts python details)
                    (Shows-draw accepts (ln 30))))))))
        (rw (append-nil (texts (details_texts python details))) refl)

  -- what follows the risk badge, and what follows the number of commands
  abbrev findings_rest : Fields → Exec (List Draw) (Unit {0})
  findings_rest fields = do
    findings ← lift (get_or (codes "findings") (array nil) (object fields))
    findings_part refuses python findings
    draw refuses (ln 30)

  abbrev analyzed_rest : Fields → Json → Exec (List Draw) (Unit {0})
  analyzed_rest fields analyzed = do
    label_value refuses python (codes "Commands Analyzed") analyzed
    findings_rest fields

  abbrev analysis_rest : Fields → Fields → Exec (List Draw) (Unit {0})
  analysis_rest report fields = do
    label_of refuses python (codes "Summary") (codes "summary") (object fields)
    label_of refuses python (codes "Recommendation") (codes "recommendation") (object fields)
    analyzed ← lift (get_or (codes "commands_analyzed") (number (codes "0")) (object report))
    analyzed_rest fields analyzed

  pub Shows-analysis_part :
      (report fields : Fields) (risk : Bytes) (summary recommendation analyzed : Json)
      (findings : Items)
      → get (codes "risk_level") fields ≡ some (string risk)
      → get (codes "summary") fields ≡ some summary
      → get (codes "recommendation") fields ≡ some recommendation
      → get (codes "commands_analyzed") report ≡ some analyzed
      → get (codes "findings") fields ≡ some (array findings)
      → Shows
          (texts (analysis_texts python risk summary recommendation analyzed findings))
          (verdict findings)
          (analysis_part refuses python (object report) (object fields))
  unfolding analysis_part
  Shows-analysis_part report fields risk summary recommendation analyzed findings e f g h k =
      Shows-as
        (Shows-then _ _ _ (Shows-section_title accepts python (codes "Command Analysis (AI 2)")) (
          Shows-known (get_or (codes "risk_level") (string (codes "unknown")) (object fields))
            (string risk) _ (λ v. risk_badge refuses python v >> analysis_rest report fields)
            (get_or-known (codes "risk_level") (string (codes "unknown")) (string risk) fields e)
            (Shows-then _ _ _ (Shows-risk_badge accepts python risk) (
              Shows-then _ _ _
                (Shows-label_of accepts python (codes "Summary") (codes "summary") fields summary f)
                (Shows-then _ _ _
                  (Shows-label_of accepts python (codes "Recommendation") (codes "recommendation")
                    fields recommendation g)
                  (Shows-known
                    (get_or (codes "commands_analyzed") (number (codes "0")) (object report))
                    analyzed _ (analyzed_rest fields)
                    (get_or-known (codes "commands_analyzed") (number (codes "0")) analyzed report
                      h)
                    (Shows-then _ _ (λ _. findings_rest fields)
                      (Shows-label_value accepts python (codes "Commands Analyzed") analyzed)
                      (Shows-known (get_or (codes "findings") (array nil) (object fields))
                        (array findings) _
                        (λ v. findings_part refuses python v >> draw refuses (ln 30))
                        (get_or-known (codes "findings") (array nil) (array findings) fields k)
                        (Shows-if _ _ _ _ _ (Shows-findings_part accepts python findings)
                          (Shows-draw accepts (ln 30)))))))))))
        (rw (append-nil (texts (findings_texts python findings))) refl)
