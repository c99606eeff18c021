-- ===== src/PdfReport/Page/Rendered.antt =====
-- The reports that `save_json_report` writes, as PDFs.
use somethingremotelygood.Base.{
  ℕ, Bool, true, false, ◌&&◌, length, ◌++◌, Option, none, some, List, [], ◌∷◌, Bytes, codes, Result,
  ok, raised, attribute_error, Exec, ◌≡◌, refl, if◌then◌else◌,
}
use somethingremotelygood.Base.Effects.{pure, ◌>>◌}
use somethingremotelygood.Sanitizer.Lines.{decimal}
use somethingremotelygood.Json.{Json, number, string, array, object, Items, Fields, end, get}
use somethingremotelygood.Sanitizer.Response.Schema.{IsReport}
use somethingremotelygood.CommandAnalysis.Machine.{AnomalyReport}
use somethingremotelygood.CommandAnalysis.Report.{report_json, strings}
use somethingremotelygood.PdfReport.Values.{Python}
use somethingremotelygood.PdfReport.Canvas.{
  Draw, alias_nb_pages, add_page, set_auto_page_break, set_text_color, output, Refusal, draw,
}
use somethingremotelygood.PdfReport.History.{history_part}
use somethingremotelygood.PdfReport.Page.{
  pdf_path, metadata_part, user_part, anomaly_part, analysis_part, draw_report, generate_pdf,
}
use somethingremotelygood.PdfReport.Page.Contents.{
  Mark, saved, texts, all_objects, metadata_texts, user_texts, anomaly_texts, analysis_texts,
  commands_texts, report_texts,
}
use somethingremotelygood.PdfReport.Page.Shown.{
  shown, Shows, Shows-as, Shows-then, Shows-if, Shows-draw,
}
use somethingremotelygood.PdfReport.Page.Parts.{verdict, Shows-history_part}
use somethingremotelygood.PdfReport.Page.Sections.{
  Shows-metadata_part, Shows-user_part, Shows-anomaly_part, Shows-analysis_part,
}

-- The path is returned and the pages have the texts; or AttributeError is raised.
abbrev pub IsRendered : Bool → Bytes → List Mark → Result Bytes → List Mark → Type 0
IsRendered true path expected result marks = (result ≡ ok path) × (marks ≡ expected)
IsRendered false path expected result marks = result ≡ raised attribute_error

rendered :
    (a b : Bool) (path : Bytes) (ts : List Mark) (m : Exec (List Draw) (Unit {0}))
    → Shows ts (if a then if b then ok tt else raised attribute_error else raised attribute_error) m
    → (calls : List Draw)
    → let (result, drawn) = (do m; pure path) calls in
      IsRendered (a && b) path (shown calls ++ ts) result (shown drawn)
rendered true true path ts m h calls = let (e, k) = h.at calls in rw e (refl, k)
rendered true false path ts m h calls = let (e, k) = h.at calls in rw e refl
rendered false b path ts m h calls = let (e, k) = h.at calls in rw e refl

abbrev fields_of : Json → Fields
fields_of (object fields) = fields
fields_of _ = end

abbrev part : Bytes → Json → Fields
part key report = elim (get key (fields_of report)) [ none ↦ end | some v ↦ fields_of v ]

module _ {refuses : Refusal}
    (accepts : (calls : List Draw) (call : Draw) → refuses calls call ≡ none)
    (python : Python) where
  -- what follows the reading of the parts
  abbrev drawn_parts :
      Json → Fields → Fields → Fields → Fields → Json → Bytes → Exec (List Draw) (Unit {0})
  drawn_parts report meta user anomaly analysis commands path = do
    draw refuses alias_nb_pages
    draw refuses (set_auto_page_break 200)
    draw refuses add_page
    metadata_part refuses python (object meta)
    user_part refuses python (object user)
    anomaly_part refuses python (object anomaly)
    analysis_part refuses python report (object analysis)
    history_part refuses python commands
    draw refuses (set_text_color 33 33 33)
    draw refuses (output path)

  Shows-drawn_parts :
      (report meta user anomaly analysis : Fields)
      (generated id model user_id container kind severity summary : Json) (details : Items)
      (risk : Bytes) (overview recommendation analyzed : Json) (findings : Items)
      (cmds : List Bytes) (path : Bytes)
      → Shows
          (texts (metadata_texts python generated id model))
          (ok tt)
          (metadata_part refuses python (object meta))
      → Shows
          (texts (user_texts python user_id container))
          (ok tt)
          (user_part refuses python (object user))
      → Shows
          (texts (anomaly_texts python kind severity summary details))
          (verdict details)
          (anomaly_part refuses python (object anomaly))
      → Shows
          (texts (analysis_texts python risk overview recommendation analyzed findings))
          (verdict findings)
          (analysis_part refuses python (object report) (object analysis))
      → Shows
          (texts (metadata_texts python generated id model)
            ++ (texts (user_texts python user_id container)
                ++ (texts (anomaly_texts python kind severity summary details)
                    ++ (texts (analysis_texts python risk overview recommendation analyzed findings)
                        ++ (texts (commands_texts cmds) ++ (saved path ∷ []))))))
          (if all_objects details then verdict findings else raised attribute_error)
          (drawn_parts (object report) meta user anomaly analysis (array (strings cmds)) path)
  Shows-drawn_parts report meta user anomaly analysis generated id model user_id container kind
        severity summary details risk overview recommendation analyzed findings cmds path a b c d =
      Shows-as
        (Shows-then _ _ _ (Shows-draw accepts alias_nb_pages) (
          Shows-then _ _ _ (Shows-draw accepts (set_auto_page_break 200)) (
            Shows-then _ _ _ (Shows-draw accepts add_page) (
              Shows-then _ _ _ a (
                Shows-then _ _ _ b (
                  Shows-if _ _ _ _ _ c (
                    Shows-if _ _ _ _ _ d (
                      Shows-then _ _ _ (Shows-history_part accepts python cmds) (
                        Shows-then _ _ _ (Shows-draw accepts (set_text_color 33 33 33))
                          (Shows-draw accepts (output path)))))))))))
        refl

  Shows-draw_report :
      (t model : Bytes) (id : ℕ) (r : AnomalyReport) (u c : Bytes) (details : Items)
      (analysis : Json) (cmds : List Bytes) (path : Bytes) (h : IsReport analysis)
      → Shows
          (report_texts python t model id r u c details h cmds path)
          (if all_objects details then verdict h.items else raised attribute_error)
          (draw_report refuses python
            (report_json t model id r u c (array details) analysis cmds)
            path)
  unfolding draw_report report_json
  Shows-draw_report t model id r u c details analysis cmds path h =
      let report = report_json t model id r u c (array details) (object h.fields) cmds in
      rw h.is_object (
        Shows-drawn_parts (fields_of report) (part (codes "report_metadata") report)
          (part (codes "user") report) (part (codes "anomaly") report) h.fields (string t)
          (number (decimal id)) (string model) (string u) (string c) (string r.anomaly_type)
          (string r.severity) (string r.summary) details h.risk h.summary h.recommendation
          (number (decimal (length cmds))) h.items cmds path
          (Shows-metadata_part accepts python (part (codes "report_metadata") report) _ _ _ refl
            refl refl)
          (Shows-user_part accepts python (part (codes "user") report) _ _ refl refl)
          (Shows-anomaly_part accepts python (part (codes "anomaly") report) _ _ _ details refl refl
            refl refl)
          (Shows-analysis_part accepts python (fields_of report) h.fields h.risk _ _ _ h.items
            h.has_risk h.has_summary h.has_recommendation refl h.has_findings))

  -- When FPDF accepts each call, a report that `save_json_report` wrote, with a validated analysis
  -- and a list of details, becomes a PDF if each detail and each finding is an object: the texts of
  -- its cells are those of the report's parts in order, with the first 200 commands, the output to
  -- the path follows them, and the path is returned. AttributeError leaves the script otherwise.
  pub generate_pdf-report_json :
      (load : Bytes → Result Json) (json_path : Bytes) (output_path : Option Bytes)
      (t model : Bytes) (id : ℕ) (r : AnomalyReport) (u c : Bytes) (details : Items)
      (analysis : Json) (cmds : List Bytes) (h : IsReport analysis) (calls : List Draw)
      → load json_path ≡ ok (report_json t model id r u c (array details) analysis cmds)
      → let (result, drawn) = generate_pdf refuses python load json_path output_path calls in
        let path = pdf_path json_path output_path in
        IsRendered
          (all_objects details && all_objects h.items)
          path
          (shown calls ++ report_texts python t model id r u c details h cmds path)
          result
          (shown drawn)
  unfolding generate_pdf
  generate_pdf-report_json load json_path output_path t model id r u c details analysis cmds h calls
        e =
      let path = pdf_path json_path output_path in
      rw e (
        rendered (all_objects details) (all_objects h.items) path _ _
          (Shows-draw_report t model id r u c details analysis cmds path h) calls)
