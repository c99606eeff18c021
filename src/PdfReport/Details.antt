-- ===== src/PdfReport/Details.antt =====
-- The details of the anomaly and the findings of the analysis (`generate_pdf`).
use somethingremotelygood.Base.{true, false, List, [], codes, Exec, if◌then◌else◌}
use somethingremotelygood.Base.Effects.{pure, lift, ◌>>=◌, ◌>>◌}
use somethingremotelygood.Json.{Json, Items, nil, cons}
use somethingremotelygood.PdfReport.Values.{Python, items_of, truthy}
use somethingremotelygood.PdfReport.Rows.{detail_line, finding_row}
use somethingremotelygood.PdfReport.Canvas.{
  Draw, set_font, set_fill_color, cell, multi_cell, ln, get_y, Refusal, draw,
}

module _ (refuses : Refusal) (python : Python) where
  unfoldable pub draw_details : Items → Exec (List Draw) (Unit {0})
  unfolding draw detail_line
  draw_details nil = pure tt
  draw_details (cons d items) = do
    text ← lift (detail_line python d)
    draw refuses (multi_cell 0 40 text false)
    draw_details items

  -- `if details:`
  unfoldable pub details_part : Json → Exec (List Draw) (Unit {0})
  unfolding draw_details draw
  details_part details =
      if truthy python details
      then (do
        draw refuses (ln 20)
        draw refuses (set_font (codes "Helvetica") (codes "B") 10)
        draw refuses (cell 0 60 (codes "Anomaly Details:") false false true)
        draw refuses (set_font (codes "Courier") [] 8)
        items ← lift (items_of details)
        draw_details items)
      else pure tt

  unfoldable pub draw_findings : Items → Exec (List Draw) (Unit {0})
  unfolding draw finding_row
  draw_findings nil = pure tt
  draw_findings (cons finding items) = do
    row ← lift (finding_row python finding)
    draw refuses get_y
    draw refuses (cell 150 60 row.line true false false)
    draw refuses (cell 450 60 row.category true false false)
    draw refuses (multi_cell 0 60 row.concern true)
    draw_findings items

  -- `if findings:`
  unfoldable pub findings_part : Json → Exec (List Draw) (Unit {0})
  unfolding draw_findings draw
  findings_part findings =
      if truthy python findings
      then (do
        draw refuses (ln 30)
        draw refuses (set_font (codes "Helvetica") (codes "B") 10)
        draw refuses (cell 0 60 (codes "Findings:") false false true)
        draw refuses (ln 10)
        draw refuses (set_font (codes "Helvetica") (codes "B") 9)
        draw refuses (set_fill_color 200 200 200)
        draw refuses (cell 150 60 (codes "Line") true true false)
        draw refuses (cell 450 60 (codes "Category") true true false)
        draw refuses (cell 0 60 (codes "Concern") true true true)
        draw refuses (set_font (codes "Helvetica") [] 8)
        items ← lift (items_of findings)
        draw_findings items)
      else pure tt
