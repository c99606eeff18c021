-- ===== src/PdfReport/Page/Lines.antt =====
-- The lines of the history that the report has.
use somethingremotelygood.Base.{
  ℕ, zero, suc, ◌+◌, ◌≤◌, Option, List, [], ◌∷◌, Bytes, length, take, length-take, All, Result, ok,
  Exec, ◌≡◌, refl, sym, arith,
}
use somethingremotelygood.Base.Effects.{pure, lift, ◌>>=◌}
use somethingremotelygood.Base.Effects.Same.{Same, Same-pure, Same-lift, Same-bind}
use somethingremotelygood.Json.{
  Json, null, boolean, number, array, object, string, Items, nil, cons,
}
use somethingremotelygood.PdfReport.Values.{
  Python, first_of, size_of, take_items, count_items, chars,
}
use somethingremotelygood.PdfReport.Canvas.{Draw, Refusal}
use somethingremotelygood.PdfReport.History.{
  command_text, history_line, is_highlighted, draw_history, history_part,
}
use somethingremotelygood.PdfReport.Page.{draw_report, generate_pdf, pdf_path}
use somethingremotelygood.PdfReport.Page.LineTexts.{
  line_texts, Fits, history_line-Fits, Writes, Writes-none, Writes-bind, Writes-after, Writes-lift,
  Writes-draw, Same-draw,
}
use somethingremotelygood.PdfReport.Page.Quiet.{
  Same-section_title, Same-metadata_part, Same-user_part, Same-anomaly_part, Same-analysis_part,
  Same-line_color, Same-more_commands,
}

take_items-le : (n : ℕ) (items : Items) → count_items (take_items n items) ≤ n
take_items-le zero items = omega arith
take_items-le (suc n) nil = omega arith
take_items-le (suc n) (cons v items) = omega (arith, take_items-le n items)

count-chars : (s : Bytes) → count_items (chars s) ≡ length s
count-chars [] = refl
count-chars (c ∷ s) = omega (arith, count-chars s)

first_of-le : (n : ℕ) (v : Json) (x : Items) → first_of n v ≡ ok x → count_items x ≤ n
first_of-le n (array items) x e =
    let same : take_items n items ≡ x = cc in rw (sym same) (take_items-le n items)
first_of-le n (string s) x e =
    let same : chars (take n s) ≡ x = cc in
    rw (sym same) (omega (arith, count-chars (take n s), length-take {0} n s))
first_of-le n null x e = cc
first_of-le n (boolean b) x e = cc
first_of-le n (number s) x e = cc
first_of-le n (object fields) x e = cc

module _ (refuses : Refusal) (python : Python) where
  Writes-draw_history :
      (i : ℕ) (items : Items) → Writes (count_items items) (draw_history refuses python i items)
  unfolding draw_history
  Writes-draw_history i nil = Writes-none _ (Same-pure tt)
  Writes-draw_history i (cons cmd items) =
      Writes-after _ (lift (command_text cmd)) _ (Same-lift (command_text cmd)) λ text.
        Writes-after _ _ _ (Same-line_color refuses python (is_highlighted python text)) λ _.
          Writes-bind 1 (count_items items) _ _ _ (omega arith)
            (Writes-draw refuses _ (history_line i text) refl (history_line-Fits i text))
            λ _. Writes-draw_history (i + 1) items

  Writes-history_part : (commands : Json) → Writes 200 (history_part refuses python commands)
  unfolding history_part
  Writes-history_part commands = Writes-after _ _ _ (Same-section_title refuses _) λ _.
      Writes-after _ _ _ (Same-draw refuses _ refl) λ _.
        Writes-lift _ (first_of 200 commands) _ λ shown e.
          Writes-bind (count_items shown) 0 _ _ _ (omega (arith, first_of-le 200 commands shown e))
            (Writes-draw_history 1 shown)
            λ _. Writes-none _ (Same-more_commands refuses python (size_of commands))

  Writes-before :
      {A B : Type 0} (n : ℕ) (m : Exec (List Draw) A) (f : A → Exec (List Draw) B)
      → Writes n m
      → ((x : A) → Same line_texts (f x))
      → Writes n (m >>= f)
  Writes-before n m f hm hf = Writes-bind n 0 n m f (omega arith) hm (λ x. Writes-none (f x) (hf x))

  ruleset report_rules = (
    Writes-before, Writes-after, Writes-history_part, Same-bind, Same-lift, Same-draw, refl,
    Same-metadata_part, Same-user_part, Same-anomaly_part, Same-analysis_part,
  )

  Writes-draw_report :
      (report : Json) (output_path : Bytes)
      → Writes 200 (draw_report refuses python report output_path)
  unfolding draw_report
  Writes-draw_report report output_path = search report_rules depth 24

  -- Whatever the report is and whatever the library refuses, at most 200 commands of the history are
  -- drawn, each in a line of at most 120 characters.
  pub generate_pdf-Fits :
      (load : Bytes → Result Json) (json_path : Bytes) (output_path : Option Bytes)
      → let (result, calls) = generate_pdf refuses python load json_path output_path [] in
        (length (line_texts calls) ≤ 200) × All Fits (line_texts calls)
  unfolding generate_pdf
  generate_pdf-Fits load json_path output_path =
      let w = Writes-lift 200 (load json_path) _ λ report e.
        Writes-bind 200 0 _ _ (λ _. pure {S = List Draw} (pdf_path json_path output_path))
          (omega arith) (Writes-draw_report report (pdf_path json_path output_path))
          λ _. Writes-none _ (Same-pure _) in
      (w.few [], w.fit [] tt)
