-- ===== src/PdfReport/Page/Parts.antt =====
-- What the parts of a report write, and whether they can be drawn.
use somethingremotelygood.Base.{zero, suc, ◌+◌, take, ltb}
use somethingremotelygood.Base.{
  ℕ, Bool, true, false, none, some, List, [], ◌∷◌, ◌++◌, Bytes, codes, length, Result, ok, raised,
  attribute_error, Exec, ◌≡◌, refl, sym, ap, Bool-cases, inl, inr, if◌then◌else◌,
}
use somethingremotelygood.Base.Effects.{◌>>◌}
use somethingremotelygood.Json.{
  Json, null, boolean, number, string, array, object, Items, nil, cons, Fields, get,
}
use somethingremotelygood.CommandAnalysis.Report.{strings}
use somethingremotelygood.PdfReport.Values.{Python, str, get_or, take_items, count_items, size_of}
use somethingremotelygood.PdfReport.Canvas.{
  Draw, Refusal, draw, section_title, label_value, risk_badge,
}
use somethingremotelygood.PdfReport.Details.{
  draw_details, details_part, draw_findings, findings_part,
}
use somethingremotelygood.PdfReport.History.{
  draw_history, more_commands, history_part, line_color, is_highlighted,
}
use somethingremotelygood.PdfReport.Page.{label_of}
use somethingremotelygood.PdfReport.Page.Contents.{
  Mark, written, texts, texts-append, all_objects, detail_texts, details_texts, finding_texts,
  findings_texts, history_texts, more_texts,
}
use somethingremotelygood.PdfReport.Page.Shown.{
  shown_by, Shows, Shows-as, Shows-pure, Shows-raised, Shows-then, Shows-known, Shows-draw,
}

pub get_or-known :
    (key : Bytes) (d v : Json) (fields : Fields)
    → get key fields ≡ some v
    → get_or key d (object fields) ≡ ok v
unfolding get_or
get_or-known key d v fields e = rw e refl

take_items-strings :
    (n : ℕ) (cmds : List Bytes) → take_items n (strings cmds) ≡ strings (take n cmds)
take_items-strings zero cmds = refl
take_items-strings (suc n) [] = refl
take_items-strings (suc n) (cmd ∷ cmds) = ap (cons (string cmd)) (take_items-strings n cmds)

count-strings : (cmds : List Bytes) → count_items (strings cmds) ≡ length cmds
count-strings [] = refl
count-strings (cmd ∷ cmds) = ap suc (count-strings cmds)

abbrev pub verdict : Items → Result (Unit {0})
verdict items = if all_objects items then ok tt else raised attribute_error

module _ {refuses : Refusal}
    (accepts : (calls : List Draw) (call : Draw) → refuses calls call ≡ none)
    (python : Python) where
  pub Shows-next :
      {us : List Mark} (call : Draw) (q : Result (Unit {0})) (k : Exec (List Draw) (Unit {0}))
      → Shows us q k
      → Shows (shown_by call ++ us) q (draw refuses call >> k)
  Shows-next call q k h = Shows-then q (draw refuses call) (λ _. k) (Shows-draw accepts call) h

  pub Shows-section_title :
      (title : Bytes)
      → Shows (texts ((codes "  " ++ title) ∷ [])) (ok tt) (section_title refuses title)
  unfolding section_title
  Shows-section_title title =
      Shows-as
        (Shows-next _ _ _
          (Shows-next _ _ _ (Shows-next _ _ _ (Shows-next _ _ _ (Shows-draw accepts _)))))
        refl

  pub Shows-label_value :
      (label : Bytes) (v : Json)
      → Shows
          (texts ((label ++ codes ":") ∷ str python v ∷ []))
          (ok tt)
          (label_value refuses python label v)
  unfolding label_value
  Shows-label_value label v =
      Shows-as
        (Shows-next _ _ _ (
          Shows-next _ _ _
            (Shows-next _ _ _ (Shows-next _ _ _ (Shows-next _ _ _ (Shows-draw accepts _))))))
        refl

  pub Shows-risk_badge :
      (risk : Bytes)
      → Shows
          (texts ((codes "  " ++ (python.upper risk ++ codes "  ")) ∷ []))
          (ok tt)
          (risk_badge refuses python (string risk))
  unfolding risk_badge
  Shows-risk_badge risk =
      Shows-as
        (Shows-next _ _ _ (
          Shows-next _ _ _
            (Shows-next _ _ _ (Shows-next _ _ _ (Shows-next _ _ _ (Shows-draw accepts _))))))
        refl

  pub Shows-draw_details :
      (items : Items)
      → Shows
          (texts (detail_texts python items))
          (verdict items)
          (draw_details refuses python items)
  unfolding draw_details
  Shows-draw_details nil = Shows-pure tt
  Shows-draw_details (cons (object fields) items) = Shows-next _ _ _ (Shows-draw_details items)
  Shows-draw_details (cons null items) = Shows-raised _ _ _ refl
  Shows-draw_details (cons (boolean b) items) = Shows-raised _ _ _ refl
  Shows-draw_details (cons (number n) items) = Shows-raised _ _ _ refl
  Shows-draw_details (cons (string t) items) = Shows-raised _ _ _ refl
  Shows-draw_details (cons (array xs) items) = Shows-raised _ _ _ refl

  pub Shows-draw_findings :
      (items : Items)
      → Shows
          (texts (finding_texts python items))
          (verdict items)
          (draw_findings refuses python items)
  unfolding draw_findings
  Shows-draw_findings nil = Shows-pure tt
  Shows-draw_findings (cons (object fields) items) =
      Shows-as
        (Shows-next _ _ _
          (Shows-next _ _ _ (Shows-next _ _ _ (Shows-next _ _ _ (Shows-draw_findings items)))))
        refl
  Shows-draw_findings (cons null items) = Shows-raised _ _ _ refl
  Shows-draw_findings (cons (boolean b) items) = Shows-raised _ _ _ refl
  Shows-draw_findings (cons (number n) items) = Shows-raised _ _ _ refl
  Shows-draw_findings (cons (string t) items) = Shows-raised _ _ _ refl
  Shows-draw_findings (cons (array xs) items) = Shows-raised _ _ _ refl

  pub Shows-details_part :
      (items : Items)
      → Shows
          (texts (details_texts python items))
          (verdict items)
          (details_part refuses python (array items))
  unfolding details_part
  Shows-details_part nil = Shows-pure tt
  Shows-details_part (cons v items) =
      Shows-as
        (Shows-next _ _ _ (
          Shows-next _ _ _
            (Shows-next _ _ _ (Shows-next _ _ _ (Shows-draw_details (cons v items))))))
        refl

  pub Shows-findings_part :
      (items : Items)
      → Shows
          (texts (findings_texts python items))
          (verdict items)
          (findings_part refuses python (array items))
  unfolding findings_part
  Shows-findings_part nil = Shows-pure tt
  Shows-findings_part (cons v items) =
      Shows-as
        (Shows-next _ _ _ (
          Shows-next _ _ _ (
            Shows-next _ _ _ (
              Shows-next _ _ _ (
                Shows-next _ _ _ (
                  Shows-next _ _ _ (
                    Shows-next _ _ _ (
                      Shows-next _ _ _ (
                        Shows-next _ _ _
                          (Shows-next _ _ _ (Shows-draw_findings (cons v items))))))))))))
        refl

  pub Shows-label_of :
      (label key : Bytes) (fields : Fields) (v : Json)
      → get key fields ≡ some v
      → Shows
          (texts ((label ++ codes ":") ∷ str python v ∷ []))
          (ok tt)
          (label_of refuses python label key (object fields))
  unfolding label_of
  Shows-label_of label key fields v e =
      Shows-known _ v _ (λ w. label_value refuses python label w) (get_or-known key _ v fields e)
        (Shows-label_value label v)

  Shows-line_color : (b : Bool) → Shows [] (ok tt) (draw refuses (line_color b))
  Shows-line_color true = Shows-draw accepts _
  Shows-line_color false = Shows-draw accepts _

  -- a history of texts
  pub Shows-draw_history :
      (i : ℕ) (cmds : List Bytes)
      → Shows (texts (history_texts i cmds)) (ok tt) (draw_history refuses python i (strings cmds))
  unfolding draw_history
  Shows-draw_history i [] = Shows-pure tt
  Shows-draw_history i (cmd ∷ cmds) =
      Shows-as
        (Shows-then _ _ _ (Shows-line_color (is_highlighted python cmd))
          (Shows-next _ _ _ (Shows-draw_history (i + 1) cmds)))
        refl

  pub Shows-more_commands :
      (n : ℕ) → Shows (texts (more_texts n)) (ok tt) (more_commands refuses python n)
  unfolding more_commands
  Shows-more_commands n = elim (Bool-cases (ltb 200 n)) [
    | inl e ↦ rw e (Shows-as (Shows-next _ _ _ (Shows-draw accepts _)) refl)
    | inr e ↦ rw e (Shows-pure tt)
  ]

  Shows-shown_history :
      (cmds : List Bytes)
      → Shows
          (texts (history_texts 1 (take 200 cmds)))
          (ok tt)
          (draw_history refuses python 1 (take_items 200 (strings cmds)))
  Shows-shown_history cmds = rw (take_items-strings 200 cmds) (Shows-draw_history 1 (take 200 cmds))

  Shows-other_commands :
      (cmds : List Bytes)
      → Shows
          (texts (more_texts (length cmds)))
          (ok tt)
          (more_commands refuses python (size_of (array (strings cmds))))
  Shows-other_commands cmds = rw (count-strings cmds) (Shows-more_commands (length cmds))

  pub Shows-history_part :
      (cmds : List Bytes)
      → Shows
          (texts (
            codes "  Command History (sanitized)"
            ∷ (history_texts 1 (take 200 cmds) ++ more_texts (length cmds))))
          (ok tt)
          (history_part refuses python (array (strings cmds)))
  unfolding history_part
  Shows-history_part cmds =
      Shows-as
        (Shows-then _ _ _ (Shows-section_title (codes "Command History (sanitized)")) (
          Shows-next _ _ _ (
            Shows-then _ (draw_history refuses python 1 (take_items 200 (strings cmds)))
              (λ _. more_commands refuses python (size_of (array (strings cmds))))
              (Shows-shown_history cmds) (Shows-other_commands cmds))))
        (ap (λ (ms : List Mark). written (codes "  Command History (sanitized)") ∷ ms)
          (sym (texts-append (history_texts 1 (take 200 cmds)) (more_texts (length cmds)))))
