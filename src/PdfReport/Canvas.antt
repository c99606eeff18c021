-- ===== src/PdfReport/Canvas.antt =====
-- The calls that the script makes on its FPDF object. The object is the list of the calls so far;
-- whether the library refuses the next one is a parameter. Lengths are in tenths of a millimetre.
use somethingremotelygood.Base.{
  ℕ, Bool, true, false, Option, none, some, List, [], ◌∷◌, ◌++◌, Bytes, codes, eqb, Result, Error,
  ok, raised, attribute_error, type_error, Exec, if◌then◌else◌,
}
use somethingremotelygood.Base.Effects.{lift, ◌>>=◌, ◌>>◌}
use somethingremotelygood.Sanitizer.Lines.{decimal}
use somethingremotelygood.Json.{Json, string, array, object}
use somethingremotelygood.PdfReport.Values.{Python, str}

pub data Draw : Type 0 where
  alias_nb_pages add_page get_y : Draw
  set_auto_page_break : ℕ → Draw
  set_font : Bytes → Bytes → ℕ → Draw
  set_text_color : ℕ → ℕ → ℕ → Draw
  set_fill_color : ℕ → ℕ → ℕ → Draw
  -- width, height and text, and whether there are a border, a filling and a new line after it
  cell : ℕ → ℕ → Bytes → Bool → Bool → Bool → Draw
  -- the same with a new line, without a filling
  multi_cell : ℕ → ℕ → Bytes → Bool → Draw
  -- a cell with its text in the middle, and whether there is a new line after it
  centered_cell : ℕ → ℕ → Bytes → Bool → Draw
  -- to a place above the lower end of the page
  set_y_from_end : ℕ → Draw
  ln : ℕ → Draw
  output : Bytes → Draw

abbrev pub Refusal : Type 0
Refusal = List Draw → Draw → Option Error

abbrev pub drawn : Draw → Option Error → Exec (List Draw) (Unit {0})
drawn call none calls = (ok tt, calls ++ (call ∷ []))
drawn call (some e) calls = (raised e, calls)

module _ (refuses : Refusal) where
  unfoldable pub draw : Draw → Exec (List Draw) (Unit {0})
  draw call calls = drawn call (refuses calls call) calls

  -- what FPDF calls at the beginning and at the end of each page
  unfoldable pub header : Exec (List Draw) (Unit {0})
  unfolding draw
  header = do
    draw (set_font (codes "Helvetica") (codes "B") 16)
    draw (centered_cell 0 100 (codes "Security Analysis Report") true)
    draw (ln 20)

  unfoldable pub footer : ℕ → Exec (List Draw) (Unit {0})
  unfolding draw decimal
  footer page_no = do
    draw (set_y_from_end 150)
    draw (set_font (codes "Helvetica") (codes "I") 8)
    draw (set_text_color 128 128 128)
    draw (centered_cell 0 100 (codes "Page " ++ (decimal page_no ++ codes "/{nb}")) false)

  unfoldable pub section_title : Bytes → Exec (List Draw) (Unit {0})
  unfolding draw
  section_title title = do
    draw (set_font (codes "Helvetica") (codes "B") 13)
    draw (set_text_color 33 33 33)
    draw (set_fill_color 230 230 230)
    draw (cell 0 80 (codes "  " ++ title) false true true)
    draw (ln 20)

  unfoldable pub label_value : Python → Bytes → Json → Exec (List Draw) (Unit {0})
  unfolding draw
  label_value python label value = do
    draw (set_font (codes "Helvetica") (codes "B") 10)
    draw (set_text_color 80 80 80)
    draw (cell 450 60 (label ++ codes ":") false false false)
    draw (set_font (codes "Helvetica") [] 10)
    draw (set_text_color 33 33 33)
    draw (multi_cell 0 60 (str python value) false)

-- `RISK_COLORS.get(risk_level, (128, 128, 128))`; a list or a dict cannot be looked up
abbrev pub color_of : Bytes → ℕ × ℕ × ℕ
color_of risk =
    if eqb risk (codes "benign")
    then (46, 125, 50)
    else if eqb risk (codes "suspicious")
    then (245, 124, 0)
    else if eqb risk (codes "malicious")
    then (198, 40, 40)
    else (128, 128, 128)

-- the text of the level; only a text has `upper`, which is called after three calls of the object
abbrev pub upper_of : Python → Json → Result Bytes
upper_of python (string s) = ok (python.upper s)
upper_of python _ = raised attribute_error

abbrev pub risk_color : Json → Result (ℕ × ℕ × ℕ)
risk_color (string s) = ok (color_of s)
risk_color (array items) = raised type_error
risk_color (object fields) = raised type_error
risk_color _ = ok (128, 128, 128)

module _ (refuses : Refusal) where
  unfoldable pub risk_badge : Python → Json → Exec (List Draw) (Unit {0})
  unfolding draw
  risk_badge python risk_level = do
    color ← lift (risk_color risk_level)
    draw refuses (set_font (codes "Helvetica") (codes "B") 12)
    draw refuses (set_text_color 255 255 255)
    draw refuses (set_fill_color color.0 color.1 color.2)
    text ← lift (upper_of python risk_level)
    draw refuses (cell 500 80 (codes "  " ++ (text ++ codes "  ")) false true true)
    draw refuses (set_text_color 33 33 33)
    draw refuses (ln 30)
