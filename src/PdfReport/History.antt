-- ===== src/PdfReport/History.antt =====
-- The command history of the report (`generate_pdf`).
pub mod Highlights
use somethingremotelygood.Base.{
  ℕ, suc, ◌+◌, ◌-◌, Bool, true, false, ◌||◌, List, [], ◌∷◌, ◌++◌, Bytes, codes, length, take, ltb,
  Result, ok, raised, attribute_error, Exec, if◌then◌else◌,
}
use somethingremotelygood.Base.Texts.{contains}
use somethingremotelygood.Base.Effects.{pure, lift, ◌>>=◌, ◌>>◌}
use somethingremotelygood.Json.{Json, string, Items, nil, cons}
use somethingremotelygood.Sanitizer.Lines.{decimal, pad}
use somethingremotelygood.PdfReport.Values.{Python, str, first_of, size_of}
use somethingremotelygood.PdfReport.Canvas.{
  Draw, set_font, set_text_color, cell, Refusal, draw, section_title,
}

-- the texts that make a line red
abbrev pub keywords : List Bytes
keywords =
    codes "/etc/shadow"
    ∷ codes "chmod 777"
    ∷ codes "nc -l"
    ∷ codes "reverse"
    ∷ codes "backdoor"
    ∷ codes "nmap"
    ∷ codes "payload"
    ∷ codes "/etc/sudoers"
    ∷ codes "useradd"
    ∷ codes "[FILTERED"
    ∷ []

-- `any(kw in text for kw in …)`
abbrev pub some_in : List Bytes → Bytes → Bool
unfolding contains
some_in [] text = false
some_in (kw ∷ kws) text = contains kw text || some_in kws text

unfoldable pub is_highlighted : Python → Bytes → Bool
unfolding contains
is_highlighted python cmd = some_in keywords (python.lower cmd)

-- `if len(line) > 120`
abbrev pub shorten : Bytes → Bytes
shorten line = if ltb 120 (length line) then take 117 line ++ codes "..." else line

unfoldable pub history_line : ℕ → Bytes → Bytes
unfolding decimal
history_line i cmd = shorten (pad (4 - length (decimal i)) (decimal i) ++ (codes "| " ++ cmd))

-- `cmd.lower()` needs a text
abbrev pub command_text : Json → Result Bytes
command_text (string s) = ok s
command_text _ = raised attribute_error

abbrev pub line_color : Bool → Draw
line_color true = set_text_color 198 40 40
line_color false = set_text_color 33 33 33

module _ (refuses : Refusal) (python : Python) where
  unfoldable pub draw_history : ℕ → Items → Exec (List Draw) (Unit {0})
  unfolding draw is_highlighted history_line
  draw_history i nil = pure tt
  draw_history i (cons cmd items) = do
    text ← lift (command_text cmd)
    draw refuses (line_color (is_highlighted python text))
    draw refuses (cell 0 35 (history_line i text) false false true)
    draw_history (i + 1) items

  -- `if len(commands) > 200`
  unfoldable pub more_commands : ℕ → Exec (List Draw) (Unit {0})
  unfolding draw decimal
  more_commands n =
      if ltb 200 n
      then (do
        draw refuses (set_text_color 128 128 128)
        draw refuses (
            cell 0 40 (codes "  ... and " ++ (decimal (n - 200) ++ codes " more commands")) false
              false true))
      else pure tt

  unfoldable pub history_part : Json → Exec (List Draw) (Unit {0})
  unfolding section_title draw_history more_commands draw
  history_part commands = do
    section_title refuses (codes "Command History (sanitized)")
    draw refuses (set_font (codes "Courier") [] 7)
    shown ← lift (first_of 200 commands)
    draw_history 1 shown
    more_commands (size_of commands)
