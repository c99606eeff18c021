-- ===== src/PdfReport/Page/Contents.antt =====
-- The texts of the parts of a report.
use somethingremotelygood.Base.{
  ℕ, ◌+◌, ◌-◌, Bool, true, false, ◌&&◌, List, [], ◌∷◌, ◌++◌, Bytes, codes, length, take, ltb, ◌≡◌,
  refl, ap, if◌then◌else◌,
}
use somethingremotelygood.Sanitizer.Lines.{decimal}
use somethingremotelygood.Sanitizer.Response.Schema.{IsReport}
use somethingremotelygood.CommandAnalysis.Machine.{AnomalyReport}
use somethingremotelygood.Json.{Json, number, string, object, Items, nil, cons, get}
use somethingremotelygood.PdfReport.Values.{Python, str, or_default}
use somethingremotelygood.PdfReport.History.{history_line}

-- A text on a page, or the path of the file.
pub data Mark : Type 0 where
  written : Bytes → Mark
  saved : Bytes → Mark

abbrev pub texts : List Bytes → List Mark
texts [] = []
texts (t ∷ ts) = written t ∷ texts ts

pub texts-append : (a b : List Bytes) → texts (a ++ b) ≡ texts a ++ texts b
texts-append [] b = refl
texts-append (t ∷ a) b = ap (λ (ms : List Mark). written t ∷ ms) (texts-append a b)

-- Are all elements of the list objects?
abbrev pub is_object : Json → Bool
is_object (object fields) = true
is_object _ = false

abbrev pub all_objects : Items → Bool
all_objects nil = true
all_objects (cons v items) = is_object v && all_objects items

module _ (python : Python) where
  -- the text of a value of an object
  abbrev pub value : Bytes → Bytes → Json → Bytes
  unfolding get
  value key default (object fields) = str python (or_default (string default) (get key fields))
  value key default _ = []

  abbrev pub detail_text : Json → Bytes
  detail_text d =
      codes "  ["
      ++ (value (codes "type") (codes "unknown") d
          ++ (codes "] "
              ++ (value (codes "detail") (str python d) d
                  ++ (codes " (z=" ++ (value (codes "z_score") [] d ++ codes ")")))))

  abbrev pub detail_texts : Items → List Bytes
  detail_texts nil = []
  detail_texts (cons d items) = detail_text d ∷ detail_texts items

  abbrev pub details_texts : Items → List Bytes
  details_texts nil = []
  details_texts (cons d items) = codes "Anomaly Details:" ∷ detail_texts (cons d items)

  abbrev pub finding_texts : Items → List Bytes
  finding_texts nil = []
  finding_texts (cons f items) =
      value (codes "line") (codes "?") f
      ∷ take 30 (value (codes "category") [] f)
      ∷ value (codes "concern") [] f
      ∷ finding_texts items

  abbrev pub findings_texts : Items → List Bytes
  findings_texts nil = []
  findings_texts (cons f items) =
      codes "Findings:"
      ∷ codes "Line"
      ∷ codes "Category"
      ∷ codes "Concern"
      ∷ finding_texts (cons f items)

-- numbered from `i` on
abbrev pub history_texts : ℕ → List Bytes → List Bytes
unfolding history_line
history_texts i [] = []
history_texts i (cmd ∷ cmds) = history_line i cmd ∷ history_texts (i + 1) cmds

abbrev pub more_texts : ℕ → List Bytes
unfolding decimal
more_texts n =
    if ltb 200 n
    then (codes "  ... and " ++ (decimal (n - 200) ++ codes " more commands")) ∷ []
    else []

module _ (python : Python) where
  abbrev pub metadata_texts : Json → Json → Json → List Bytes
  metadata_texts generated id model =
      codes "  Report Metadata"
      ∷ codes "Generated:"
      ∷ str python generated
      ∷ codes "Anomaly ID:"
      ∷ str python id
      ∷ codes "LLM Model:"
      ∷ str python model
      ∷ []

  abbrev pub user_texts : Json → Json → List Bytes
  user_texts user container =
      codes "  User Information"
      ∷ codes "User ID:"
      ∷ str python user
      ∷ codes "Container ID:"
      ∷ str python container
      ∷ []

  abbrev pub anomaly_texts : Json → Json → Json → Items → List Bytes
  anomaly_texts kind severity summary details =
      codes "  Anomaly Detection (AI 1)"
      ∷ codes "Type:"
      ∷ str python kind
      ∷ codes "Severity:"
      ∷ str python severity
      ∷ codes "Summary:"
      ∷ str python summary
      ∷ details_texts python details

  abbrev pub analysis_texts : Bytes → Json → Json → Json → Items → List Bytes
  analysis_texts risk summary recommendation analyzed findings =
      codes "  Command Analysis (AI 2)"
      ∷ (codes "  " ++ (python.upper risk ++ codes "  "))
      ∷ codes "Summary:"
      ∷ str python summary
      ∷ codes "Recommendation:"
      ∷ str python recommendation
      ∷ codes "Commands Analyzed:"
      ∷ str python analyzed
      ∷ findings_texts python findings

-- The history has the first 200 commands.
abbrev pub commands_texts : List Bytes → List Bytes
commands_texts cmds =
    codes "  Command History (sanitized)"
    ∷ (history_texts 1 (take 200 cmds) ++ more_texts (length cmds))

-- The texts of a report that `save_json_report` wrote, and the path of the PDF.
abbrev pub report_texts :
    Python
    → Bytes
    → Bytes
    → ℕ
    → AnomalyReport
    → Bytes
    → Bytes
    → Items
    → {analysis : Json} → IsReport analysis
    → List Bytes
    → Bytes
    → List Mark
unfolding decimal
report_texts python t model id r u c details h cmds path =
    texts (metadata_texts python (string t) (number (decimal id)) (string model))
    ++ (texts (user_texts python (string u) (string c))
        ++ (texts (
              anomaly_texts python (string r.anomaly_type) (string r.severity) (string r.summary)
                details)
            ++ (texts (
                  analysis_texts python h.risk h.summary h.recommendation
                    (number (decimal (length cmds))) h.items)
                ++ (texts (commands_texts cmds) ++ (saved path ∷ [])))))
