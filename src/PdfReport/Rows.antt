-- ===== src/PdfReport/Rows.antt =====
-- The lines of the details and the rows of the findings (`generate_pdf`).
use somethingremotelygood.Base.{[], ◌++◌, Bytes, codes, take, Result, ok}
use somethingremotelygood.Base.Results.{◌>>=◌}
use somethingremotelygood.Json.{Json, string}
use somethingremotelygood.PdfReport.Values.{Python, get_or, str}

-- one line of the details
unfoldable pub detail_line : Python → Json → Result Bytes
unfolding get_or
detail_line python d = do
  kind ← get_or (codes "type") (string (codes "unknown")) d
  detail ← get_or (codes "detail") (string (str python d)) d
  z ← get_or (codes "z_score") (string []) d
  ok (
      codes "  ["
      ++ (str python kind
          ++ (codes "] " ++ (str python detail ++ (codes " (z=" ++ (str python z ++ codes ")"))))))

-- one row of the table of the findings
pub record Row : Type 0 where
  pub line : Bytes
  pub category : Bytes
  pub concern : Bytes

unfoldable pub finding_row : Python → Json → Result Row
unfolding get_or
finding_row python finding = do
  line ← get_or (codes "line") (string (codes "?")) finding
  category ← get_or (codes "category") (string []) finding
  concern ← get_or (codes "concern") (string []) finding
  ok (record {
    line = str python line;
    category = take 30 (str python category);
    concern = str python concern;
  })
