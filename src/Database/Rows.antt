-- ===== src/Database/Rows.antt =====
-- Rows of a result, and the dicts that the queries make of them.
use somethingremotelygood.Base.{
  List, [], ◌∷◌, Bytes, Option, none, some, Result, ok, index_error, raised,
}
use somethingremotelygood.Base.Results.{◌>>=◌}
use somethingremotelygood.Database.Cells.{Cell}

abbrev pub Row : Type 0
Row = List (Bytes × Cell)

-- `dict(zip(columns, row))`
unfoldable pub zip : List Bytes → List Cell → Row
zip [] cells = []
zip (name ∷ names) [] = []
zip (name ∷ names) (cell ∷ cells) = (name, cell) ∷ zip names cells

-- `row[0]`
abbrev pub head_of {ℓ} : {A : Type ℓ} → List A → Result A
head_of [] = raised index_error
head_of (cell ∷ cells) = ok cell

-- `[row[0] for row in rows]`
unfoldable pub first_cells : List (List Cell) → Result (List Cell)
first_cells [] = ok []
first_cells (row ∷ rows) = do cell ← head_of row; cells ← first_cells rows; ok (cell ∷ cells)

-- `rows[0] if rows else None`
abbrev pub first_row : List Row → Option Row
first_row [] = none
first_row (row ∷ rows) = some row
