-- ===== src/Database/Bind.antt =====
-- Values in SQL texts (`_bind_params`).
pub mod Literals
pub mod Counts
use somethingremotelygood.Base.{
  ℕ, ◌+◌, ◌-◌, ◌/◌, ◌%◌, Bool, true, false, List, [], ◌∷◌, ◌++◌, Bytes, codes, Result, ok, raised,
  stop_iteration, ltb, ◌==◌, if◌then◌else◌,
}
use somethingremotelygood.Base.Results.{◌>>=◌}

-- A parameter by the tests of its type; a number is held as its `str(val)`.
pub data Value : Type 0 where
  null : Value
  number : Bytes → Value
  blob : Bytes → Value
  text : Bytes → Value

abbrev pub quote : ℕ
quote = 39

abbrev pub mark : ℕ
mark = b'?'

-- `val.hex()`
abbrev hex_char : ℕ → ℕ
hex_char n = if ltb n 10 then b'0' + n else b'a' + (n - 10)

abbrev hex : Bytes → Bytes
hex [] = []
hex (b ∷ s) = hex_char (b / 16) ∷ hex_char (b % 16) ∷ hex s

-- `.replace("'", "''")`
unfoldable pub escape : Bytes → Bytes
escape [] = []
escape (c ∷ s) = let rest = escape s in if c == quote then quote ∷ quote ∷ rest else c ∷ rest

unfoldable pub literal : Value → Bytes
unfolding escape
literal null = codes "NULL"
literal (number s) = s
literal (blob s) = codes "X'" ++ (hex s ++ codes "'")
literal (text s) = quote ∷ (escape s ++ (quote ∷ []))

-- `next(param_iter)` at each mark; without a parameter left it raises
unfoldable pub bind_params : Bytes → List Value → Result Bytes
unfolding literal
bind_params [] params = ok []
bind_params (c ∷ sql) params = elim (c == mark) [
  | false ↦ (do rest ← bind_params sql params; ok (c ∷ rest))
  | true ↦ elim params [
    | [] ↦ raised stop_iteration
    | v ∷ vs ↦ (do rest ← bind_params sql vs; ok (literal v ++ rest))
  ]
]
