-- ===== src/Anomaly/Durations.antt =====
-- The durations of sessions (`compute_durations`).
pub mod Reference
use somethingremotelygood.Base.{
  ℕ, ◌-◌, Bool, true, false, ◌&&◌, ◌||◌, Option, none, some, List, [], ◌∷◌, Bytes, codes, eqb, ltb,
  if◌then◌else◌,
}

-- A row of `get_sessions`, as far as it is read; the time is a Unix time.
pub record Session : Type 0 where
  pub user_id : Bytes
  pub container_id : Bytes
  pub event_type : Bytes
  pub timestamp : ℕ

abbrev pub is_connect : Session → Bool
is_connect s = eqb s.event_type (codes "ssh_connected")

abbrev pub is_end : Session → Bool
is_end s = eqb s.event_type (codes "ssh_disconnected") || eqb s.event_type (codes "timeout")

-- `key = (s["user_id"], s["container_id"])`
abbrev pub Key : Type 0
Key = Bytes × Bytes

abbrev pub key_of : Session → Key
key_of s = (s.user_id, s.container_id)

abbrev pub same : Key → Key → Bool
same k l = eqb k.0 l.0 && eqb k.1 l.1

-- The dict: what each key holds.
abbrev pub Pending : Type 0
Pending = Key → Option ℕ

-- `pending[key] = value`, and without a value `pending.pop(key)`
abbrev pub assign : Key → Option ℕ → Pending → Pending
assign key value pending = λ k. if same k key then value else pending k

-- `if duration > 0: durations.append(duration)`
abbrev pub append_positive : ℕ → ℕ → List ℕ → List ℕ
append_positive stop start rest = if ltb start stop then (stop - start) ∷ rest else rest

unfoldable pub durations_from : Pending → List Session → List ℕ
durations_from pending [] = []
durations_from pending (s ∷ ss) = elim (is_connect s) [
  | true ↦ durations_from (assign (key_of s) (some s.timestamp) pending) ss
  | false ↦ elim (is_end s) [
    | false ↦ durations_from pending ss
    | true ↦ elim (pending (key_of s)) [
      | none ↦ durations_from pending ss
      | some start ↦
          append_positive s.timestamp start (durations_from (assign (key_of s) none pending) ss)
    ]
  ]
]

unfoldable pub compute_durations : List Session → List ℕ
unfolding durations_from
compute_durations sessions = durations_from (λ k. none) sessions
