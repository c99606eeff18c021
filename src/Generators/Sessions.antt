-- ===== src/Generators/Sessions.antt =====
-- The rows of made-up sessions.
use somethingremotelygood.Base.{ℕ, ◌+◌, ◌*◌, List, [], ◌∷◌, Bytes, codes, Exec}
use somethingremotelygood.Base.Effects.{◌>>◌}
use somethingremotelygood.Database.Bind.{Value, text, number}
use somethingremotelygood.Generators.Integers.{ℤ, subtract, add, str_int}
use somethingremotelygood.Generators.Host.{Host}

abbrev pub insert_session : Bytes
insert_session =
    codes "INSERT INTO sessions(user_id, container_id, event_type, timestamp) VALUES(?,?,?,?)"

abbrev pub row_params : Bytes → Bytes → Bytes → ℤ → List Value
row_params user_id container_id event_type ts =
    text user_id ∷ text container_id ∷ text event_type ∷ number (str_int ts) ∷ []

-- `day_start + hour * 3600 + s`, with `day_start = now - (day * 86400)`
unfoldable pub start_time : ℕ → ℕ → ℕ → ℕ → ℤ
start_time now day hour s = add (subtract now (day * 86400)) (hour * 3600 + s)

module _ (h : Host) (user_id container_id : Bytes) where
  unfoldable pub insert_event : Bytes → ℤ → Exec h.World (Unit {0})
  unfolding str_int
  insert_event event_type ts =
      h.execute_update insert_session (row_params user_id container_id event_type ts)

  -- the three rows of a session that is opened `gap` seconds after the login
  unfoldable pub insert_visit : ℤ → ℕ → ℕ → Exec h.World (Unit {0})
  unfolding insert_event
  insert_visit ts gap duration = do
    insert_event (codes "auth_ok") ts
    insert_event (codes "ssh_connected") (add ts gap)
    insert_event (codes "ssh_disconnected") (add (add ts gap) duration)
