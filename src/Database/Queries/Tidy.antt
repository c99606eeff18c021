-- ===== src/Database/Queries/Tidy.antt =====
-- The queries close the connections that they open.
use somethingremotelygood.Base.{ℕ, Option, List, Bytes, Exec}
use somethingremotelygood.Base.Effects.{◌>>=◌}
use somethingremotelygood.Database.Bind.{Value}
use somethingremotelygood.Database.Cells.{Cell}
use somethingremotelygood.Database.Connection.{Sqlcipher, Store, execute}
use somethingremotelygood.Database.Connection.Tidy.{
  Steady, Steady-pure, Steady-lift, Steady-bind, Steady-execute, Steady-execute_insert,
  Steady-execute_update, Tidy, with_connection-Tidy,
}
use somethingremotelygood.Database.Queries.{
  Floats, get_sessions, get_all_users, insert_anomaly_report, get_pending_anomalies,
  insert_command_report, update_anomaly_status, get_container_key, get_anomaly_report,
}

module _ {q : Sqlcipher} where
  read-Steady :
      {A : Type 0} (c : ℕ) (sql : Bytes) (params : List Value)
      (f : List (List Cell) → Exec (Store q) A)
      → ((rows : List (List Cell)) → Steady (f rows))
      → Steady (execute c sql params >>= f)
  read-Steady c sql params f h = Steady-bind _ f (Steady-execute c sql params) h

-- Every query leaves the connections that were there before as they were, a connection that it is
-- given among them, and closes the one that it opens when it is given none, whether it returns or
-- raises, unless opening it fails.
pub queries-Tidy :
    {q : Sqlcipher} (f : Floats) (a b c d e : Value) (user : Option Value) (since conn : Option ℕ)
    → Tidy {q = q} (get_sessions user since conn)
      × Tidy {q = q} (get_all_users conn)
      × Tidy {q = q} (insert_anomaly_report a b c d e conn)
      × Tidy {q = q} (get_pending_anomalies conn)
      × Tidy {q = q} (insert_command_report a b c d e conn)
      × Tidy {q = q} (update_anomaly_status a b conn)
      × Tidy {q = q} (get_container_key f a b conn)
      × Tidy {q = q} (get_anomaly_report a conn)
unfolding get_sessions get_all_users insert_anomaly_report get_pending_anomalies
    insert_command_report update_anomaly_status get_container_key get_anomaly_report
queries-Tidy f a b c d e user since conn = (
  with_connection-Tidy _ (λ n. read-Steady n _ _ _ (λ rows. Steady-pure _)) conn,
  with_connection-Tidy _ (λ n. read-Steady n _ _ _ (λ rows. Steady-lift _)) conn,
  with_connection-Tidy _ (λ n. Steady-execute_insert n _ _) conn,
  with_connection-Tidy _ (λ n. read-Steady n _ _ _ (λ rows. Steady-pure _)) conn,
  with_connection-Tidy _ (λ n. Steady-execute_insert n _ _) conn,
  with_connection-Tidy _ (λ n. Steady-execute_update n _ _) conn,
  with_connection-Tidy _ (λ n. read-Steady n _ _ _ (λ rows. Steady-lift _)) conn,
  with_connection-Tidy _ (λ n. read-Steady n _ _ _ (λ rows. Steady-pure _)) conn,
)
