-- ===== src/Generators/TestData/Run.antt =====
-- The histories, the end of the test data, and the whole script.
use somethingremotelygood.Base.{
  ℕ, min, Bool, true, List, [], ◌∷◌, ◌++◌, Bytes, codes, length, take, Exec, if◌then◌else◌,
}
use somethingremotelygood.Base.Texts.{starts}
use somethingremotelygood.Base.Effects.{pure, gets, ◌>>=◌, ◌>>◌}
use somethingremotelygood.CommandAnalysis.Machine.{join}
use somethingremotelygood.Database.Connection.{finally}
use somethingremotelygood.Generators.Host.{Host}
use somethingremotelygood.Generators.TestData.{
  normal_commands, suspicious_commands, injection_commands, history_text, generate_users,
  generate_normal_sessions, inject_anomalous_sessions,
}

module _ (h : Host) where
  abbrev user_dir : Bytes → Bytes
  user_dir user_id = join h.homes_dir (codes "test_" ++ user_id)

  -- the commands of one history, before they are shuffled
  unfoldable pub draw_commands : Bool → Bool → Exec h.World (List Bytes)
  draw_commands with_suspicious with_injection = do
    k ← h.randint 50 200
    normal ← h.choices normal_commands k
    suspicious ←
        if with_suspicious
        then (h.randint 5 15 >>= λ n. h.choices suspicious_commands n)
        else pure []
    pure (normal ++ (suspicious ++ (if with_injection then injection_commands else [])))

  unfoldable pub write_histories : Bool → Bool → List (Bytes × Bytes) → Exec h.World (Unit {0})
  unfolding draw_commands history_text join
  write_histories with_suspicious with_injection [] = pure tt
  write_histories with_suspicious with_injection (user ∷ users) = do
    h.make_dirs (join (user_dir user.0) user.0)
    drawn ← draw_commands with_suspicious with_injection
    commands ← h.shuffle drawn
    h.write_text (join (join (user_dir user.0) user.0) (codes ".ash_history"))
        (history_text commands)
    write_histories with_suspicious with_injection users

  unfoldable pub generate_history_files :
      List (Bytes × Bytes) → Bool → Bool → Exec h.World (Unit {0})
  unfolding write_histories
  generate_history_files users with_suspicious with_injection = do
    h.make_dirs h.homes_dir
    write_histories with_suspicious with_injection users

  -- the directories of the test users
  unfoldable pub remove_histories : List Bytes → Exec h.World (Unit {0})
  unfolding join
  remove_histories [] = pure tt
  remove_histories (d ∷ ds) = do
    if starts (codes "test_testuser") d then h.remove_tree (join h.homes_dir d) else pure tt
    remove_histories ds

  unfoldable pub clean_test_data : Exec h.World (Unit {0})
  unfolding remove_histories
  clean_test_data = do
    h.execute_update (codes "DELETE FROM sessions WHERE user_id LIKE 'testuser%'") []
    h.execute_update (codes "DELETE FROM anomaly_reports WHERE user_id LIKE 'testuser%'") []
    h.execute_update (codes "DELETE FROM command_reports WHERE user_id LIKE 'testuser%'") []
    h.execute_update (codes "DELETE FROM containers WHERE user_id LIKE 'testuser%'") []
    h.execute_update (codes "DELETE FROM users WHERE user_id LIKE 'testuser%'") []
    there ← gets (h.path_exists h.homes_dir)
    if there then (do ds ← h.list_dir h.homes_dir; remove_histories ds) else pure tt

  unfoldable pub normal_for : List (Bytes × Bytes) → Exec h.World (Unit {0})
  unfolding generate_normal_sessions
  normal_for [] = pure tt
  normal_for (user ∷ users) = do generate_normal_sessions h user.0 user.1 60; normal_for users

  unfoldable pub anomalous_for : List (Bytes × Bytes) → Exec h.World (Unit {0})
  unfolding inject_anomalous_sessions
  anomalous_for [] = pure tt
  anomalous_for (user ∷ users) = do inject_anomalous_sessions h user.0 user.1 2; anomalous_for users

  -- the `try` of `main` without `--clean`
  unfoldable pub generate_data : ℕ → Bool → Bool → Exec h.World (Unit {0})
  unfolding generate_users normal_for anomalous_for generate_history_files
  generate_data n with_history inject_malicious = do
    users ← generate_users h n
    normal_for users
    anomalous_for (take (min 2 (length users)) users)
    if with_history then generate_history_files users true inject_malicious else pure tt

  -- `main` after the arguments
  unfoldable pub generate_test_data : ℕ → Bool → Bool → Bool → Exec h.World (Unit {0})
  unfolding clean_test_data generate_data
  generate_test_data n with_history inject_malicious clean = do
    h.connect
    finally (if clean then clean_test_data else generate_data n with_history inject_malicious)
        h.close
