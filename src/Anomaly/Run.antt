-- ===== src/Anomaly/Run.antt =====
-- The detector's run over the users (`analyze_user` with its queries, `main`).
pub mod Inserts
use somethingremotelygood.Base.{
  ℕ, zero, suc, ◌+◌, ◌-◌, ◌*◌, Bool, true, false, Option, none, some, List, [], ◌∷◌, Bytes, Result,
  Exec, if◌then◌else◌,
}
use somethingremotelygood.Base.Effects.{pure, gets, ◌>>=◌, ◌>>◌}
use somethingremotelygood.Anomaly.Durations.{Session}
use somethingremotelygood.Anomaly.Arithmetic.{Arithmetic}
use somethingremotelygood.Anomaly.Analysis.{Report, Anomaly, analyze_sessions}

-- The calls of `db_access` that the detector makes on its connection, and `time.time()`.
pub record Records (a : Arithmetic) : Type 1 where
  pub World : Type 0
  pub now : World → ℕ
  pub connect : Exec World (Unit {0})
  pub close : World → World
  pub get_sessions : Bytes → ℕ → Exec World (List Session)
  pub get_all_users : Exec World (List Bytes)
  pub insert_report : Report → List (Anomaly a) → Exec World (Unit {0})

-- `--user` and `--dry-run`
pub record Options : Type 0 where
  pub user : Option Bytes
  pub dry_run : Bool

module _ {a : Arithmetic} (d : Records a) (window_days : ℕ) (threshold : a.Float) where
  open d use {World, now, connect, close, get_sessions, get_all_users, insert_report}

  unfoldable pub analyze_user : Bytes → Exec World (Option (Report × List (Anomaly a)))
  analyze_user user_id = do
    time ← gets now
    baseline ← get_sessions user_id (time - window_days * 86400)
    recent ← get_sessions user_id (time - 86400)
    pure (analyze_sessions a threshold user_id baseline recent)

  -- `if not args.dry_run`
  unfoldable pub save : Bool → Report → List (Anomaly a) → Exec World (Unit {0})
  save true report details = pure tt
  save false report details = insert_report report details

  -- the loop over the users, with the number of reports
  unfoldable pub detect_users : Bool → List Bytes → Exec World ℕ
  unfolding analyze_user save
  detect_users dry_run [] = pure 0
  detect_users dry_run (user_id ∷ users) = do
    result ← analyze_user user_id
    elim result [
      | none ↦ detect_users dry_run users
      | some r ↦ (do save dry_run r.0 r.1; found ← detect_users dry_run users; pure (suc found))
    ]

  unfoldable pub chosen_users : Option Bytes → Exec World (List Bytes)
  chosen_users none = get_all_users
  chosen_users (some []) = get_all_users
  chosen_users (some (c ∷ s)) = pure ((c ∷ s) ∷ [])

  abbrev closed {ℓ} : {A : Type ℓ} → Result A × World → Result A × World
  closed (r, s) = (r, close s)

  -- `main` after the arguments; the `finally` closes the connection
  unfoldable pub detect : Options → Exec World ℕ
  unfolding detect_users chosen_users
  detect args = do
    connect
    λ s. closed ((do users ← chosen_users args.user; detect_users args.dry_run users) s)
