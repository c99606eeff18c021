-- ===== src/Generators/Baseline.antt =====
-- src/ai/generate_user_baseline.py: usual sessions for one user.
pub mod Hours
pub mod Rows
use somethingremotelygood.Base.{
  ℕ, zero, suc, ◌+◌, ◌*◌, Bool, true, false, ◌||◌, ◌&&◌, Option, none, some, List, [], ◌∷◌, Bytes,
  codes, Exec, stuck, leb, if◌then◌else◌,
}
use somethingremotelygood.Base.Effects.{pure, lift, gets, ◌>>=◌, ◌>>◌}
use somethingremotelygood.Database.Bind.{text}
use somethingremotelygood.Database.Connection.{finally}
use somethingremotelygood.Generators.Integers.{ℤ, pos, subtract, twice, at_least, clamp}
use somethingremotelygood.Generators.Host.{Host}
use somethingremotelygood.Generators.Sessions.{start_time, insert_visit}

-- `args.container or user_id`
abbrev pub container_of : Bytes → Option Bytes → Bytes
container_of user_id none = user_id
container_of user_id (some []) = user_id
container_of user_id (some (c ∷ s)) = c ∷ s

-- the hours of the usual sessions, which may wrap round midnight
pub record Window : Type 0 where
  pub first : ℕ
  pub last : ℕ

-- `hour >= normal_start_hour or hour <= normal_end_hour`
unfoldable pub wraps_round : Window → ℕ → Bool
wraps_round window hour = leb window.first hour || leb hour window.last

module _ (h : Host) where
  -- the windows of the day before: 12 to 6 hours ago
  unfoldable pub usual_window : h.World → Window
  usual_window w = record {
    first = h.local_hour (subtract (h.now w) (12 * 3600)) w;
    last = h.local_hour (subtract (h.now w) (6 * 3600)) w;
  }

  -- the first draw and the `while` after it, for at most `draws` draws
  unfoldable pub draw_wrapped : ℕ → Window → Exec h.World ℕ
  draw_wrapped zero window = lift stuck
  draw_wrapped (suc draws) window =
      let again = draw_wrapped draws window in
      h.randint 0 23 >>= λ hour. if wraps_round window hour then pure hour else again

  unfoldable pub draw_hour : ℕ → Window → Exec h.World ℕ
  unfolding draw_wrapped
  draw_hour draws window =
      if leb window.first window.last
      then h.randint window.first window.last
      else draw_wrapped draws window

  module _ (draws : ℕ) (user_id container_id : Bytes) (now : ℕ) (window : Window) where
    unfoldable pub baseline_session : ℕ → Exec h.World (Unit {0})
    unfolding draw_hour start_time insert_visit
    baseline_session day = do
      hour ← draw_hour draws window
      minute ← h.randint 0 59
      drawn ← h.int_gauss (pos (2 * (50 * 60))) (2 * (15 * 60))
      insert_visit h user_id container_id (start_time now day hour (minute * 60)) 3
          (clamp (10 * 60) (90 * 60) drawn)

    unfoldable pub repeat_session : ℕ → ℕ → Exec h.World (Unit {0})
    unfolding baseline_session
    repeat_session zero day = pure tt
    repeat_session (suc n) day = do baseline_session day; repeat_session n day

    -- the days from `days` down to 1; the number of sessions
    unfoldable pub baseline_days : ℤ → ℕ → Exec h.World ℕ
    unfolding repeat_session
    baseline_days sessions_per_day zero = pure 0
    baseline_days sessions_per_day (suc day) = do
      drawn ← h.int_gauss (twice sessions_per_day) 2
      repeat_session (at_least 1 drawn) (suc day)
      total ← baseline_days sessions_per_day day
      pure (at_least 1 drawn + total)

  -- `if args.clean:`
  unfoldable pub clean_user : Bytes → Bytes → Exec h.World (Unit {0})
  clean_user user_id container_id = do
    h.execute_update (codes "DELETE FROM sessions WHERE user_id = ? AND container_id = ?")
        (text user_id ∷ text container_id ∷ [])
    h.execute_update (codes "DELETE FROM anomaly_reports WHERE user_id = ?") (text user_id ∷ [])
    h.execute_update (codes "DELETE FROM command_reports WHERE user_id = ?") (text user_id ∷ [])

  -- `main` after the arguments: the number of sessions
  unfoldable pub generate_baseline : ℕ → Bytes → Option Bytes → ℕ → ℤ → Bool → Exec h.World ℕ
  unfolding usual_window clean_user baseline_days
  generate_baseline draws user_id container days sessions_per_day clean = do
    now ← gets h.now
    window ← gets usual_window
    h.connect
    finally
        (do
          if clean then clean_user user_id (container_of user_id container) else pure tt
          h.execute (codes "SELECT user_id FROM users WHERE user_id = ?") (text user_id ∷ [])
          baseline_days draws user_id (container_of user_id container) now window sessions_per_day
              days)
        h.close
