-- ===== src/Examples/Anomaly.antt =====
-- The detector on concrete sessions.
use somethingremotelygood.Base.{ℕ, List, [], ◌∷◌, Bytes, codes, length, All, ◌≡◌, refl}
use somethingremotelygood.Anomaly.Durations.{Session, compute_durations}
use somethingremotelygood.Anomaly.Durations.Reference.{closed_times, compute_durations-closed_times}
use somethingremotelygood.Anomaly.Hours.{total}
use somethingremotelygood.Anomaly.Days.{
  Days, counts, keys, Distinct, count_of, sessions_on, sum, Positive, sessions_per_day,
  sessions_per_day-days,
}
use somethingremotelygood.Base.{
  zero, suc, ◌+◌, ◌-◌, ◌*◌, ◌/◌, ◌^◌, ◌≤◌, Bool, true, false, none, some, ok, ltb, leb, ◌==◌, inl,
  arith, if◌then◌else◌,
}
use somethingremotelygood.Sanitizer.Lines.{decimal}
use somethingremotelygood.Anomaly.Arithmetic.{Arithmetic, Ordered}
use somethingremotelygood.Anomaly.Analysis.{Report, Anomaly, unusual_time, high, analyze_sessions}
use somethingremotelygood.Anomaly.Analysis.Unusual.{analyze_sessions-high}
use somethingremotelygood.Anomaly.Run.{Records, Options, detect}
use somethingremotelygood.Anomaly.Run.Inserts.{Counted, growth, detect-reports}
use native.Mathlib.Nat.{le-div_iff_mul-le}

abbrev event : Bytes → Bytes → ℕ → Session
event container kind t = record {
  user_id = codes "ann";
  container_id = container;
  event_type = kind;
  timestamp = t;
}

-- two containers, a second connection, an end without a connection
abbrev sessions : List Session
sessions =
    event (codes "a") (codes "ssh_connected") 100
    ∷ event (codes "b") (codes "ssh_connected") 150
    ∷ event (codes "a") (codes "ssh_connected") 200
    ∷ event (codes "a") (codes "ssh_disconnected") 260
    ∷ event (codes "a") (codes "timeout") 300
    ∷ event (codes "b") (codes "timeout") 90150
    ∷ []

durations_run : compute_durations sessions ≡ 60 ∷ 90000 ∷ []
unfolding compute_durations
durations_run = refl

days_run : sessions_per_day sessions ≡ 5 ∷ 1 ∷ []
unfolding sessions_per_day
days_run = refl

compute_durations-closed_times_example : compute_durations sessions ≡ closed_times [] sessions
compute_durations-closed_times_example = compute_durations-closed_times sessions

sessions_per_day-days_example :
    (days : Days) × (sessions_per_day sessions ≡ counts days)
    × Distinct (keys days)
    × ((day : ℕ) → count_of day days ≡ sessions_on day sessions)
    × All Positive (counts days)
    × (sum (counts days) ≡ length sessions)
sessions_per_day-days_example = sessions_per_day-days sessions

-- numbers from zero on in thousandths; a part of a whole is rounded up
abbrev thousandths : Arithmetic
thousandths = record {
  Float = ℕ;
  literal = λ n k. n * 10 ^ (3 - k);
  of_nat = λ n. n * 1000;
  ratio = λ n k. if n == 0 then 0 else suc (n * 1000 / k);
  add = λ x y. x + y;
  sub = λ x y. x - y;
  div = λ x y. x * 1000 / y;
  square = λ x. x * x / 1000;
  sqrt = λ x. x;
  lt = ltb;
  eq = λ x y. x == y;
  percent = λ x. decimal (x / 10);
  tenths = λ x. decimal (x / 1000);
  whole = λ x. decimal (x / 1000);
}

inverse_of_small : (x : ℕ) → 1 ≤ x → x ≤ 19 → 4501 ≤ 1000000 / x
inverse_of_small x h k = (le-div_iff_mul-le (omega arith)).1 (omega arith)

thousandths-Ordered : Ordered thousandths
thousandths-Ordered = record {
  lt_of_not_lt = λ t x m h k. ground arith;
  lt_trans = λ t x m h k. ground arith;
  ratio_positive = λ n k. ground arith;
  inverse_large = λ x h k. ground (arith, inverse_of_small x);
  thousandth_small = refl;
  lt_irrefl = λ x. ground arith;
}

abbrev usual : ℕ → List Session
usual zero = []
usual (suc n) = event (codes "a") (codes "ssh_connected") 43200 ∷ usual n

-- a connection at three in the morning, after sixty at noon
abbrev at_night : Session
at_night = event (codes "a") (codes "ssh_connected") 97200

abbrev found_details : List (Anomaly thousandths)
found_details =
    record {
      kind = unusual_time;
      detail = codes "Connection at hour 03:00 UTC (historical rate: 1)";
      z_score = 58823;
    }
    ∷ []

abbrev found_report : Report
found_report = record {
  user_id = codes "ann";
  anomaly_type = some unusual_time;
  severity = high;
  summary = codes "Connection at hour 03:00 UTC (historical rate: 1)";
}

night_run :
    analyze_sessions thousandths 2500 (codes "ann") (at_night ∷ usual 60) (at_night ∷ [])
    ≡ some (found_report, found_details)
unfolding analyze_sessions total
night_run = refl

analyze_sessions-high_example : found_report.severity ≡ high
analyze_sessions-high_example =
    analyze_sessions-high thousandths thousandths-Ordered 2500 (codes "ann") (at_night ∷ usual 60)
      (at_night ∷ []) found_report found_details (inl refl, tt) night_run (inl refl)

abbrev since : ℕ → List Session → List Session
since t [] = []
since t (s ∷ ss) = let rest = since t ss in if leb t s.timestamp then s ∷ rest else rest

-- a database of one user, as the number of its reports
abbrev records : Records thousandths
records = record {
  World = ℕ;
  now = λ w. 130000;
  connect = λ w. (ok tt, w);
  close = λ w. w;
  get_sessions = λ user t w. (ok (since t (at_night ∷ usual 60)), w);
  get_all_users = λ w. (ok (codes "ann" ∷ []), w);
  insert_report = λ r xs w. (ok tt, suc w);
}

abbrev records-Counted : Counted records
records-Counted = record {
  reports = λ w. w;
  connect_keeps = λ w. refl;
  close_keeps = λ w. refl;
  sessions_keep = λ u t w. refl;
  users_keep = λ w. refl;
  insert_counts = λ r xs w e. refl;
}

abbrev args : Bool → Options
args b = record { user = none; dry_run = b }

detect_runs :
    (detect records 30 2500 (args false) 5 ≡ (ok 1, 6))
    × (detect records 30 2500 (args true) 5 ≡ (ok 1, 5))
unfolding detect analyze_sessions total
detect_runs = (refl, refl)

detect-reports_example :
    (detect records 30 2500 (args false) 5).1 ≡ 5 + growth (records-Counted) 30 2500 false 1
unfolding detect analyze_sessions total
detect-reports_example = detect-reports records-Counted 30 2500 (args false) 5 1 refl
