-- ===== src/Anomaly/Analysis.antt =====
-- The analysis of a user's sessions (`analyze_user`).
pub mod Unusual
use somethingremotelygood.Base.{
  ℕ, zero, suc, ◌+◌, ◌-◌, Bool, true, false, ◌&&◌, ◌||◌, not, Option, none, some, List, [], ◌∷◌,
  ◌++◌, Bytes, codes, length, take, map, ltb, ◌==◌, if◌then◌else◌,
}
use somethingremotelygood.Sanitizer.Lines.{decimal}
use somethingremotelygood.Anomaly.Durations.{Session, is_connect, compute_durations}
use somethingremotelygood.Anomaly.Hours.{Buckets, tm_hour, bucket_by_hour, total}
use somethingremotelygood.Anomaly.Days.{sessions_per_day}
use somethingremotelygood.Anomaly.Arithmetic.{Arithmetic, max_of, compute_mean_stddev}

pub data Kind : Type 0 where
  unusual_time high_frequency long_duration : Kind

pub data Severity : Type 0 where
  low medium high : Severity

-- `none` is "composite"
pub record Report : Type 0 where
  pub user_id : Bytes
  pub anomaly_type : Option Kind
  pub severity : Severity
  pub summary : Bytes

abbrev pub same_kind : Kind → Kind → Bool
same_kind unusual_time unusual_time = true
same_kind high_frequency high_frequency = true
same_kind long_duration long_duration = true
same_kind _ _ = false

-- `[s for s in sessions if s["event_type"] == "ssh_connected"]`
unfoldable pub connects : List Session → List Session
connects [] = []
connects (s ∷ ss) = let rest = connects ss in if is_connect s then s ∷ rest else rest

-- f"{hour:02d}"
abbrev pub two_digits : ℕ → Bytes
two_digits n = if ltb n 10 then b'0' ∷ decimal n else decimal n

-- `"; ".join(details)`
unfoldable pub join_details : List Bytes → Bytes
join_details [] = []
join_details (d ∷ []) = d
join_details (d ∷ e ∷ ds) = d ++ (codes "; " ++ join_details (e ∷ ds))

-- is one of the kinds not `k`?
abbrev pub another : Kind → List Kind → Bool
another k [] = false
another k (j ∷ js) = not (same_kind k j) || another k js

-- `len(types_found) > 1`, and the type of the report
unfoldable pub type_found : Kind → List Kind → Option Kind
type_found k ks = if another k ks then none else some k

unfoldable pub escalate : Option Kind → Severity → Severity
escalate none low = medium
escalate none medium = high
escalate none high = high
escalate (some k) s = s

module _ (a : Arithmetic) where
  open a use {Float, literal, of_nat, ratio, sub, div, lt, eq, percent, tenths, whole}

  pub record Anomaly : Type 0 where
    pub kind : Kind
    pub detail : Bytes
    pub z_score : Float

  -- `hour_fractions.get(hour, 0.0)`
  abbrev pub fraction_at : Buckets → ℕ → Float
  fraction_at buckets hour =
      if buckets hour == 0 then literal 0 1 else ratio (buckets hour) (total 24 buckets)

  abbrev pub time_anomaly : ℕ → Float → Anomaly
  time_anomaly hour fraction = record {
    kind = unusual_time;
    detail =
        codes "Connection at hour "
        ++ (two_digits hour
            ++ (codes ":00 UTC (historical rate: " ++ (percent fraction ++ codes ")")));
    z_score =
        if eq fraction (literal 0 1)
        then literal 40 1
        else div (literal 10 1) (max_of a fraction (literal 1 3));
  }

  -- the loop over the recent connections
  unfoldable pub unusual_times : Buckets → List Session → List Anomaly
  unusual_times buckets [] = []
  unusual_times buckets (s ∷ ss) =
      let hour = tm_hour s.timestamp in
      let fraction = fraction_at buckets hour in
      let rest = unusual_times buckets ss in
      if lt fraction (literal 2 2) then time_anomaly hour fraction ∷ rest else rest

  unfoldable pub time_of_day : List Session → List Session → List Anomaly
  unfolding unusual_times bucket_by_hour
  time_of_day [] recent = []
  time_of_day (b ∷ bs) recent = unusual_times (bucket_by_hour (b ∷ bs)) recent

  -- the loop over the values of the last day, for the frequency and the duration of sessions
  unfoldable pub outliers :
      Float → (Float → Float → Float → ℕ → Anomaly) → Float → Float → List ℕ → List Anomaly
  outliers threshold make mean std [] = []
  outliers threshold make mean std (x ∷ xs) =
      let z = div (sub (of_nat x) mean) std in
      let rest = outliers threshold make mean std xs in
      if lt threshold z then make mean std z x ∷ rest else rest

  unfoldable pub compare_values :
      Float → (Float → Float → Float → ℕ → Anomaly) → List ℕ → List ℕ → List Anomaly
  unfolding outliers compute_mean_stddev
  compare_values threshold make baseline [] = []
  compare_values threshold make [] (r ∷ rs) = []
  compare_values threshold make (b ∷ bs) (r ∷ rs) =
      let (mean, std) = compute_mean_stddev a (b ∷ bs) in
      if lt (literal 0 1) std then outliers threshold make mean std (r ∷ rs) else []

  abbrev pub frequency_anomaly : Float → Float → Float → ℕ → Anomaly
  frequency_anomaly mean std z n = record {
    kind = high_frequency;
    detail =
        decimal n
        ++ (codes " sessions today vs baseline "
            ++ (tenths mean
                ++ (codes "±" ++ (tenths std ++ (codes "/day (z=" ++ (tenths z ++ codes ")"))))));
    z_score = z;
  }

  abbrev pub duration_anomaly : Float → Float → Float → ℕ → Anomaly
  duration_anomaly mean std z n = record {
    kind = long_duration;
    detail =
        codes "Session "
        ++ (whole (ratio n 60)
            ++ (codes "min vs baseline "
                ++ (whole (div mean (of_nat 60))
                    ++ (codes "±"
                        ++ (whole (div std (of_nat 60))
                            ++ (codes "min (z=" ++ (tenths z ++ codes ")")))))));
    z_score = z;
  }

  unfoldable pub find_anomalies : Float → List Session → List Session → List Anomaly
  unfolding time_of_day compare_values connects sessions_per_day compute_durations
  find_anomalies threshold baseline recent =
      time_of_day (connects baseline) (connects recent)
      ++ (compare_values threshold frequency_anomaly (sessions_per_day (connects baseline))
            (sessions_per_day (connects recent))
          ++ compare_values threshold duration_anomaly (compute_durations baseline)
              (compute_durations recent))

  -- `max(a["z_score"] for a in anomalies)`
  unfoldable pub max_z : Float → List Anomaly → Float
  max_z m [] = m
  max_z m (x ∷ xs) = max_z (max_of a m x.z_score) xs

  unfoldable pub severity_of : Float → Severity
  severity_of z = if lt (literal 45 1) z then high else if lt (literal 35 1) z then medium else low

  unfoldable pub summary_of : List Anomaly → Bytes
  unfolding join_details decimal
  summary_of anomalies =
      let text = join_details (map (λ (x : Anomaly). x.detail) (take 3 anomalies)) in
      if ltb 3 (length anomalies)
      then text ++ (codes " (+" ++ (decimal (length anomalies - 3) ++ codes " more)"))
      else text

  unfoldable pub report_of : Bytes → List Anomaly → Option (Report × List Anomaly)
  unfolding max_z severity_of type_found escalate summary_of
  report_of user_id [] = none
  report_of user_id (x ∷ xs) =
      let kind = type_found x.kind (map (λ (y : Anomaly). y.kind) xs) in
      some (
        record {
          user_id = user_id;
          anomaly_type = kind;
          severity = escalate kind (severity_of (max_z x.z_score xs));
          summary = summary_of (x ∷ xs);
        },
        x ∷ xs,
      )

  -- what `analyze_user` makes of the sessions of the baseline and of the last day
  unfoldable pub analyze_sessions :
      Float → Bytes → List Session → List Session → Option (Report × List Anomaly)
  unfolding find_anomalies report_of
  analyze_sessions threshold user_id baseline recent =
      if ltb (length baseline) 5
      then none
      else report_of user_id (find_anomalies threshold baseline recent)
