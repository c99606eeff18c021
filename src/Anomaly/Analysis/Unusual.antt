-- ===== src/Anomaly/Analysis/Unusual.antt =====
-- Connections at unusual hours.
use somethingremotelygood.Base.{
  ℕ, zero, suc, ◌≤◌, Bool, true, false, Option, none, some, List, [], ◌∷◌, Bytes, length, map, All,
  All-append, ◌≡◌, ◌≢◌, ◌⊎◌, inl, inr, refl, sym, ap, subst, ◌∙◌, arith, ltb, ◌==◌, Bool-cases,
}
use somethingremotelygood.Anomaly.Durations.{Session, is_connect}
use somethingremotelygood.Anomaly.Hours.{
  Buckets, tm_hour, count_up, bucket_from, bucket_by_hour, total,
}
use somethingremotelygood.Anomaly.Days.{sessions_per_day}
use somethingremotelygood.Anomaly.Arithmetic.{Arithmetic, Ordered, max_of, compute_mean_stddev}
use somethingremotelygood.Anomaly.Analysis.{
  Kind, unusual_time, high, Report, Anomaly, connects, fraction_at, time_anomaly, unusual_times,
  time_of_day, outliers, compare_values, frequency_anomaly, duration_anomaly, find_anomalies,
  type_found, escalate, max_z, severity_of, report_of, analyze_sessions,
}

-- The session is one of the list.
abbrev pub Among : Session → List Session → Type 0
Among s [] = ⊥
Among s (t ∷ ts) = (s ≡ t) ⊎ Among s ts

bucket_from-le : (b : Buckets) (ss : List Session) (h : ℕ) → b h ≤ bucket_from b ss h
bucket_from-le b [] h = omega arith
bucket_from-le b (s ∷ ss) h = ground (arith, bucket_from-le (count_up (tm_hour s.timestamp) b) ss h)

bucket_from-Among :
    (b : Buckets) (ss : List Session) (s : Session)
    → Among s ss
    → 1 ≤ bucket_from b ss (tm_hour s.timestamp)
bucket_from-Among b [] s h = absurd h
bucket_from-Among b (t ∷ ts) s h = elim h [
  | inl e ↦ rw e (
      omega (
        arith,
        bucket_from-le (count_up (tm_hour t.timestamp) b) ts (tm_hour t.timestamp),
        counted (tm_hour t.timestamp) b,
      ))
  | inr later ↦ bucket_from-Among (count_up (tm_hour t.timestamp) b) ts s later
]
  where
    counted : (h : ℕ) (b : Buckets) → 1 ≤ count_up h b h
    counted h b = ground arith

connects-Among :
    (s : Session) (ss : List Session) → is_connect s ≡ true → Among s ss → Among s (connects ss)
unfolding connects
connects-Among s [] c h = absurd h
connects-Among s (t ∷ ts) c h = elim (Bool-cases (is_connect t)) [
  | inl e ↦ rw (e, connects) (elim h [ inl q ↦ inl q | inr r ↦ inr (connects-Among s ts c r) ])
  | inr e ↦
      rw (e, connects)
        (elim h [
          | inl q ↦ absurd (differ (is_connect s) c (ap is_connect q ∙ e))
          | inr r ↦ connects-Among s ts c r
        ])
]
  where
    differ : (b : Bool) → b ≡ true → b ≡ false → ⊥
    differ b p q = cc

connects-All :
    (recent baseline : List Session)
    → All (λ s. Among s baseline) recent
    → All (λ s. Among s (connects baseline)) (connects recent)
unfolding connects
connects-All [] baseline h = tt
connects-All (s ∷ ss) baseline h = elim (Bool-cases (is_connect s)) [
  | inl e ↦ rw (e, connects) (connects-Among s baseline e h.0, connects-All ss baseline h.1)
  | inr e ↦ rw (e, connects) (connects-All ss baseline h.1)
]

-- One of the anomalies is of the kind.
abbrev pub HasKind : {a : Arithmetic} → Kind → List (Anomaly a) → Type 0
HasKind k [] = ⊥
HasKind k (x ∷ xs) = (x.kind ≡ k) ⊎ HasKind k xs

suc_test : (n : ℕ) → (suc n == 0) ≡ false
suc_test n = ground arith

module _ (a : Arithmetic) (o : Ordered a) where
  -- An unusual time has a score above 4.5.
  abbrev Large : Anomaly a → Type 0
  Large x = x.kind ≡ unusual_time → a.lt (a.literal 45 1) x.z_score ≡ true

  max_of-small :
      (x : a.Float)
      → a.lt x (a.literal 2 2) ≡ true
      → a.lt (max_of a x (a.literal 1 3)) (a.literal 2 2) ≡ true
  max_of-small x h = elim (Bool-cases (a.lt x (a.literal 1 3))) [
    | inl e ↦ rw e o.thousandth_small
    | inr e ↦ rw e h
  ]

  max_of-least : (x : a.Float) → a.lt (max_of a x (a.literal 1 3)) (a.literal 1 3) ≡ false
  max_of-least x = elim (Bool-cases (a.lt x (a.literal 1 3))) [
    | inl e ↦ rw e (o.lt_irrefl (a.literal 1 3))
    | inr e ↦ rw e e
  ]

  -- the hour of a session of the baseline
  time_anomaly-Large :
      (b : Buckets) (hour : ℕ)
      → 1 ≤ b hour
      → a.lt (fraction_at a b hour) (a.literal 2 2) ≡ true
      → Large (time_anomaly a hour (fraction_at a b hour))
  time_anomaly-Large b hour pos h k = rw (not_zero b hour pos) (
      o.inverse_large (max_of a (fraction_at a b hour) (a.literal 1 3))
        (max_of-small (fraction_at a b hour) h) (max_of-least (fraction_at a b hour)))
    where
      suc_case :
          (n : ℕ) (b : Buckets) (hour : ℕ)
          → b hour ≡ n
          → 1 ≤ n
          → a.eq (fraction_at a b hour) (a.literal 0 1) ≡ false
      suc_case zero b hour e p = absurd (omega arith)
      suc_case (suc n) b hour e p = rw (e, suc_test n) (o.ratio_positive n (total 24 b))

      not_zero :
          (b : Buckets) (hour : ℕ)
          → 1 ≤ b hour
          → a.eq (fraction_at a b hour) (a.literal 0 1) ≡ false
      not_zero b hour p = suc_case (b hour) b hour refl p

  unusual_times-Large :
      (b : Buckets) (ss : List Session)
      → All (λ s. 1 ≤ b (tm_hour s.timestamp)) ss
      → All Large (unusual_times a b ss)
  unfolding unusual_times
  unusual_times-Large b [] h = tt
  unusual_times-Large b (s ∷ ss) h =
      elim (Bool-cases (a.lt (fraction_at a b (tm_hour s.timestamp)) (a.literal 2 2))) [
        | inl e ↦
            rw (e, unusual_times)
              (time_anomaly-Large b (tm_hour s.timestamp) h.0 e, unusual_times-Large b ss h.1)
        | inr e ↦ rw (e, unusual_times) (unusual_times-Large b ss h.1)
      ]

  counted-All :
      (baseline recent : List Session)
      → All (λ s. Among s baseline) recent
      → All (λ s. 1 ≤ bucket_by_hour baseline (tm_hour s.timestamp)) recent
  unfolding bucket_by_hour
  counted-All baseline [] h = tt
  counted-All baseline (s ∷ ss) h =
      (bucket_from-Among (λ h. 0) baseline s h.0, counted-All baseline ss h.1)

  time_of_day-Large :
      (baseline recent : List Session)
      → All (λ s. Among s baseline) recent
      → All Large (time_of_day a baseline recent)
  unfolding time_of_day
  time_of_day-Large [] recent h = tt
  time_of_day-Large (b ∷ bs) recent h =
      unusual_times-Large (bucket_by_hour (b ∷ bs)) recent (counted-All (b ∷ bs) recent h)

  module _ (make : a.Float → a.Float → a.Float → ℕ → Anomaly a)
      (other : (m s z : a.Float) (x : ℕ) → (make m s z x).kind ≢ unusual_time) where
    outliers-Large : (t m s : a.Float) (xs : List ℕ) → All Large (outliers a t make m s xs)
    unfolding outliers
    outliers-Large t m s [] = tt
    outliers-Large t m s (x ∷ xs) = elim (Bool-cases (a.lt t (a.div (a.sub (a.of_nat x) m) s))) [
      | inl e ↦
          rw (e, outliers)
            (λ k. absurd (other m s (a.div (a.sub (a.of_nat x) m) s) x k), outliers-Large t m s xs)
      | inr e ↦ rw (e, outliers) (outliers-Large t m s xs)
    ]

    compare_values-Large :
        (t : a.Float) (baseline recent : List ℕ)
        → All Large (compare_values a t make baseline recent)
    unfolding compare_values
    compare_values-Large t baseline [] = tt
    compare_values-Large t [] (r ∷ rs) = tt
    compare_values-Large t (b ∷ bs) (r ∷ rs) =
        let (mean, std) = compute_mean_stddev a (b ∷ bs) in
        elim (Bool-cases (a.lt (a.literal 0 1) std)) [
          | inl e ↦ rw (e, compare_values) (outliers-Large t mean std (r ∷ rs))
          | inr e ↦ rw (e, compare_values) tt
        ]

  find_anomalies-Large :
      (t : a.Float) (baseline recent : List Session)
      → All (λ s. Among s baseline) recent
      → All Large (find_anomalies a t baseline recent)
  unfolding find_anomalies
  find_anomalies-Large t baseline recent h =
      All-append Large (time_of_day a (connects baseline) (connects recent)) _
        (time_of_day-Large (connects baseline) (connects recent) (connects-All recent baseline h))
        (All-append Large
          (compare_values a t (frequency_anomaly a) (sessions_per_day (connects baseline))
            (sessions_per_day (connects recent)))
          _ (compare_values-Large (frequency_anomaly a) (λ m s z x q. cc) t _ _)
          (compare_values-Large (duration_anomaly a) (λ m s z x q. cc) t _ _))

  -- The largest score is above what one of the scores is above.
  max_z-start :
      (t m : a.Float) (xs : List (Anomaly a)) → a.lt t m ≡ true → a.lt t (max_z a m xs) ≡ true
  unfolding max_z
  max_z-start t m [] h = h
  max_z-start t m (x ∷ xs) h =
      max_z-start t (max_of a m x.z_score) xs (elim (Bool-cases (a.lt m x.z_score)) [
        | inl e ↦ rw e (o.lt_trans t m x.z_score h e)
        | inr e ↦ rw e h
      ])

  max_z-above :
      (m : a.Float) (xs : List (Anomaly a))
      → All Large xs
      → HasKind {a = a} unusual_time xs
      → a.lt (a.literal 45 1) (max_z a m xs) ≡ true
  unfolding max_z
  max_z-above m [] all has = absurd has
  max_z-above m (x ∷ xs) all has = elim has [
    | inl k ↦
        max_z-start (a.literal 45 1) (max_of a m x.z_score) xs
          (elim (Bool-cases (a.lt m x.z_score)) [
            | inl e ↦ rw e (all.0 k)
            | inr e ↦ rw e (o.lt_of_not_lt (a.literal 45 1) x.z_score m (all.0 k) e)
          ])
    | inr later ↦ max_z-above (max_of a m x.z_score) xs all.1 later
  ]

  severity_large : (z : a.Float) → a.lt (a.literal 45 1) z ≡ true → severity_of a z ≡ high
  unfolding severity_of
  severity_large z h = rw h refl

  escalate-high : (k : Option Kind) → escalate k high ≡ high
  unfolding escalate
  escalate-high none = refl
  escalate-high (some k) = refl

  report_of-high :
      (user_id : Bytes) (xs details : List (Anomaly a)) (r : Report)
      → All Large xs
      → report_of a user_id xs ≡ some (r, details)
      → HasKind {a = a} unusual_time details
      → r.severity ≡ high
  unfolding report_of
  report_of-high user_id [] details r all e has = cc
  report_of-high user_id (x ∷ xs) details r all e has =
      let same : x ∷ xs ≡ details = second e in
      let top : a.lt (a.literal 45 1) (max_z a x.z_score xs) ≡ true =
        elim (subst (HasKind {a = a} unusual_time) (sym same) has) [
          | inl k ↦ max_z-start (a.literal 45 1) x.z_score xs (all.0 k)
          | inr later ↦ max_z-above x.z_score xs all.1 later
        ] in
      rw (sym (ap (λ (q : Report). q.severity) (first e))) (
        ap (escalate (type_found x.kind (map (λ (y : Anomaly a). y.kind) xs)))
          (severity_large (max_z a x.z_score xs) top)
        ∙ escalate-high (type_found x.kind (map (λ (y : Anomaly a). y.kind) xs)))
    where
      first :
          {A B : Type 0} {x x' : A} {y y' : B}
          → ◌≡◌ {A = Option (A × B)} (some (x, y)) (some (x', y'))
          → x ≡ x'
      first e = cc

      second :
          {A B : Type 0} {x x' : A} {y y' : B}
          → ◌≡◌ {A = Option (A × B)} (some (x, y)) (some (x', y'))
          → y ≡ y'
      second e = cc

  -- If the sessions of the last day are among those of the baseline, as `analyze_user` asks for
  -- them, every report of a connection at an unusual hour has severity high: no hour of such a
  -- connection has the rate zero, for which the code has a lower score.
  pub analyze_sessions-high :
      (threshold : a.Float) (user_id : Bytes) (baseline recent : List Session) (r : Report)
      (details : List (Anomaly a))
      → All (λ s. Among s baseline) recent
      → analyze_sessions a threshold user_id baseline recent ≡ some (r, details)
      → HasKind {a = a} unusual_time details
      → r.severity ≡ high
  unfolding analyze_sessions
  analyze_sessions-high threshold user_id baseline recent r details sub e has =
      elim (Bool-cases (ltb (length baseline) 5)) [
        | inl few ↦ absurd (none_not_some (r, details) (rw (few, analyze_sessions) at e))
        | inr enough ↦
            report_of-high user_id (find_anomalies a threshold baseline recent) details r
              (find_anomalies-Large threshold baseline recent sub)
              (rw (enough, analyze_sessions) at e) has
      ]
    where
      none_not_some : {A : Type 0} (x : A) → ◌≡◌ {A = Option A} none (some x) → ⊥
      none_not_some x q = cc
