-- ===== src/Generators/TestData/Unusual.antt =====
-- The rows that the unusual sessions of the test data add to the table of the sessions.
use somethingremotelygood.Base.{
  ℕ, zero, suc, ◌+◌, ◌*◌, ◌≤◌, List, ◌++◌, Bytes, codes, ok, ◌≡◌, refl, ◌⊎◌, inl, inr, arith,
}
use somethingremotelygood.Generators.Integers.{add}
use somethingremotelygood.Generators.Host.{Host}
use somethingremotelygood.Generators.Sessions.{start_time}
use somethingremotelygood.Generators.Writes.{
  Event, Table, Writes, Writes-pure, Writes-bind, Writes-weaken, Writes-draw, Writes-insert_event,
  Writes-insert_visit,
}
use somethingremotelygood.Generators.Plans.{
  Plan, Planned, Planned-none, Planned-one, Planned-append, Planned-weaken,
}
use somethingremotelygood.Generators.TestData.{
  night_session, short_session, repeat_night, repeat_short, anomalous_days,
  inject_anomalous_sessions,
}
use somethingremotelygood.Generators.TestData.Rows.{OnDays, later}

-- A long session from 2 to 5 hours after the time of day of the run.
pub record IsNight (plan : Plan) : Type 0 where
  pub hours : (2 ≤ plan.hour) × (plan.hour ≤ 5)
  pub in_hour : plan.second ≤ 3599
  pub three_seconds : plan.gap ≡ 3
  pub long : (3600 ≤ plan.duration) × (plan.duration ≤ 10800)

-- A short one from 10 to 14 hours after it.
pub record IsShort (plan : Plan) : Type 0 where
  pub hours : (10 ≤ plan.hour) × (plan.hour ≤ 14)
  pub in_hour : plan.second ≤ 3599
  pub two_seconds : plan.gap ≡ 2
  pub short : (30 ≤ plan.duration) × (plan.duration ≤ 180)

abbrev pub IsAnomalous : ℕ → Plan → Type 0
IsAnomalous days plan = OnDays days plan × (IsNight plan ⊎ IsShort plan)

module _ {h : Host} (t : Table h) (user_id container_id : Bytes) (now : ℕ) where
  Writes-night_session :
      (day : ℕ)
      → 1 ≤ day
      → Writes t
          (λ u es. Planned user_id container_id now (IsAnomalous day) 1 es)
          (night_session h user_id container_id now day)
  unfolding night_session
  Writes-night_session day le = Writes-bind _ _ _ (Writes-draw 2 5 (omega arith)) λ hour xs p.
      Writes-bind _ _ _ (Writes-draw 0 3599 (omega arith)) λ second ys q.
        Writes-bind _ _ _ (Writes-draw (60 * 60) (180 * 60) (omega arith)) λ duration zs r.
          Writes-weaken _ _
            (Writes-insert_visit t user_id container_id (start_time now day hour second) 3 duration)
            λ _ es e.
              Planned-one user_id container_id now (IsAnomalous day)
                (record { day = day; hour = hour; second = second; gap = 3; duration = duration }) _
                (rw (p.0, q.0, r.0, e) refl)
                (
                  (le, omega arith),
                  inl (record { hours = p.1; in_hour = q.1.1; three_seconds = refl; long = r.1 }),
                )

  Writes-short_session :
      (day : ℕ)
      → 1 ≤ day
      → Writes t
          (λ u es. Planned user_id container_id now (IsAnomalous day) 1 es)
          (short_session h user_id container_id now day)
  unfolding short_session
  Writes-short_session day le = Writes-bind _ _ _ (Writes-draw 10 14 (omega arith)) λ hour xs p.
      Writes-bind _ _ _ (Writes-draw 0 3599 (omega arith)) λ second ys q.
        let ts = start_time now day hour second in
        Writes-bind _ _ _ (Writes-insert_event t user_id container_id (codes "auth_ok") ts)
          λ _ as1 e.
            Writes-bind _ _ _
              (Writes-insert_event t user_id container_id (codes "ssh_connected") (add ts 2))
              λ _ as2 f. Writes-bind _ _ _ (Writes-draw 30 180 (omega arith)) λ duration zs r.
                Writes-weaken _ _
                  (Writes-insert_event t user_id container_id (codes "ssh_disconnected")
                    (add (add ts 2) duration))
                  λ _ es g.
                    Planned-one user_id container_id now (IsAnomalous day)
                      (record {
                        day = day;
                        hour = hour;
                        second = second;
                        gap = 2;
                        duration = duration;
                      })
                      _ (rw (p.0, q.0, e, f, r.0, g) refl)
                      (
                        (le, omega arith),
                        inr (record {
                          hours = p.1;
                          in_hour = q.1.1;
                          two_seconds = refl;
                          short = r.1;
                        }),
                      )

  Writes-repeat_night :
      (n day : ℕ)
      → 1 ≤ day
      → Writes t
          (λ u es. Planned user_id container_id now (IsAnomalous day) n es)
          (repeat_night h user_id container_id now n day)
  unfolding repeat_night
  Writes-repeat_night zero day le = Writes-pure tt (Planned-none user_id container_id now _)
  Writes-repeat_night (suc n) day le = Writes-bind _ _ _ (Writes-night_session day le) λ _ xs p.
      Writes-weaken _ _ (Writes-repeat_night n day le)
        λ _ ys q. Planned-append user_id container_id now _ 1 n (suc n) xs ys (omega arith) p q

  Writes-repeat_short :
      (n day : ℕ)
      → 1 ≤ day
      → Writes t
          (λ u es. Planned user_id container_id now (IsAnomalous day) n es)
          (repeat_short h user_id container_id now n day)
  unfolding repeat_short
  Writes-repeat_short zero day le = Writes-pure tt (Planned-none user_id container_id now _)
  Writes-repeat_short (suc n) day le = Writes-bind _ _ _ (Writes-short_session day le) λ _ xs p.
      Writes-weaken _ _ (Writes-repeat_short n day le)
        λ _ ys q. Planned-append user_id container_id now _ 1 n (suc n) xs ys (omega arith) p q

  Writes-anomalous_days :
      (days : ℕ)
      → Writes t
          (λ u es. Planned user_id container_id now (IsAnomalous days) (18 * days) es)
          (anomalous_days h user_id container_id now days)
  unfolding anomalous_days
  Writes-anomalous_days zero = Writes-pure tt (Planned-none user_id container_id now _)
  Writes-anomalous_days (suc day) =
      Writes-bind _ _ _ (Writes-repeat_night 3 (suc day) (omega arith)) λ _ xs p.
        Writes-bind _ _ _ (Writes-repeat_short 15 (suc day) (omega arith)) λ _ ys q.
          Writes-weaken _ _ (Writes-anomalous_days day) λ _ zs r.
            let earlier =
              Planned-weaken user_id container_id now _ (IsAnomalous (suc day)) (18 * day) zs
                (λ plan (days, kind). (later day plan days, kind)) r in
            let rest =
              Planned-append user_id container_id now _ 15 (18 * day) (15 + 18 * day) ys zs refl q
                earlier in
            Planned-append user_id container_id now _ 3 (15 + 18 * day) (18 * suc day) xs (ys ++ zs)
              (omega arith) p rest

module _ {h : Host} (t : Table h) (user_id container_id : Bytes) where
  -- When no call fails, `inject_anomalous_sessions` adds the rows of 18 sessions for each day and
  -- nothing else, each of them long and early or short and late.
  pub inject_anomalous_sessions-IsAnomalous :
      (days : ℕ) (w : h.World)
      → let (result, w') = inject_anomalous_sessions h user_id container_id days w in
        (es : List Event) × (result ≡ ok tt)
        × (t.rows w' ≡ t.rows w ++ es)
        × Planned user_id container_id (h.now w) (IsAnomalous days) (18 * days) es
  unfolding inject_anomalous_sessions
  inject_anomalous_sessions-IsAnomalous days w =
      let (u, es, e, q, v) = (Writes-anomalous_days t user_id container_id (h.now w) days).at w in
      (es, e, q, v)
