-- ===== src/Generators/Baseline/Rows.antt =====
-- The rows that the baseline of a user adds to the table of the sessions.
use somethingremotelygood.Base.{
  ℕ, zero, suc, ◌+◌, ◌*◌, ◌≤◌, false, ◌⊎◌, inl, inr, length, length-append, All, All-append, List,
  [], ◌∷◌, ◌++◌, Bytes, codes, Option, ok, ◌≡◌, refl, arith, append-nil,
}
use native.Mathlib.Decide.{ℕ_discrete}
use somethingremotelygood.Database.Bind.{text}
use somethingremotelygood.Generators.Integers.{
  ℤ, pos, negsuc, twice, at_least, clamp, clamp_between,
}
use somethingremotelygood.Generators.Host.{Host}
use somethingremotelygood.Generators.Sessions.{start_time}
use somethingremotelygood.Generators.Writes.{
  Event, Table, Writes, Writes-pure, Writes-bind, Writes-weaken, Writes-draw, Writes-gauss,
  Writes-insert_visit, Writes-connect, Writes-execute, Writes-close,
}
use somethingremotelygood.Generators.Plans.{
  Plan, Planned, Planned-none, Planned-one, Planned-append, all_rows-append, All-weaken,
}
use somethingremotelygood.Generators.Baseline.{
  Window, baseline_session, repeat_session, baseline_days, container_of, usual_window,
  generate_baseline,
}
use somethingremotelygood.Generators.Baseline.Hours.{InWindow, Lucky, Writes-draw_hour}

-- A session of one of the last `days` days in the hours of the window.
pub record IsUsual (days : ℕ) (window : Window) (plan : Plan) : Type 0 where
  pub from_day : 1 ≤ plan.day
  pub to_day : plan.day ≤ days
  pub in_window : InWindow window plan.hour
  pub in_hour : plan.second ≤ 59 * 60
  pub three_seconds : plan.gap ≡ 3
  pub at_least_ten_minutes : 600 ≤ plan.duration
  pub at_most_ninety_minutes : plan.duration ≤ 5400

at_least_one : (z : ℤ) → 1 ≤ at_least 1 z
at_least_one (pos n) = omega arith
at_least_one (negsuc n) = omega arith

sooner :
    (days : ℕ) (window : Window) (plan : Plan)
    → IsUsual days window plan
    → IsUsual (suc days) window plan
sooner days window plan p = record {
  from_day = p.from_day;
  to_day = omega (arith, p.to_day);
  in_window = p.in_window;
  in_hour = p.in_hour;
  three_seconds = p.three_seconds;
  at_least_ten_minutes = p.at_least_ten_minutes;
  at_most_ninety_minutes = p.at_most_ninety_minutes;
}

abbrev pub HasDay : ℕ → List Plan → Type 0
HasDay day [] = ⊥
HasDay day (plan ∷ plans) = (plan.day ≡ day) ⊎ HasDay day plans

-- the rows of sessions of which each of the days has at least one, and the value is their number
abbrev pub UsualDays : Bytes → Bytes → ℕ → Window → ℕ → ℕ → List Event → Type 0
UsualDays user_id container_id now window days total es =
    (planned : Planned user_id container_id now (IsUsual days window) total es) × ((day : ℕ)
      → 1 ≤ day
      → day ≤ days
      → HasDay day planned.0)

-- a session of the day itself
abbrev IsOn : ℕ → Window → Plan → Type 0
IsOn day window plan = IsUsual day window plan × (plan.day ≡ day)

HasDay-left : (day : ℕ) (plans more : List Plan) → HasDay day plans → HasDay day (plans ++ more)
HasDay-left day [] more h = absurd h
HasDay-left day (plan ∷ plans) more (inl e) = inl e
HasDay-left day (plan ∷ plans) more (inr h) = inr (HasDay-left day plans more h)

HasDay-right : (day : ℕ) (plans more : List Plan) → HasDay day more → HasDay day (plans ++ more)
HasDay-right day [] more h = h
HasDay-right day (plan ∷ plans) more h = inr (HasDay-right day plans more h)

HasDay-first :
    (day : ℕ) (window : Window) (plans : List Plan)
    → 1 ≤ length plans
    → All (IsOn day window) plans
    → HasDay day plans
HasDay-first day window [] n h = absurd (omega arith)
HasDay-first day window (plan ∷ plans) n (p, h) = inl p.1

-- the sessions of one more day and those of the days after it
UsualDays-next :
    (user_id container_id : Bytes) (now : ℕ) (window : Window) (day n total : ℕ)
    (ys zs : List Event)
    → 1 ≤ n
    → Planned user_id container_id now (IsOn (suc day) window) n ys
    → UsualDays user_id container_id now window day total zs
    → UsualDays user_id container_id now window (suc day) (n + total) (ys ++ zs)
UsualDays-next user_id container_id now window day n total ys zs one (ps, e, p, a)
      ((qs, f, q, b), each) =
    (
      (
        ps ++ qs,
        rw (e, f) (all_rows-append user_id container_id now ps qs),
        All-append (IsUsual (suc day) window) ps qs
            (All-weaken user_id container_id now (IsOn (suc day) window) (IsUsual (suc day) window)
              (λ plan h. h.0) ps p)
            (All-weaken user_id container_id now (IsUsual day window) (IsUsual (suc day) window)
              (sooner day window) qs q),
        omega (arith, length-append ps qs),
      ),
      λ d low high. elim (ℕ_discrete d (suc day)) [
        | yes same ↦
            rw same (HasDay-left (suc day) ps qs (HasDay-first (suc day) window ps (omega arith) p))
        | no other ↦
            let sooner_day : d ≤ day = ground arith in HasDay-right d ps qs (each d low sooner_day)
      ],
    )

module _ {h : Host} (t : Table h) {most : ℕ} (l : Lucky h most) (user_id container_id : Bytes)
    (now : ℕ) (window : Window) where
  Writes-baseline_session :
      (day : ℕ)
      → 1 ≤ day
      → Writes t
          (λ u es. Planned user_id container_id now (IsOn day window) 1 es)
          (baseline_session h most user_id container_id now window day)
  unfolding baseline_session
  Writes-baseline_session day le = Writes-bind _ _ _ (Writes-draw_hour t l window) λ hour xs p.
      Writes-bind _ _ _ (Writes-draw 0 59 (omega arith)) λ minute ys q.
        Writes-bind _ _ _ (Writes-gauss (pos (2 * (50 * 60))) (2 * (15 * 60))) λ drawn zs r.
          let duration = clamp (10 * 60) (90 * 60) drawn in
          let bounds = clamp_between 600 5400 drawn (omega arith) in
          Writes-weaken _ _
            (Writes-insert_visit t user_id container_id (start_time now day hour (minute * 60)) 3
              duration)
            λ _ es e.
              Planned-one user_id container_id now (IsOn day window)
                (record {
                  day = day;
                  hour = hour;
                  second = minute * 60;
                  gap = 3;
                  duration = duration;
                })
                _ (rw (p.0, q.0, r, e) refl)
                (
                  record {
                    from_day = le;
                    to_day = omega arith;
                    in_window = p.1;
                    in_hour = omega (arith, q.1.1);
                    three_seconds = refl;
                    at_least_ten_minutes = bounds.0;
                    at_most_ninety_minutes = bounds.1;
                  },
                  refl,
                )

  Writes-repeat_session :
      (n day : ℕ)
      → 1 ≤ day
      → Writes t
          (λ u es. Planned user_id container_id now (IsOn day window) n es)
          (repeat_session h most user_id container_id now window n day)
  unfolding repeat_session
  Writes-repeat_session zero day le = Writes-pure tt (Planned-none user_id container_id now _)
  Writes-repeat_session (suc n) day le =
      Writes-bind _ _ _ (Writes-baseline_session day le) λ _ xs p.
        Writes-weaken _ _ (Writes-repeat_session n day le)
          λ _ ys q. Planned-append user_id container_id now _ 1 n (suc n) xs ys (omega arith) p q

  Writes-baseline_days :
      (sessions_per_day : ℤ) (days : ℕ)
      → Writes t
          (UsualDays user_id container_id now window days)
          (baseline_days h most user_id container_id now window sessions_per_day days)
  unfolding baseline_days
  Writes-baseline_days sessions_per_day zero =
      Writes-pure 0 (Planned-none user_id container_id now _, λ d low high. absurd (omega arith))
  Writes-baseline_days sessions_per_day (suc day) =
      Writes-bind _ _ _ (Writes-gauss (twice sessions_per_day) 2) λ drawn xs p.
        let n = at_least 1 drawn in
        Writes-bind _ _ _ (Writes-repeat_session n (suc day) (omega arith)) λ _ ys q.
          Writes-bind _ _ _ (Writes-baseline_days sessions_per_day day) λ total zs r.
            let all =
              UsualDays-next user_id container_id now window day n total ys zs (at_least_one drawn)
                q r in
            Writes-pure (n + total) (rw (p, append-nil zs) all)

module _ {h : Host} (t : Table h) {most : ℕ} (l : Lucky h most) where
  -- When no call fails and the random hours hit the window in time, the script, without `--clean`,
  -- adds the rows of sessions of which each day from 1 to the given number has at least one, and
  -- nothing else, and returns their number: each session lies in the hours of the window, counted
  -- from the time of day of the run, and lasts 10 to 90 minutes.
  pub generate_baseline-UsualDays :
      (user_id : Bytes) (container : Option Bytes) (days : ℕ) (sessions_per_day : ℤ) (w : h.World)
      → let (result, w') =
          generate_baseline h most user_id container days sessions_per_day false w in
        (total : ℕ) × (es : List Event) × (result ≡ ok total)
        × (t.rows w' ≡ t.rows w ++ es)
        × UsualDays user_id
            (container_of user_id container)
            (h.now w)
            (usual_window h w)
            days
            total
            es
  unfolding generate_baseline
  generate_baseline-UsualDays user_id container days sessions_per_day w =
      let box = container_of user_id container in
      (Writes-bind _ _ _ Writes-connect λ _ xs p. Writes-close _ (
          Writes-bind (λ _ es. es ≡ []) _ _ (Writes-pure tt refl)
            λ _ ys q.
              Writes-bind _ _ _
                (Writes-execute (codes "SELECT user_id FROM users WHERE user_id = ?")
                  (text user_id ∷ []))
                λ _ zs r.
                  Writes-weaken _ _
                    (Writes-baseline_days t l user_id box (h.now w) (usual_window h w)
                      sessions_per_day days)
                    λ total es v. rw (p, q, r) v)).at
        w
