-- ===== src/Generators/TestData/Rows.antt =====
-- The rows that the usual sessions of the test data add to the table of the sessions.
use somethingremotelygood.Base.{
  ℕ, zero, suc, ◌+◌, ◌*◌, ◌≤◌, List, ◌++◌, Bytes, ok, ◌≡◌, refl, arith,
}
use somethingremotelygood.Base.Effects.{◌>>=◌}
use somethingremotelygood.Generators.Integers.{pos, clamp, clamp_between}
use somethingremotelygood.Generators.Host.{Host}
use somethingremotelygood.Generators.Sessions.{start_time}
use somethingremotelygood.Generators.Writes.{
  Event, Table, Writes, Writes-pure, Writes-bind, Writes-weaken, Writes-draw, Writes-gauss,
  Writes-insert_visit,
}
use somethingremotelygood.Generators.Plans.{
  Plan, Planned, Planned-none, Planned-one, Planned-append, Planned-weaken,
}
use somethingremotelygood.Generators.TestData.{
  normal_session, repeat_normal, normal_days, generate_normal_sessions,
}

abbrev pub OnDays : ℕ → Plan → Type 0
OnDays days plan = (1 ≤ plan.day) × (plan.day ≤ days)

-- A usual session: of 5 to 120 minutes.
pub record IsNormal (days : ℕ) (plan : Plan) : Type 0 where
  pub on_days : OnDays days plan
  pub in_day : plan.hour ≤ 23
  pub in_hour : plan.second ≤ 59 * 60
  pub five_seconds : plan.gap ≡ 5
  pub at_least_five_minutes : 300 ≤ plan.duration
  pub at_most_two_hours : plan.duration ≤ 7200

pub later : (days : ℕ) (plan : Plan) → OnDays days plan → OnDays (suc days) plan
later days plan (from, to) = (from, omega arith)

later-IsNormal : (days : ℕ) (plan : Plan) → IsNormal days plan → IsNormal (suc days) plan
later-IsNormal days plan p = record {
  on_days = later days plan p.on_days;
  in_day = p.in_day;
  in_hour = p.in_hour;
  five_seconds = p.five_seconds;
  at_least_five_minutes = p.at_least_five_minutes;
  at_most_two_hours = p.at_most_two_hours;
}

-- the rows of one to four sessions a day
abbrev pub NormalDays : Bytes → Bytes → ℕ → ℕ → List Event → Type 0
NormalDays user_id container_id now days es =
    (n : ℕ) × Planned user_id container_id now (IsNormal days) n es × ((days ≤ n) × (n ≤ 4 * days))

module _ {h : Host} (t : Table h) (user_id container_id : Bytes) (now : ℕ) where
  Writes-normal_session :
      (hours day : ℕ)
      → 1 ≤ day
      → Writes t
          (λ u es. Planned user_id container_id now (IsNormal day) 1 es)
          (normal_session h user_id container_id now hours day)
  unfolding normal_session
  Writes-normal_session hours day le = Writes-bind _ _ _ (Writes-gauss (pos hours) 3) λ drawn xs p.
      Writes-bind _ _ _ (Writes-draw 0 59 (omega arith)) λ minute ys q.
        Writes-bind _ _ _ (Writes-gauss (pos (2 * (45 * 60))) (2 * (20 * 60))) λ length zs r.
          let hour = clamp 0 23 drawn in
          let duration = clamp (5 * 60) (120 * 60) length in
          let bounds = clamp_between 300 7200 length (omega arith) in
          Writes-weaken _ _
            (Writes-insert_visit t user_id container_id (start_time now day hour (minute * 60)) 5
              duration)
            λ _ es e.
              Planned-one user_id container_id now (IsNormal day)
                (record {
                  day = day;
                  hour = hour;
                  second = minute * 60;
                  gap = 5;
                  duration = duration;
                })
                _ (rw (p, q.0, r, e) refl)
                (record {
                  on_days = (le, omega arith);
                  in_day = (clamp_between 0 23 drawn (omega arith)).1;
                  in_hour = omega (arith, q.1.1);
                  five_seconds = refl;
                  at_least_five_minutes = bounds.0;
                  at_most_two_hours = bounds.1;
                })

  Writes-repeat_normal :
      (hours n day : ℕ)
      → 1 ≤ day
      → Writes t
          (λ u es. Planned user_id container_id now (IsNormal day) n es)
          (repeat_normal h user_id container_id now hours n day)
  unfolding repeat_normal
  Writes-repeat_normal hours zero day le = Writes-pure tt (Planned-none user_id container_id now _)
  Writes-repeat_normal hours (suc n) day le =
      Writes-bind _ _ _ (Writes-normal_session hours day le) λ _ xs p.
        Writes-weaken _ _ (Writes-repeat_normal hours n day le)
          λ _ ys q. Planned-append user_id container_id now _ 1 n (suc n) xs ys (omega arith) p q

  Writes-normal_days :
      (hours days : ℕ)
      → Writes t
          (λ u es. NormalDays user_id container_id now days es)
          (normal_days h user_id container_id now hours days)
  unfolding normal_days
  Writes-normal_days hours zero =
      Writes-pure tt (0, Planned-none user_id container_id now _, (omega arith, omega arith))
  Writes-normal_days hours (suc day) = Writes-bind _ _ _ (Writes-draw 1 4 (omega arith)) λ n xs p.
      Writes-bind _ _ _ (Writes-repeat_normal hours n (suc day) (omega arith)) λ _ ys q.
        Writes-weaken _ _ (Writes-normal_days hours day) λ _ zs (m, r, bounds).
          let earlier = Planned-weaken user_id container_id now _ _ m zs (later-IsNormal day) r in
          let both = Planned-append user_id container_id now _ n m (n + m) ys zs refl q earlier in
          (n + m, rw p.0 both, (omega (arith, p.1.0, bounds.0), omega (arith, p.1.1, bounds.1)))

module _ {h : Host} (t : Table h) (user_id container_id : Bytes) where
  -- When no call fails, `generate_normal_sessions` adds the rows of one to four usual sessions for
  -- each day and nothing else.
  pub generate_normal_sessions-NormalDays :
      (days : ℕ) (w : h.World)
      → let (result, w') = generate_normal_sessions h user_id container_id days w in
        (es : List Event) × (result ≡ ok tt)
        × (t.rows w' ≡ t.rows w ++ es)
        × NormalDays user_id container_id (h.now w) days es
  unfolding generate_normal_sessions
  generate_normal_sessions-NormalDays days w =
      let written : Writes t (λ u es. NormalDays user_id container_id (h.now w) days es)
          (h.randint 7 10 >>= λ start. h.randint 16 19 >>= λ stop.
            normal_days h user_id container_id (h.now w) (start + stop) days) =
        Writes-bind _ _ _ (Writes-draw 7 10 (omega arith)) λ start xs p.
          Writes-bind _ _ _ (Writes-draw 16 19 (omega arith)) λ stop ys q.
            Writes-weaken _ _
              (Writes-normal_days t user_id container_id (h.now w) (start + stop) days)
              λ _ es r. rw (p.0, q.0) r in
      let (u, es, e, q, v) = written.at w in (es, e, q, v)
