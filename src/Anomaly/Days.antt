-- ===== src/Anomaly/Days.antt =====
-- The sessions of each day (`sessions_per_day`), in UTC.
use somethingremotelygood.Base.{
  ℕ, ◌+◌, ◌*◌, ◌/◌, ◌≤◌, Bool, ◌&&◌, ltb, leb, ◌≢◌, List, [], ◌∷◌, length, map, All, ◌≡◌, refl,
  arith, ◌==◌, Bool-cases, inl, inr, if◌then◌else◌,
}
use somethingremotelygood.Anomaly.Durations.{Session}

-- A `defaultdict(int)` in the order of its keys. A day is held as its number since 1970, which its
-- date "%Y-%m-%d" stands for.
abbrev pub Days : Type 0
Days = List (ℕ × ℕ)

-- `days[day] += 1`
unfoldable pub count_day : ℕ → Days → Days
count_day day [] = (day, 1) ∷ []
count_day day ((d, n) ∷ days) =
    let rest = count_day day days in if d == day then (d, n + 1) ∷ days else (d, n) ∷ rest

unfoldable pub days_from : Days → List Session → Days
unfolding count_day
days_from days [] = days
days_from days (s ∷ ss) = days_from (count_day (s.timestamp / 86400) days) ss

-- `list(days.values())`
unfoldable pub sessions_per_day : List Session → List ℕ
unfolding days_from
sessions_per_day sessions = map (λ (d : ℕ × ℕ). d.1) (days_from [] sessions)

abbrev pub sum : List ℕ → ℕ
sum [] = 0
sum (n ∷ ns) = n + sum ns

abbrev pub counts : Days → List ℕ
counts days = map (λ (d : ℕ × ℕ). d.1) days

sum-count_day : (day : ℕ) (days : Days) → sum (counts (count_day day days)) ≡ sum (counts days) + 1
unfolding count_day
sum-count_day day [] = refl
sum-count_day day ((d, n) ∷ days) = ground (arith, sum-count_day day days)

sum-days_from :
    (days : Days) (ss : List Session)
    → sum (counts (days_from days ss)) ≡ sum (counts days) + length ss
unfolding days_from
sum-days_from days [] = omega arith
sum-days_from days (s ∷ ss) = omega (
  arith,
  sum-days_from (count_day (s.timestamp / 86400) days) ss,
  sum-count_day (s.timestamp / 86400) days,
)

abbrev pub Positive : ℕ → Type 0
Positive n = 1 ≤ n

count_day-Positive :
    (day : ℕ) (days : Days)
    → All Positive (counts days)
    → All Positive (counts (count_day day days))
unfolding count_day
count_day-Positive day [] h = (omega arith, tt)
count_day-Positive day ((d, n) ∷ days) h = elim (Bool-cases (d == day)) [
  | inl e ↦ rw e (omega (arith, h.0), h.1)
  | inr e ↦ rw e (h.0, count_day-Positive day days h.1)
]

days_from-Positive :
    (days : Days) (ss : List Session)
    → All Positive (counts days)
    → All Positive (counts (days_from days ss))
unfolding days_from
days_from-Positive days [] h = h
days_from-Positive days (s ∷ ss) h =
    days_from-Positive (count_day (s.timestamp / 86400) days) ss
      (count_day-Positive (s.timestamp / 86400) days h)

-- `days[day]`, 0 on a missing key
abbrev pub count_of : ℕ → Days → ℕ
count_of day [] = 0
count_of day ((d, n) ∷ days) = if d == day then n else count_of day days

-- A time of the day that begins `day` times 86400 seconds after 1970.
abbrev pub on_day : ℕ → ℕ → Bool
on_day day time = leb (86400 * day) time && ltb time (86400 * day + 86400)

abbrev pub sessions_on : ℕ → List Session → ℕ
sessions_on day [] = 0
sessions_on day (s ∷ ss) = (if on_day day s.timestamp then 1 else 0) + sessions_on day ss

abbrev pub Distinct : List ℕ → Type 0
Distinct [] = Unit {0}
Distinct (d ∷ ds) = All (λ e. d ≢ e) ds × Distinct ds

abbrev pub keys : Days → List ℕ
keys days = map (λ (d : ℕ × ℕ). d.0) days

count_of-count_day :
    (day other : ℕ) (days : Days)
    → count_of other (count_day day days) ≡ (if day == other then 1 else 0) + count_of other days
unfolding count_day
count_of-count_day day other [] = ground arith
count_of-count_day day other ((d, n) ∷ days) = ground (arith, count_of-count_day day other days)

day_of-on_day : (day time : ℕ) → (time / 86400 == day) ≡ on_day day time
day_of-on_day day time = ground arith

count_of-days_from :
    (day : ℕ) (days : Days) (ss : List Session)
    → count_of day (days_from days ss) ≡ count_of day days + sessions_on day ss
unfolding days_from
count_of-days_from day days [] = omega arith
count_of-days_from day days (s ∷ ss) =
    rw
      (
        count_of-days_from day (count_day (s.timestamp / 86400) days) ss,
        count_of-count_day (s.timestamp / 86400) day days,
        day_of-on_day day s.timestamp,
      )
      (omega arith)

apart-count_day :
    (e day : ℕ) (days : Days)
    → e ≢ day
    → All (λ d. e ≢ d) (keys days)
    → All (λ d. e ≢ d) (keys (count_day day days))
unfolding count_day
apart-count_day e day [] ne h = (ne, tt)
apart-count_day e day ((d, n) ∷ days) ne h = elim (Bool-cases (d == day)) [
  | inl q ↦ rw q h
  | inr q ↦ rw q (h.0, apart-count_day e day days ne h.1)
]

Distinct-count_day :
    (day : ℕ) (days : Days) → Distinct (keys days) → Distinct (keys (count_day day days))
unfolding count_day
Distinct-count_day day [] h = (tt, tt)
Distinct-count_day day ((d, n) ∷ days) h = elim (Bool-cases (d == day)) [
  | inl q ↦ rw q h
  | inr q ↦
      rw q (apart-count_day d day days (λ e. ground arith) h.0, Distinct-count_day day days h.1)
]

Distinct-days_from :
    (days : Days) (ss : List Session) → Distinct (keys days) → Distinct (keys (days_from days ss))
unfolding days_from
Distinct-days_from days [] h = h
Distinct-days_from days (s ∷ ss) h =
    Distinct-days_from (count_day (s.timestamp / 86400) days) ss
      (Distinct-count_day (s.timestamp / 86400) days h)

-- The list has the counts of a dict by days, which has no day twice and no day without a session:
-- its count of a day is the number of the sessions that begin between the day's first second and
-- its last, and all counts add up to the number of sessions.
pub sessions_per_day-days :
    (sessions : List Session)
    → (days : Days) × (sessions_per_day sessions ≡ counts days)
      × Distinct (keys days)
      × ((day : ℕ) → count_of day days ≡ sessions_on day sessions)
      × All Positive (counts days)
      × (sum (counts days) ≡ length sessions)
unfolding sessions_per_day
sessions_per_day-days sessions = (
  days_from [] sessions,
  refl,
  Distinct-days_from [] sessions tt,
  λ day. rw (count_of-days_from day [] sessions) (omega arith),
  days_from-Positive [] sessions tt,
  omega (arith, sum-days_from [] sessions),
)
