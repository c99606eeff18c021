-- ===== src/Anomaly/Hours.antt =====
-- The hours of the day at which sessions are (`bucket_by_hour`), in UTC.
use somethingremotelygood.Base.{
  ℕ, zero, suc, ◌+◌, ◌/◌, ◌%◌, ◌≤◌, ◌<◌, List, [], ◌∷◌, length, ◌≡◌, refl, arith, ◌==◌,
  if◌then◌else◌,
}
use somethingremotelygood.Anomaly.Durations.{Session}

-- `time.gmtime(t).tm_hour`
abbrev pub tm_hour : ℕ → ℕ
tm_hour t = t / 3600 % 24

-- A `defaultdict(int)` over the hours.
abbrev pub Buckets : Type 0
Buckets = ℕ → ℕ

-- `buckets[hour] += 1`
abbrev pub count_up : ℕ → Buckets → Buckets
count_up hour buckets = λ h. if h == hour then buckets h + 1 else buckets h

abbrev pub bucket_from : Buckets → List Session → Buckets
bucket_from buckets [] = buckets
bucket_from buckets (s ∷ ss) = bucket_from (count_up (tm_hour s.timestamp) buckets) ss

unfoldable pub bucket_by_hour : List Session → Buckets
bucket_by_hour sessions = bucket_from (λ h. 0) sessions

-- `sum(buckets.values())`, the hours below `n`
unfoldable pub total : ℕ → Buckets → ℕ
total zero b = 0
total (suc n) b = total n b + b n

total-count_up_low : (n hour : ℕ) (b : Buckets) → n ≤ hour → total n (count_up hour b) ≡ total n b
unfolding total
total-count_up_low zero hour b h = refl
total-count_up_low (suc n) hour b h = ground (arith, total-count_up_low n hour b)

total-count_up : (n hour : ℕ) (b : Buckets) → hour < n → total n (count_up hour b) ≡ total n b + 1
unfolding total
total-count_up zero hour b h = absurd (omega arith)
total-count_up (suc n) hour b h =
    ground (arith, total-count_up n hour b, total-count_up_low n hour b)

total-bucket_from :
    (b : Buckets) (ss : List Session) → total 24 (bucket_from b ss) ≡ total 24 b + length ss
total-bucket_from b [] = omega arith
total-bucket_from b (s ∷ ss) =
    let hour = tm_hour s.timestamp in
    omega (arith, total-bucket_from (count_up hour b) ss, total-count_up 24 hour b (omega arith))

-- Every session is counted once, in an hour from 0 to 23: the buckets of a day add up to the
-- number of sessions.
pub total-bucket_by_hour :
    (sessions : List Session) → total 24 (bucket_by_hour sessions) ≡ length sessions
unfolding bucket_by_hour total
total-bucket_by_hour sessions = omega (arith, total-bucket_from (λ h. 0) sessions)
