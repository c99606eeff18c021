-- ===== src/Anomaly/Durations/Reference.antt =====
-- The durations without a dict: each end of a session looks back for its beginning.
use somethingremotelygood.Base.{
  ℕ, Bool, true, false, Option, none, some, List, [], ◌∷◌, Bytes, ◌≡◌, refl, sym, ap, ap₂, eqb→eq,
  ◌∙◌, arith, Bool-cases, Option-cases, inl, inr, if◌then◌else◌,
}
use somethingremotelygood.Anomaly.Durations.{
  Session, is_connect, is_end, Key, key_of, same, Pending, assign, append_positive, durations_from,
  compute_durations,
}

-- When the session of a key was opened, by the events so far, the latest first: the latest
-- connection or end of that key counts.
unfoldable pub open_since : Key → List Session → Option ℕ
open_since k [] = none
open_since k (s ∷ older) =
    let before = open_since k older in
    if same k (key_of s)
    then (if is_connect s then some s.timestamp else if is_end s then none else before)
    else before

-- The durations by looking back: an end gives the time since its key was opened, if that is open
-- and the time is positive.
unfoldable pub closed_times : List Session → List Session → List ℕ
unfolding open_since
closed_times older [] = []
closed_times older (s ∷ ss) =
    let rest = closed_times (s ∷ older) ss in
    if not_connect (is_connect s) (is_end s)
    then since s.timestamp (open_since (key_of s) older) rest
    else rest
  where
    not_connect : Bool → Bool → Bool
    not_connect true e = false
    not_connect false e = e

    since : ℕ → Option ℕ → List ℕ → List ℕ
    since stop none rest = rest
    since stop (some start) rest = append_positive stop start rest

-- A dict that holds what looking back gives.
pub record Tracks (pending : Pending) (older : List Session) : Type 0 where
  pub at : (k : Key) → pending k ≡ open_since k older

same→eq : (k l : Key) → same k l ≡ true → k ≡ l
same→eq k l h =
    ap₂ (λ (a b : Bytes). (a, b)) (eqb→eq k.0 l.0 (ground arith)) (eqb→eq k.1 l.1 (ground arith))

module _ (pending : Pending) (older : List Session) (s : Session) (h : Tracks pending older) where
  after_connect :
      is_connect s ≡ true → Tracks (assign (key_of s) (some s.timestamp) pending) (s ∷ older)
  unfolding open_since
  after_connect e = record {
    at = λ k. elim (Bool-cases (same k (key_of s))) [
      | inl q ↦ rw (q, e, open_since) refl
      | inr q ↦ rw (q, open_since) (h.at k)
    ];
  }

  after_end :
      is_connect s ≡ false → is_end s ≡ true → Tracks (assign (key_of s) none pending) (s ∷ older)
  unfolding open_since
  after_end e f = record {
    at = λ k. elim (Bool-cases (same k (key_of s))) [
      | inl q ↦ rw (q, e, f, open_since) refl
      | inr q ↦ rw (q, open_since) (h.at k)
    ];
  }

  after_idle_end :
      is_connect s ≡ false
      → is_end s ≡ true
      → pending (key_of s) ≡ none
      → Tracks pending (s ∷ older)
  unfolding open_since
  after_idle_end e f g = record {
    at = λ k. elim (Bool-cases (same k (key_of s))) [
      | inl q ↦ rw (q, e, f, open_since) (ap pending (same→eq k (key_of s) q) ∙ g)
      | inr q ↦ rw (q, open_since) (h.at k)
    ];
  }

  after_other : is_connect s ≡ false → is_end s ≡ false → Tracks pending (s ∷ older)
  unfolding open_since
  after_other e f = record {
    at = λ k. elim (Bool-cases (same k (key_of s))) [
      | inl q ↦ rw (q, e, f, open_since) (h.at k)
      | inr q ↦ rw (q, open_since) (h.at k)
    ];
  }

durations_from-closed_times :
    (pending : Pending) (older ss : List Session)
    → Tracks pending older
    → durations_from pending ss ≡ closed_times older ss
unfolding durations_from closed_times
durations_from-closed_times pending older [] h = refl
durations_from-closed_times pending older (s ∷ ss) h = elim (Bool-cases (is_connect s)) [
  | inl e ↦
      rw (e, durations_from, closed_times)
        (durations_from-closed_times (assign (key_of s) (some s.timestamp) pending) (s ∷ older) ss
          (after_connect pending older s h e))
  | inr e ↦ elim (Bool-cases (is_end s)) [
    | inr f ↦
        rw (e, f, durations_from, closed_times)
          (durations_from-closed_times pending (s ∷ older) ss (after_other pending older s h e f))
    | inl f ↦ elim (Option-cases (pending (key_of s))) [
      | inl g ↦
          rw (e, f, g, sym (h.at (key_of s)) ∙ g, durations_from, closed_times)
            (durations_from-closed_times pending (s ∷ older) ss
              (after_idle_end pending older s h e f g))
      | inr (start, g) ↦
          rw (e, f, g, sym (h.at (key_of s)) ∙ g, durations_from, closed_times)
            (ap (append_positive s.timestamp start) (
              durations_from-closed_times (assign (key_of s) none pending) (s ∷ older) ss
                (after_end pending older s h e f)))
    ]
  ]
]

-- The durations are those found by looking back: every end of a session gives the positive time
-- since the latest event of its key, if that opened the session, and nothing else counts.
pub compute_durations-closed_times :
    (sessions : List Session) → compute_durations sessions ≡ closed_times [] sessions
unfolding compute_durations
compute_durations-closed_times sessions =
    durations_from-closed_times (λ k. none) [] sessions
      (record { at = λ k. unfold open_since in refl })
