-- ===== src/Generators/Baseline/Hours.antt =====
-- The hours that are drawn for a baseline.
use somethingremotelygood.Base.{
  ℕ, zero, suc, ◌≤◌, ◌<◌, Bool, true, false, List, [], ◌++◌, ok, leb, ◌≡◌, refl, sym, ◌∙◌, ◌⊎◌, inl,
  inr, Bool-cases, arith, append-nil,
}
use somethingremotelygood.Generators.Host.{Host}
use somethingremotelygood.Generators.Writes.{Event, Table, Writes, Writes-weaken, Writes-draw}
use somethingremotelygood.Generators.Baseline.{Window, wraps_round, draw_wrapped, draw_hour}

-- Between the hours of the window, over midnight if its last hour is before its first.
abbrev pub InWindow : Window → ℕ → Type 0
InWindow window hour =
    ((window.first ≤ hour) × (hour ≤ window.last))
    ⊎ ((window.last < window.first) × ((window.first ≤ hour) ⊎ (hour ≤ window.last)))

-- In each state, fewer than `draws` draws from 0 to 23 miss the window before one hits it.
pub record Lucky (h : Host) (draws : ℕ) : Type 0 where
  pub misses : Window → h.World → ℕ
  pub few : (window : Window) (w : h.World) → misses window w < draws
  pub hit :
      (window : Window) (w : h.World) (hour : ℕ)
      → misses window w ≡ 0
      → (h.randint 0 23 w).0 ≡ ok hour
      → wraps_round window hour ≡ true
  pub miss :
      (window : Window) (w : h.World) (k : ℕ)
      → misses window w ≡ suc k
      → misses window (h.randint 0 23 w).1 ≡ k

zero_or_suc : (n : ℕ) → (n ≡ 0) ⊎ ((k : ℕ) × (n ≡ suc k))
zero_or_suc zero = inl refl
zero_or_suc (suc k) = inr (k, refl)

either :
    (window : Window) (hour : ℕ)
    → wraps_round window hour ≡ true
    → (window.first ≤ hour) ⊎ (hour ≤ window.last)
unfolding wraps_round
either window hour e = elim (Bool-cases (leb window.first hour)) [
  | inl q ↦ inl (ground arith)
  | inr q ↦ inr (ground arith)
]

not_both : {b : Bool} → b ≡ true → b ≡ false → ⊥
not_both e q = cc

module _ {h : Host} (t : Table h) where
  -- the loop finds an hour and adds no rows
  abbrev Finds : ℕ → Window → h.World → Type 0
  Finds draws window w =
      (hour : ℕ) × ((draw_wrapped h draws window w).0 ≡ ok hour)
      × (t.rows (draw_wrapped h draws window w).1 ≡ t.rows w)
      × (wraps_round window hour ≡ true)

  module _ {most : ℕ} (l : Lucky h most) (window : Window) where
    fewer_misses :
        (draws : ℕ) (w : h.World) (hour : ℕ)
        → (h.randint 0 23 w).0 ≡ ok hour
        → wraps_round window hour ≡ false
        → l.misses window w < suc draws
        → l.misses window (h.randint 0 23 w).1 < draws
    fewer_misses draws w hour e q lt = elim (zero_or_suc (l.misses window w)) [
      | inl z ↦ absurd (not_both (l.hit window w hour z e) q)
      | inr (k, z) ↦ (let left = l.miss window w k z in omega arith)
    ]

    wrapped_next :
        (draws : ℕ) (w : h.World) (hour : ℕ)
        → (h.randint 0 23 w).0 ≡ ok hour
        → l.misses window w < suc draws
        → (l.misses window (h.randint 0 23 w).1 < draws → Finds draws window (h.randint 0 23 w).1)
        → Finds (suc draws) window w
    unfolding draw_wrapped
    wrapped_next draws w hour e lt next = elim (Bool-cases (wraps_round window hour)) [
      | inl q ↦ (hour, rw (e, q) refl, rw (e, q) (t.draw_keeps 0 23 w), q)
      | inr q ↦
          let (again, found, kept, hit) = next (fewer_misses draws w hour e q lt) in
          (again, rw (e, q) found, rw (e, q) (kept ∙ t.draw_keeps 0 23 w), hit)
    ]

    wrapped-Finds : (draws : ℕ) (w : h.World) → l.misses window w < draws → Finds draws window w
    wrapped-Finds zero w lt = absurd (omega arith)
    wrapped-Finds (suc draws) w lt =
        let (hour, e, bounds) = t.draws 0 23 w (omega arith) in
        wrapped_next draws w hour e lt (λ less. wrapped-Finds draws (h.randint 0 23 w).1 less)

  pub Writes-draw_hour :
      {most : ℕ} (l : Lucky h most) (window : Window)
      → Writes t (λ hour es. (es ≡ []) × InWindow window hour) (draw_hour h most window)
  unfolding draw_hour
  Writes-draw_hour {most} l window = elim (Bool-cases (leb window.first window.last)) [
    | inl e ↦ rw e (
        Writes-weaken _ _ (Writes-draw window.first window.last (ground arith))
          λ hour es q. (q.0, inl q.1))
    | inr e ↦ rw e (record { at = λ w. found w (wrapped-Finds l window most w (l.few window w)) e })
  ]
    where
      found :
          (w : h.World)
          → Finds most window w
          → leb window.first window.last ≡ false
          → (hour : ℕ) × (es : List Event) × ((draw_wrapped h most window w).0 ≡ ok hour)
            × (t.rows (draw_wrapped h most window w).1 ≡ t.rows w ++ es)
            × ((es ≡ []) × InWindow window hour)
      found w (hour, e, kept, hit) q = (
        hour,
        [],
        e,
        kept ∙ sym (append-nil (t.rows w)),
        (refl, inr (ground arith, either window hour hit)),
      )
