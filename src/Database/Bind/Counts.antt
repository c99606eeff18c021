-- ===== src/Database/Bind/Counts.antt =====
-- As many parameters as marks.
use somethingremotelygood.Base.{
  ℕ, suc, ◌≤◌, ◌<◌, true, false, List, [], ◌∷◌, ◌++◌, Bytes, length, ok, raised, stop_iteration,
  ◌≡◌, refl, arith, ◌==◌, Bool-cases, inl, inr, if◌then◌else◌,
}
use somethingremotelygood.Database.Bind.{Value, mark, literal, bind_params}

-- The number of marks in a text.
unfoldable pub marks : Bytes → ℕ
marks [] = 0
marks (c ∷ sql) = let n = marks sql in if c == mark then suc n else n

module _ (c : ℕ) (sql : Bytes) where
  pub bind_params_taken :
      (v : Value) (vs : List Value) (b : Bytes)
      → c == mark ≡ true
      → bind_params sql vs ≡ ok b
      → bind_params (c ∷ sql) (v ∷ vs) ≡ ok (literal v ++ b)
  unfolding bind_params
  bind_params_taken v vs b e q = rw (e, bind_params) (rw q refl)

  pub bind_params_kept :
      (vs : List Value) (b : Bytes)
      → c == mark ≡ false
      → bind_params sql vs ≡ ok b
      → bind_params (c ∷ sql) vs ≡ ok (c ∷ b)
  unfolding bind_params
  bind_params_kept vs b e q = rw (e, bind_params) (rw q refl)

  bind_params_none : c == mark ≡ true → bind_params (c ∷ sql) [] ≡ raised stop_iteration
  unfolding bind_params
  bind_params_none e = rw (e, bind_params) refl

  bind_params_taken_raised :
      (v : Value) (vs : List Value)
      → c == mark ≡ true
      → bind_params sql vs ≡ raised stop_iteration
      → bind_params (c ∷ sql) (v ∷ vs) ≡ raised stop_iteration
  unfolding bind_params
  bind_params_taken_raised v vs e q = rw (e, bind_params) (rw q refl)

  bind_params_kept_raised :
      (vs : List Value)
      → c == mark ≡ false
      → bind_params sql vs ≡ raised stop_iteration
      → bind_params (c ∷ sql) vs ≡ raised stop_iteration
  unfolding bind_params
  bind_params_kept_raised vs e q = rw (e, bind_params) (rw q refl)

  pub marks_taken : c == mark ≡ true → marks (c ∷ sql) ≡ suc (marks sql)
  unfolding marks
  marks_taken e = rw e refl

  pub marks_kept : c == mark ≡ false → marks (c ∷ sql) ≡ marks sql
  unfolding marks
  marks_kept e = rw e refl

-- Binding gives a text if there are as many parameters as marks or more, and raises StopIteration
-- if there are fewer.
pub bind_params-marks :
    (sql : Bytes) (params : List Value)
    → (marks sql ≤ length params → (b : Bytes) × (bind_params sql params ≡ ok b))
      × (length params < marks sql → bind_params sql params ≡ raised stop_iteration)
bind_params-marks [] params =
    (λ h. ([], unfold bind_params in refl), λ h. absurd (unfold marks in omega arith))
bind_params-marks (c ∷ sql) [] = elim (Bool-cases (c == mark)) [
  | inl e ↦ rw (marks_taken c sql e) (λ h. absurd (omega arith), λ h. bind_params_none c sql e)
  | inr e ↦ rw (marks_kept c sql e) (
    λ h. let (b, q) = (bind_params-marks sql []).0 h in (c ∷ b, bind_params_kept c sql [] b e q),
    λ h. bind_params_kept_raised c sql [] e ((bind_params-marks sql []).1 h),
  )
]
bind_params-marks (c ∷ sql) (v ∷ vs) = elim (Bool-cases (c == mark)) [
  | inl e ↦ rw (marks_taken c sql e) (
    λ h.
        let (b, q) = (bind_params-marks sql vs).0 (omega arith) in
        (literal v ++ b, bind_params_taken c sql v vs b e q),
    λ h. bind_params_taken_raised c sql v vs e ((bind_params-marks sql vs).1 (omega arith)),
  )
  | inr e ↦ rw (marks_kept c sql e) (
    λ h.
        let (b, q) = (bind_params-marks sql (v ∷ vs)).0 h in
        (c ∷ b, bind_params_kept c sql (v ∷ vs) b e q),
    λ h. bind_params_kept_raised c sql (v ∷ vs) e ((bind_params-marks sql (v ∷ vs)).1 h),
  )
]
