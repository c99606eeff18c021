-- ===== src/Anomaly/Run/Inserts.antt =====
-- The reports that a run saves.
use somethingremotelygood.Base.{
  ℕ, suc, ◌+◌, Bool, true, false, Option, none, some, List, [], ◌∷◌, Bytes, ok, Exec, ◌≡◌, refl,
  sym, ap, ◌∙◌, arith, Result-cases, got, failed, ran_out, Option-cases, inl, inr,
}
use somethingremotelygood.Base.Effects.Same.{Same, Same-pure, Same-gets, Same-bind}
use somethingremotelygood.Base.Effects.{pure, ◌>>=◌}
use somethingremotelygood.Anomaly.Arithmetic.{Arithmetic}
use somethingremotelygood.Anomaly.Analysis.{Report, Anomaly}
use somethingremotelygood.Anomaly.Run.{
  Records, Options, analyze_user, save, detect_users, chosen_users, detect,
}

-- How many reports the database holds: only an insertion changes it, by one if it returns.
pub record Counted {a : Arithmetic} (d : Records a) : Type 0 where
  pub reports : d.World → ℕ
  pub connect_keeps : (w : d.World) → reports (d.connect w).1 ≡ reports w
  pub close_keeps : (w : d.World) → reports (d.close w) ≡ reports w
  pub sessions_keep :
      (u : Bytes) (t : ℕ) (w : d.World) → reports (d.get_sessions u t w).1 ≡ reports w
  pub users_keep : (w : d.World) → reports (d.get_all_users w).1 ≡ reports w
  pub insert_counts :
      (r : Report) (xs : List (Anomaly a)) (w : d.World)
      → (d.insert_report r xs w).0 ≡ ok tt
      → reports (d.insert_report r xs w).1 ≡ suc (reports w)

module _ {W A : Type 0} (size : W → ℕ) where
  -- if the call returns, the number has grown by what `f` says of its value
  pub record Grows (f : A → ℕ) (m : Exec W A) : Type 0 where
    pub at : (w : W) (x : A) → (m w).0 ≡ ok x → size (m w).1 ≡ size w + f x

module _ {W A B : Type 0} {size : W → ℕ} where
  -- a first call that changes nothing
  Grows-after :
      (g : B → ℕ) (m : Exec W A) (f : A → Exec W B)
      → Same size m
      → ((x : A) → Grows size g (f x))
      → Grows size g (m >>= f)
  Grows-after g m f hm hf = record {
    at = λ w. elim (Result-cases (m w).0) [
      | got (x, e) ↦ rw e (λ y h. omega (arith, (hf x).at (m w).1 y h, hm.at w))
      | failed (x, e) ↦ rw e (λ y h. cc)
      | ran_out e ↦ rw e (λ y h. cc)
    ];
  }

module _ {a : Arithmetic} {d : Records a} (c : Counted d) (window_days : ℕ)
    (threshold : a.Float) where
  Same-get_sessions : (u : Bytes) (t : ℕ) → Same c.reports (d.get_sessions u t)
  Same-get_sessions u t = record { at = c.sessions_keep u t }

  Same-analyze_user :
      (user_id : Bytes) → Same c.reports (analyze_user d window_days threshold user_id)
  unfolding analyze_user
  Same-analyze_user user_id = search (Same-bind, Same-pure, Same-gets, Same-get_sessions) depth 9

  -- One user with a report.
  abbrev found_one : Bool → List Bytes → Report × List (Anomaly a) → Exec d.World ℕ
  found_one dry users r = save d window_days threshold dry r.0 r.1 >>= λ u.
      detect_users d window_days threshold dry users >>= λ n. pure (suc n)

  abbrev go_on : Bool → List Bytes → Option (Report × List (Anomaly a)) → Exec d.World ℕ
  go_on dry users none = detect_users d window_days threshold dry users
  go_on dry users (some r) = found_one dry users r

  detect_users_step :
      (dry : Bool) (u : Bytes) (users : List Bytes) (w : d.World)
      → detect_users d window_days threshold dry (u ∷ users) w
        ≡ (analyze_user d window_days threshold u >>= go_on dry users) w
  unfolding detect_users
  detect_users_step dry u users w =
      elim (Result-cases (analyze_user d window_days threshold u w).0) [
        | got (o, e) ↦ elim (Option-cases o) [
          | inl n ↦ rw (e, n) refl
          | inr (r, n) ↦ rw (e, n) refl
        ]
        | failed (x, e) ↦ rw e refl
        | ran_out e ↦ rw e refl
      ]

  -- how far the number of reports grows with the number found
  abbrev pub growth : Bool → ℕ → ℕ
  growth true n = 0
  growth false n = n

  save-growth :
      (dry : Bool) (r : Report) (xs : List (Anomaly a)) (w : d.World)
      → (save d window_days threshold dry r xs w).0 ≡ ok tt
      → c.reports (save d window_days threshold dry r xs w).1 ≡ c.reports w + growth dry 1
  unfolding save
  save-growth true r xs w e = omega arith
  save-growth false r xs w e = omega (arith, c.insert_counts r xs w e)

  growth-suc : (dry : Bool) (n : ℕ) → growth dry (suc n) ≡ growth dry 1 + growth dry n
  growth-suc true n = refl
  growth-suc false n = omega arith

  growth-zero : (dry : Bool) → growth dry 0 ≡ 0
  growth-zero true = refl
  growth-zero false = refl

  found-Grows :
      (dry : Bool) (users : List Bytes) (r : Report × List (Anomaly a))
      → Grows c.reports (growth dry) (detect_users d window_days threshold dry users)
      → Grows c.reports (growth dry) (found_one dry users r)
  found-Grows dry users r h = record {
    at = λ w x.
        (let w1 = (save d window_days threshold dry r.0 r.1 w).1 in
          elim (Result-cases (save d window_days threshold dry r.0 r.1 w).0) [
            | got (u, e) ↦
                elim (Result-cases (detect_users d window_days threshold dry users w1).0) [
                  | got (n, q) ↦
                      rw (e, q)
                        (λ same.
                          (let x_is : suc n ≡ x = ground arith in
                            rw (sym x_is) (
                              omega (
                                arith,
                                h.at w1 n q,
                                save-growth dry r.0 r.1 w e,
                                growth-suc dry n,
                              ))))
                  | failed (y, q) ↦ rw (e, q) (λ same. cc)
                  | ran_out q ↦ rw (e, q) (λ same. cc)
                ]
            | failed (y, e) ↦ rw e (λ same. cc)
            | ran_out e ↦ rw e (λ same. cc)
          ]);
  }

  Grows-detect_users :
      (dry : Bool) (users : List Bytes)
      → Grows c.reports (growth dry) (detect_users d window_days threshold dry users)
  unfolding detect_users
  Grows-detect_users dry [] = record {
    at = λ w x h.
        (let x_is : ◌≡◌ {A = ℕ} 0 x = ground arith in
          rw (sym x_is) (omega (arith, growth-zero dry)));
  }
  Grows-detect_users dry (u ∷ users) = record {
    at = λ w. rw (detect_users_step dry u users w) (
        (Grows-after (growth dry) (analyze_user d window_days threshold u) (go_on dry users)
            (Same-analyze_user u) (λ o. next dry users (Grows-detect_users dry users) o)).at
          w);
  }
    where
      next :
          (dry : Bool) (users : List Bytes)
          → Grows c.reports (growth dry) (detect_users d window_days threshold dry users)
          → (o : Option (Report × List (Anomaly a)))
          → Grows c.reports (growth dry) (go_on dry users o)
      next dry users h none = h
      next dry users h (some r) = found-Grows dry users r h

  Same-chosen_users : (o : Option Bytes) → Same c.reports (chosen_users d window_days threshold o)
  unfolding chosen_users
  Same-chosen_users none = record { at = c.users_keep }
  Same-chosen_users (some []) = record { at = c.users_keep }
  Same-chosen_users (some (b ∷ s)) = Same-pure ((b ∷ s) ∷ [])

  -- A run that returns has saved as many reports as it counts, and none at all in a dry run.
  pub detect-reports :
      (args : Options) (w : d.World) (found : ℕ)
      → (detect d window_days threshold args w).0 ≡ ok found
      → c.reports (detect d window_days threshold args w).1
        ≡ c.reports w + growth args.dry_run found
  unfolding detect
  detect-reports args w found = elim (Result-cases (d.connect w).0) [
    | got (u, e) ↦ rw e (λ h.
        (let w1 = (d.connect w).1 in
          let body : Exec d.World ℕ =
            chosen_users d window_days threshold args.user
            >>= detect_users d window_days threshold args.dry_run in
          c.close_keeps (body w1).1
          ∙ (Grows-after (growth args.dry_run) (chosen_users d window_days threshold args.user)
                (detect_users d window_days threshold args.dry_run) (Same-chosen_users args.user)
                (Grows-detect_users args.dry_run)).at
              w1 found h
          ∙ ap (λ n. n + growth args.dry_run found) (c.connect_keeps w)))
    | failed (x, e) ↦ rw e (λ h. cc)
    | ran_out e ↦ rw e (λ h. cc)
  ]
