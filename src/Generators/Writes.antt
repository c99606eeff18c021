-- ===== src/Generators/Writes.antt =====
-- The rows that a script adds to the table of the sessions when no call fails, one rule for each way
-- to build a call.
use somethingremotelygood.Base.{
  ℕ, ◌≤◌, List, [], ◌∷◌, ◌++◌, Bytes, codes, ok, Exec, ◌≡◌, refl, sym, ap, ◌∙◌, append_assoc,
  append-nil,
}
use somethingremotelygood.Base.Effects.{pure, ◌>>=◌}
use somethingremotelygood.Database.Bind.{Value}
use somethingremotelygood.Database.Connection.{finally}
use somethingremotelygood.Database.Cells.{Cell}
use somethingremotelygood.Generators.Integers.{ℤ, add}
use somethingremotelygood.Generators.Host.{Host}
use somethingremotelygood.Generators.Sessions.{
  insert_session, row_params, insert_event, insert_visit,
}

-- A row of the table: its four values.
abbrev pub Event : Type 0
Event = List Value

-- What the scripts rely on: no call fails, INSERT adds its row at the end of the table, and `randint`
-- gives a number between its bounds and leaves the table as it is.
pub record Table (h : Host) : Type 0 where
  pub rows : h.World → List Event
  pub inserts :
      (params : List Value) (w : h.World) → (h.execute_update insert_session params w).0 ≡ ok tt
  pub inserted :
      (params : List Value) (w : h.World)
      → rows (h.execute_update insert_session params w).1 ≡ rows w ++ (params ∷ [])
  pub draws :
      (a b : ℕ) (w : h.World) → a ≤ b → (n : ℕ) × ((h.randint a b w).0 ≡ ok n) × ((a ≤ n) × (n ≤ b))
  pub draw_keeps : (a b : ℕ) (w : h.World) → rows (h.randint a b w).1 ≡ rows w
  pub gauss_draws : (m : ℤ) (s : ℕ) (w : h.World) → (z : ℤ) × ((h.int_gauss m s w).0 ≡ ok z)
  pub gauss_keeps : (m : ℤ) (s : ℕ) (w : h.World) → rows (h.int_gauss m s w).1 ≡ rows w
  pub connects : (w : h.World) → (h.connect w).0 ≡ ok tt
  pub connect_keeps : (w : h.World) → rows (h.connect w).1 ≡ rows w
  pub selects :
      (sql : Bytes) (params : List Value) (w : h.World)
      → (found : List (List Cell)) × ((h.execute sql params w).0 ≡ ok found)
  pub select_keeps :
      (sql : Bytes) (params : List Value) (w : h.World) → rows (h.execute sql params w).1 ≡ rows w
  pub close_keeps : (w : h.World) → rows (h.close w) ≡ rows w

-- A call returns a value and adds rows, with `V` for both.
pub record Writes {h : Host} (t : Table h) {A : Type 0} (V : A → List Event → Type 0)
    (m : Exec h.World A) : Type 0 where
  pub at :
      (w : h.World)
      → (a : A) × (es : List Event) × ((m w).0 ≡ ok a) × (t.rows (m w).1 ≡ t.rows w ++ es) × V a es

module _ {h : Host} {t : Table h} where
  pub Writes-pure :
      {A : Type 0} {V : A → List Event → Type 0} (a : A) → V a [] → Writes t V (pure a)
  Writes-pure a v = record { at = λ w. (a, [], refl, sym (append-nil (t.rows w)), v) }

  pub Writes-bind :
      {A B : Type 0} {V : B → List Event → Type 0} (U : A → List Event → Type 0)
      (m : Exec h.World A) (f : A → Exec h.World B)
      → Writes t U m
      → ((a : A) (es : List Event) → U a es → Writes t (λ b fs. V b (es ++ fs)) (f a))
      → Writes t V (m >>= f)
  Writes-bind U m f hm hf = record {
    at = λ w.
        let (a, es, e, q, u) = hm.at w in
        let (b, fs, e', q', v) = (hf a es u).at (m w).1 in
        (
          b,
          es ++ fs,
          rw e e',
          rw e (q' ∙ ap (λ xs. xs ++ fs) q ∙ append_assoc (t.rows w) es fs),
          v,
        );
  }

  pub Writes-weaken :
      {A : Type 0} {V : A → List Event → Type 0} (U : A → List Event → Type 0) (m : Exec h.World A)
      → Writes t U m
      → ((a : A) (es : List Event) → U a es → V a es)
      → Writes t V m
  Writes-weaken U m hm k = record {
    at = λ w. let (a, es, e, q, u) = hm.at w in (a, es, e, q, k a es u);
  }

  -- a call that adds no rows
  pub Writes-draw :
      (a b : ℕ) → a ≤ b → Writes t (λ n es. (es ≡ []) × ((a ≤ n) × (n ≤ b))) (h.randint a b)
  Writes-draw a b le = record {
    at = λ w.
        let (n, e, bounds) = t.draws a b w le in
        (n, [], e, t.draw_keeps a b w ∙ sym (append-nil (t.rows w)), (refl, bounds));
  }

  pub Writes-gauss : (m : ℤ) (s : ℕ) → Writes t (λ z es. es ≡ []) (h.int_gauss m s)
  Writes-gauss m s = record {
    at = λ w.
        let (z, e) = t.gauss_draws m s w in
        (z, [], e, t.gauss_keeps m s w ∙ sym (append-nil (t.rows w)), refl);
  }

  pub Writes-connect : Writes t (λ u es. es ≡ []) h.connect
  Writes-connect = record {
    at = λ w. (tt, [], t.connects w, t.connect_keeps w ∙ sym (append-nil (t.rows w)), refl);
  }

  pub Writes-execute :
      (sql : Bytes) (params : List Value) → Writes t (λ found es. es ≡ []) (h.execute sql params)
  Writes-execute sql params = record {
    at = λ w.
        let (found, e) = t.selects sql params w in
        (found, [], e, t.select_keeps sql params w ∙ sym (append-nil (t.rows w)), refl);
  }

  pub Writes-close :
      {A : Type 0} {V : A → List Event → Type 0} (m : Exec h.World A)
      → Writes t V m
      → Writes t V (finally m h.close)
  Writes-close m hm = record {
    at = λ w. let (a, es, e, q, v) = hm.at w in (a, es, e, t.close_keeps (m w).1 ∙ q, v);
  }

module _ (user_id container_id : Bytes) where
  abbrev pub event : Bytes → ℤ → Event
  event event_type ts = row_params user_id container_id event_type ts

  -- the rows of one session
  abbrev pub visit : ℤ → ℕ → ℕ → List Event
  visit ts gap duration =
      event (codes "auth_ok") ts
      ∷ event (codes "ssh_connected") (add ts gap)
      ∷ event (codes "ssh_disconnected") (add (add ts gap) duration)
      ∷ []

module _ {h : Host} (t : Table h) (user_id container_id : Bytes) where
  pub Writes-insert_event :
      (event_type : Bytes) (ts : ℤ)
      → Writes t
          (λ u es. es ≡ event user_id container_id event_type ts ∷ [])
          (insert_event h user_id container_id event_type ts)
  unfolding insert_event
  Writes-insert_event event_type ts = record {
    at = λ w. (
      tt,
      event user_id container_id event_type ts ∷ [],
      t.inserts (row_params user_id container_id event_type ts) w,
      t.inserted (row_params user_id container_id event_type ts) w,
      refl,
    );
  }

  pub Writes-insert_visit :
      (ts : ℤ) (gap duration : ℕ)
      → Writes t
          (λ u es. es ≡ visit user_id container_id ts gap duration)
          (insert_visit h user_id container_id ts gap duration)
  unfolding insert_visit
  Writes-insert_visit ts gap duration =
      Writes-bind _ _ _ (Writes-insert_event (codes "auth_ok") ts) λ _ xs p.
        Writes-bind _ _ _ (Writes-insert_event (codes "ssh_connected") (add ts gap)) λ _ ys q.
          Writes-weaken _ _
            (Writes-insert_event (codes "ssh_disconnected") (add (add ts gap) duration))
            λ _ zs r. rw (p, q, r) refl
