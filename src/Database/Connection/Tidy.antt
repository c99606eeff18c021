-- ===== src/Database/Connection/Tidy.antt =====
-- Which connections a call opens, closes and leaves alone.
use somethingremotelygood.Base.{
  ℕ, suc, ◌≤◌, ◌<◌, Bool, true, false, Option, none, some, List, [], ◌∷◌, Bytes, codes, Result,
  Error, ok, runtime_error, Exec, ◌≡◌, ◌≢◌, refl, ◌∙◌, arith, Bool-cases, Result-cases, got, failed,
  ran_out, inl, inr, if◌then◌else◌,
}
use somethingremotelygood.Base.Effects.{pure, raise, lift, ◌>>=◌}
use somethingremotelygood.Base.Effects.Post.{Post, Post-pure, Post-raise, Post-then}
use somethingremotelygood.Database.Bind.{Value}
use somethingremotelygood.Database.Cells.{Cell}
use somethingremotelygood.Database.Connection.{
  Sqlcipher, Store, set_flag, commands, new_connection, call_program, run_sql, execute,
  execute_insert, execute_update, get_connection, with_connection,
}

-- A call that opens and closes no connection.
pub record Steady {q : Sqlcipher} {A : Type 0} (m : Exec (Store q) A) : Type 0 where
  pub same_count : (s : Store q) → (m s).1.created ≡ s.created
  pub same_flags : (s : Store q) → (m s).1.closed ≡ s.closed

module _ {q : Sqlcipher} {A : Type 0} where
  pub Steady-pure : (a : A) → Steady {q = q} (pure a)
  Steady-pure a = record { same_count = λ s. refl; same_flags = λ s. refl }

  pub Steady-raise : (e : Error) → Steady {q = q} {A = A} (raise e)
  Steady-raise e = record { same_count = λ s. refl; same_flags = λ s. refl }

  pub Steady-lift : (r : Result A) → Steady {q = q} (lift r)
  Steady-lift r = record { same_count = λ s. refl; same_flags = λ s. refl }

  pub Steady-if :
      (b : Bool) (m n : Exec (Store q) A) → Steady m → Steady n → Steady (if b then m else n)
  Steady-if true m n km kn = km
  Steady-if false m n km kn = kn

module _ {q : Sqlcipher} {A B : Type 0} where
  bind_count :
      (m : Exec (Store q) A) (f : A → Exec (Store q) B)
      → Steady m
      → ((a : A) → Steady (f a))
      → (s : Store q) → ((m >>= f) s).1.created ≡ s.created
  bind_count m f hm hf s = elim (Result-cases (m s).0) [
    | got (a, e) ↦ rw e ((hf a).same_count (m s).1 ∙ hm.same_count s)
    | failed (x, e) ↦ rw e (hm.same_count s)
    | ran_out e ↦ rw e (hm.same_count s)
  ]

  bind_flags :
      (m : Exec (Store q) A) (f : A → Exec (Store q) B)
      → Steady m
      → ((a : A) → Steady (f a))
      → (s : Store q) → ((m >>= f) s).1.closed ≡ s.closed
  bind_flags m f hm hf s = elim (Result-cases (m s).0) [
    | got (a, e) ↦ rw e ((hf a).same_flags (m s).1 ∙ hm.same_flags s)
    | failed (x, e) ↦ rw e (hm.same_flags s)
    | ran_out e ↦ rw e (hm.same_flags s)
  ]

  pub Steady-bind :
      (m : Exec (Store q) A) (f : A → Exec (Store q) B)
      → Steady m
      → ((a : A) → Steady (f a))
      → Steady (m >>= f)
  Steady-bind m f hm hf = record {
    same_count = bind_count m f hm hf;
    same_flags = bind_flags m f hm hf;
  }

module _ {q : Sqlcipher} where
  Steady-call_program : (input : Bytes) → Steady {q = q} (call_program input)
  Steady-call_program input = record { same_count = λ s. refl; same_flags = λ s. refl }

  run_open : Bytes → Exec (Store q) Bytes
  run_open sql = call_program (commands q.password sql) >>= λ result.
      if result.returncode_zero then pure result.stdout else raise runtime_error

  Steady-run_open : (sql : Bytes) → Steady (run_open sql)
  unfolding run_open
  Steady-run_open sql =
      Steady-bind _ _ (Steady-call_program (commands q.password sql))
        λ result. Steady-if result.returncode_zero _ _ (Steady-pure _) (Steady-raise _)

  Steady-run_sql : (c : ℕ) (sql : Bytes) → Steady {q = q} (run_sql c sql)
  unfolding run_sql run_open
  Steady-run_sql c sql = record {
    same_count = λ s. elim (Bool-cases (s.closed c)) [
      | inl e ↦ rw (e, run_sql) refl
      | inr e ↦ rw (e, run_sql) ((Steady-run_open sql).same_count s)
    ];
    same_flags = λ s. elim (Bool-cases (s.closed c)) [
      | inl e ↦ rw (e, run_sql) refl
      | inr e ↦ rw (e, run_sql) ((Steady-run_open sql).same_flags s)
    ];
  }

  ruleset steady_rules =
      (Steady-pure, Steady-raise, Steady-lift, Steady-if, Steady-bind, Steady-run_sql)

  pub Steady-execute :
      (c : ℕ) (sql : Bytes) (params : List Value) → Steady {q = q} (execute c sql params)
  unfolding execute
  Steady-execute c sql params = search steady_rules depth 9

  pub Steady-execute_insert :
      (c : ℕ) (sql : Bytes) (params : List Value) → Steady {q = q} (execute_insert c sql params)
  unfolding execute_insert
  Steady-execute_insert c sql params = search steady_rules depth 9

  pub Steady-execute_update :
      (c : ℕ) (sql : Bytes) (params : List Value) → Steady {q = q} (execute_update c sql params)
  unfolding execute_update
  Steady-execute_update c sql params = search steady_rules depth 9

  -- A new connection is open, and it is the one that is returned.
  pub record Opened (s : Store q) (r : Result ℕ × Store q) : Type 0 where
    pub one_more : r.1.created ≡ suc s.created
    pub is_open : r.1.closed ≡ set_flag s.closed s.created false
    pub returned : (c : ℕ) → r.0 ≡ ok c → c ≡ s.created

  -- the query that tries the password
  abbrev checked : ℕ → List (List Cell) → Exec (Store q) ℕ
  checked c [] = raise runtime_error
  checked c (r ∷ rs) = pure c

  abbrev try_open : ℕ → Exec (Store q) ℕ
  try_open c = execute c (codes "SELECT count(*) FROM sqlite_master") [] >>= checked c

  Steady-checked : (c : ℕ) (rows : List (List Cell)) → Steady (checked c rows)
  Steady-checked c [] = Steady-raise runtime_error
  Steady-checked c (r ∷ rs) = Steady-pure c

  Post-checked : (c : ℕ) (rows : List (List Cell)) → Post (λ a. a ≡ c) (checked c rows)
  Post-checked c [] = Post-raise runtime_error
  Post-checked c (r ∷ rs) = Post-pure c refl

  get_connection_try : (s : Store q) → get_connection s ≡ try_open s.created (new_connection s).1
  unfolding get_connection new_connection
  get_connection_try s =
      let s1 = (new_connection s).1 in
      elim (Result-cases (execute s.created (codes "SELECT count(*) FROM sqlite_master") [] s1).0) [
        | got (rows, e) ↦ rw e (
            same_checked s.created rows
              (execute s.created (codes "SELECT count(*) FROM sqlite_master") [] s1).1)
        | failed (x, e) ↦ rw e refl
        | ran_out e ↦ rw e refl
      ]
    where
      same_checked :
          (c : ℕ) (rows : List (List Cell)) (s : Store q)
          → (elim rows as (λ rows. Exec (Store q) ℕ) [ [] ↦ raise runtime_error | r ∷ rs ↦ pure c ])
              s
            ≡ checked c rows s
      same_checked c [] s = refl
      same_checked c (r ∷ rs) s = refl

  get_connection-Opened : (s : Store q) → Opened s (get_connection s)
  unfolding new_connection
  get_connection-Opened s =
      let k : Steady (try_open s.created) =
        Steady-bind _ _ (Steady-execute s.created (codes "SELECT count(*) FROM sqlite_master") [])
          (Steady-checked s.created) in
      let s1 = (new_connection s).1 in
      rw (get_connection_try s) (record {
        one_more = k.same_count s1;
        is_open = k.same_flags s1;
        returned =
            (Post-then (execute s.created (codes "SELECT count(*) FROM sqlite_master") [])
                (checked s.created) (Post-checked s.created)).at
              s1;
      })

-- A call that leaves the connections before it alone and closes those that it opens, whether it
-- returns or raises, unless opening one fails.
pub record Tidy {q : Sqlcipher} {A : Type 0} (m : Exec (Store q) A) : Type 0 where
  pub leaves_older : (s : Store q) (n : ℕ) → n < s.created → (m s).1.closed n ≡ s.closed n
  pub closes_own :
      (s : Store q) (c n : ℕ)
      → (get_connection s).0 ≡ ok c
      → s.created ≤ n
      → n < (m s).1.created
      → (m s).1.closed n ≡ true

module _ {q : Sqlcipher} {A : Type 0} where
  Steady-Tidy : (m : Exec (Store q) A) → Steady m → Tidy m
  Steady-Tidy m k = record {
    leaves_older = λ s n h. rw (k.same_flags s) refl;
    closes_own = λ s c n e h h'. absurd (omega (arith, k.same_count s));
  }

  module _ (body : ℕ → Exec (Store q) A) (k : (c : ℕ) → Steady (body c)) where
    own_opened :
        (s : Store q) (c : ℕ)
        → (get_connection s).0 ≡ ok c
        → ((with_connection none body s).1.closed
            ≡ set_flag (set_flag s.closed s.created false) s.created true)
          × ((with_connection none body s).1.created ≡ suc s.created)
    unfolding with_connection
    own_opened s c e =
        let o = get_connection-Opened s in
        rw (e, with_connection)
          (
            rw ((k c).same_flags (get_connection s).1, o.is_open, o.returned c e) refl,
            (k c).same_count (get_connection s).1 ∙ o.one_more,
          )

    own_failed :
        (s : Store q)
        → ((c : ℕ) → (get_connection s).0 ≢ ok c)
        → (with_connection none body s).1 ≡ (get_connection s).1
    unfolding with_connection
    own_failed s h = elim (Result-cases (get_connection s).0) [
      | got (c, e) ↦ absurd (h c e)
      | failed (x, e) ↦ rw (e, with_connection) refl
      | ran_out e ↦ rw (e, with_connection) refl
    ]

    own_older :
        (s : Store q) (n : ℕ)
        → n < s.created
        → (with_connection none body s).1.closed n ≡ s.closed n
    own_older s n h = elim (Result-cases (get_connection s).0) [
      | got (c, e) ↦ rw (own_opened s c e).0 (ground arith)
      | failed (x, e) ↦
          rw (own_failed s (λ c q. cc), (get_connection-Opened s).is_open) (ground arith)
      | ran_out e ↦ rw (own_failed s (λ c q. cc), (get_connection-Opened s).is_open) (ground arith)
    ]

    own_closed :
        (s : Store q) (c n : ℕ)
        → (get_connection s).0 ≡ ok c
        → s.created ≤ n
        → n < (with_connection none body s).1.created
        → (with_connection none body s).1.closed n ≡ true
    own_closed s c n e h h' =
        let same : n ≡ s.created = omega (arith, (own_opened s c e).1) in
        rw ((own_opened s c e).0, same) (ground arith)

    own_Tidy : Tidy (with_connection none body)
    own_Tidy = record { leaves_older = own_older; closes_own = own_closed }

    pub with_connection-Tidy : (conn : Option ℕ) → Tidy (with_connection conn body)
    unfolding with_connection
    with_connection-Tidy none = own_Tidy
    with_connection-Tidy (some c) = Steady-Tidy (body c) (k c)
