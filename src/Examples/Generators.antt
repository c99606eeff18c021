-- ===== src/Examples/Generators.antt =====
-- The generators with a table that is the list of its rows, where each draw gives its lower bound.
use somethingremotelygood.Base.{
  ℕ, true, false, none, List, [], ◌∷◌, ◌++◌, codes, length, eqb, Result, ok, ◌≡◌, refl, sym, arith,
  if◌then◌else◌,
}
use somethingremotelygood.Generators.Integers.{pos, negsuc, clamp}
use somethingremotelygood.Generators.Host.{Host}
use somethingremotelygood.Generators.Sessions.{insert_session, start_time}
use somethingremotelygood.Generators.Writes.{Event, Table}
use somethingremotelygood.Generators.Baseline.{Window, usual_window, wraps_round, generate_baseline}
use somethingremotelygood.Generators.Baseline.Hours.{Lucky}
use somethingremotelygood.Generators.Baseline.Rows.{UsualDays, generate_baseline-UsualDays}
use somethingremotelygood.Generators.TestData.{user_name, test_ssh, history_text}

abbrev host : Host
host = record {
  World = List Event;
  homes_dir = codes "/homes";
  now = λ w. 1000000;
  local_hour = λ z w. 22;
  randint = λ a b w. (ok a, w);
  int_gauss = λ m s w. (ok (pos 2), w);
  urandom = λ n w. (ok [], w);
  choices = λ xs n w. (ok xs, w);
  shuffle = λ xs w. (ok xs, w);
  connect = λ w. (ok tt, w);
  execute = λ sql params w. (ok [], w);
  execute_update =
      λ sql params w. (ok tt, if eqb sql insert_session then w ++ (params ∷ []) else w);
  close = λ w. w;
  make_dirs = λ p w. (ok tt, w);
  write_text = λ p s w. (ok tt, w);
  path_exists = λ p w. true;
  list_dir = λ p w. (ok (codes "test_testuser0" ∷ []), w);
  remove_tree = λ p w. (ok tt, w);
}

abbrev table : Table host
table = record {
  rows = λ w. w;
  inserts = λ params w. refl;
  inserted = λ params w. refl;
  draws = λ a b w le. (a, refl, (omega arith, le));
  draw_keeps = λ a b w. refl;
  gauss_draws = λ m s w. (pos 2, refl);
  gauss_keeps = λ m s w. refl;
  connects = λ w. refl;
  connect_keeps = λ w. refl;
  selects = λ sql params w. ([], refl);
  select_keeps = λ sql params w. refl;
  close_keeps = λ w. refl;
}

-- the hour 0 lies in each window that wraps round midnight
lowest :
    (window : Window) (hour : ℕ)
    → ◌≡◌ {A = Result ℕ} (ok 0) (ok hour)
    → wraps_round window hour ≡ true
unfolding wraps_round
lowest window hour e = let same : 0 ≡ hour = cc in rw (sym same) (ground arith)

host-Lucky : Lucky host 1
host-Lucky = record {
  misses = λ window w. 0;
  few = λ window w. omega arith;
  hit = λ window w hour q e. lowest window hour e;
  miss = λ window w k e. absurd (cc);
}

names :
    (user_name 12 ≡ codes "testuser12")
    × (length (test_ssh 7) ≡ 91)
    × (history_text (codes "a" ∷ codes "b" ∷ []) ≡ codes "a\nb\n")
    × (history_text [] ≡ codes "\n")
unfolding user_name test_ssh history_text
names = (refl, refl, refl, refl)

-- 26 hours before 30 hours after 1970
times : (start_time 108000 1 3 60 ≡ pos 32460) × (start_time 0 1 3 60 ≡ negsuc 75539)
unfolding start_time
times = (refl, refl)

clamps : (clamp 600 5400 (negsuc 7) ≡ 600) × (clamp 600 5400 (pos 9000) ≡ 5400)
clamps = (refl, refl)

-- two sessions for each of two days
two_days : length (generate_baseline host 1 (codes "u") none 2 (pos 2) false []).1 ≡ 12
unfolding generate_baseline
two_days = refl

generate_baseline-UsualDays_example :
    let (result, w') = generate_baseline host 1 (codes "u") none 2 (pos 2) false [] in
    (total : ℕ) × (es : List Event) × (result ≡ ok total)
    × (w' ≡ [] ++ es)
    × UsualDays (codes "u") (codes "u") 1000000 (usual_window host []) 2 total es
generate_baseline-UsualDays_example =
    generate_baseline-UsualDays table host-Lucky (codes "u") none 2 (pos 2) []
