-- ===== src/Examples/CommandAnalysis.antt =====
-- The analysis on a machine that is only the counts of what it holds.
use somethingremotelygood.Base.{
  Bool, true, false, none, some, [], ◌∷◌, Bytes, codes, Result, ok, ap, ◌≡◌, ◌⊎◌, refl,
}
use somethingremotelygood.CommandAnalysis.Machine.{
  join, Machine, Command, list_loops, Output, mount_device,
}
use somethingremotelygood.CommandAnalysis.Volume.{mount_point, mount_volume}
use somethingremotelygood.CommandAnalysis.Volume.Resources.{
  Held, has, erase, effect, Resources, Releases, IsMounted, mount_volume-held,
}
use somethingremotelygood.CommandAnalysis.Machine.{AnomalyReport}
use somethingremotelygood.CommandAnalysis.Analyze.{analyze_with_key}
use somethingremotelygood.CommandAnalysis.Analyze.Unmounts.{
  Aside, Unmounts, mounts_left, analyze_with_key-mounts,
}

-- what losetup -j and losetup --show print
abbrev printed : Command → Bytes
printed (list_loops img) = codes "/dev/loop0: [2049]:12 (/homes/c1.img)\n"
printed _ = codes "/dev/loop0\n"

abbrev loop_output : Command → Bool → Output
loop_output c b = record { returncode_zero = b; stdout = printed c }

abbrev machine : (Command → Bool) → Machine
machine works = record {
  World = Held;
  homes_dir = codes "/homes";
  model_name = codes "model";
  run = λ c h. (ok (loop_output c (works c)), effect c (loop_output c (works c)) h);
  path_exists = λ p h. true;
  is_mount = λ p h. has p h.mounts;
  is_dir = λ p h. false;
  make_dirs = λ p h. (ok tt, h);
  make_temp = λ h. (ok (codes "/tmp/key"), record h { keys = codes "/tmp/key" ∷ h.keys });
  write_key = λ p k h. (ok tt, h);
  unlink = λ p h. record h { keys = erase p h.keys };
  read_text = λ p h. (ok (codes "ls\n"), h);
  write_text = λ p t h. (ok tt, h);
  now_iso = λ h. codes "2025-01-01T00:00:00+00:00";
  now_stamp = λ h. codes "20250101_000000";
  connect = λ h. (ok tt, h);
  close = λ h. h;
  get_anomaly_report = λ n h. (ok none, h);
  get_sessions = λ u h. (ok [], h);
  get_container_key = λ u c h. (ok none, h);
  insert_command_report = λ n u c a r h. (ok tt, h);
  call_llm = λ p h. (ok [], h);
  loads = λ s. none;
  dumps = λ j. [];
  dumps_indented = λ j. [];
  unique = λ xs. xs;
}

named_temp :
    (w : Held) (p : Bytes)
    → ◌≡◌ {A = Result Bytes} (ok (codes "/tmp/key")) (ok p)
    → record w { keys = codes "/tmp/key" ∷ w.keys } ≡ record w { keys = p ∷ w.keys }
named_temp w p e =
    let same : codes "/tmp/key" ≡ p = cc in ap (λ (k : Bytes). record w { keys = k ∷ w.keys }) same

machine-Resources : (works : Command → Bool) → Resources (machine works)
machine-Resources works = record {
  held = λ h. h;
  run_effect = λ c w o e. cc;
  run_raised = λ c w x e. cc;
  run_ends = λ c w e. cc;
  dirs_keep = λ p w. refl;
  write_keeps = λ p k w. refl;
  dirs_end = λ p w e. cc;
  write_ends = λ p k w e. cc;
  temp_made = λ w p e. named_temp w p e;
  temp_failed = λ w h. absurd (h (codes "/tmp/key") refl);
  unlinked = λ p w. refl;
}

abbrev nothing_held : Held
nothing_held = record { loops = []; mappers = []; mounts = []; keys = [] }

-- every program works; every program but mount
abbrev works : Command → Bool
works c = true

abbrev no_mount : Command → Bool
no_mount (mount_device d p) = false
no_mount _ = true

abbrev id : Bytes
id = codes "c1"

-- the volume of a running container
abbrev in_use : Held
in_use = record {
  loops = codes "/dev/loop0" ∷ [];
  mappers = codes "somethingremotelygood_c1" ∷ [];
  mounts = codes "/homes/c1_mnt" ∷ [];
  keys = [];
}

mounts :
    (mount_volume (machine works) id (1 ∷ []) nothing_held
      ≡ (ok (some (codes "/homes/c1_mnt")), in_use))
    × (mount_volume (machine no_mount) id (1 ∷ []) nothing_held ≡ (ok none, nothing_held))
unfolding mount_volume join erase
mounts = (refl, refl)

no_mount-Releases : Releases (machine-Resources no_mount)
unfolding machine-Resources
no_mount-Releases = record { detaches = λ d w o h e. cc; closes = λ n w o h e. cc }

works-Releases : Releases (machine-Resources works)
unfolding machine-Resources
works-Releases = record { detaches = λ d w o h e. cc; closes = λ n w o h e. cc }

works-Unmounts : Unmounts (machine-Resources works)
unfolding machine-Resources
works-Unmounts = record { is_held = λ p w e. e; unmounts = λ p w o h e. cc }

mount_volume-held_example :
    let r = machine-Resources no_mount in
    let (result, w) = mount_volume (machine no_mount) id (1 ∷ []) nothing_held in
    (result ≡ ok none → r.held w ≡ nothing_held)
    × ((p : Bytes)
        → result ≡ ok (some p)
        → IsMounted r id nothing_held (r.held w)
          ⊎ (((machine no_mount).is_mount (mount_point (machine no_mount) id) nothing_held ≡ true)
              × (r.held w ≡ nothing_held)))
    × ((r.held w).keys ≡ [])
unfolding machine-Resources
mount_volume-held_example =
    mount_volume-held (machine-Resources no_mount) no_mount-Releases id (1 ∷ []) nothing_held

machine-Aside : (works : Command → Bool) → Aside (machine-Resources works)
unfolding machine-Resources
machine-Aside works = record {
  starts = λ c w. (loop_output c (works c), refl);
  reads = λ p w. refl;
  writes = λ p t w. refl;
  asks = λ p w. refl;
  inserts = λ n u c a k w. refl;
}

abbrev report : AnomalyReport
report = record {
  user_id = codes "ann";
  anomaly_type = codes "unusual_time";
  severity = codes "high";
  summary = codes "odd hours";
  details_json = codes "[]";
}

-- the model's answer is no JSON, nor are the details, so that the analysis raises after all
analysed :
    ((analyze_with_key (machine works) 1 report id (some (1 ∷ [])) nothing_held).1 ≡ nothing_held)
    × ((analyze_with_key (machine works) 1 report id (some (1 ∷ [])) in_use).1 ≡ nothing_held)
unfolding analyze_with_key join erase
analysed = (refl, refl)

analyze_with_key-mounts_example :
    let r = machine-Resources works in
    (r.held (analyze_with_key (machine works) 1 report id (some (1 ∷ [])) in_use).1).mounts
    ≡ mounts_left (machine-Aside works) id in_use
unfolding mount_volume join
analyze_with_key-mounts_example =
    analyze_with_key-mounts (machine-Aside works) works-Releases works-Unmounts 1 report id 1 []
      (some (codes "/homes/c1_mnt")) in_use refl
