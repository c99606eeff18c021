-- ===== src/CommandAnalysis/Analyze/Unmounts.antt =====
-- The mounts that the analysis of a container leaves.
use somethingremotelygood.Base.{
  ℕ, Bool, true, ◌&&◌, Option, none, some, List, [], ◌∷◌, Bytes, ok, Exec, ◌≡◌, refl, ap, ◌∙◌,
  Bool-cases, inl, inr, if◌then◌else◌,
}
use somethingremotelygood.Base.Effects.Same.{Same, Same-pure, Same-lift, Same-gets, Same-bind}
use somethingremotelygood.Json.{Json}
use somethingremotelygood.CommandAnalysis.Machine.{
  Machine, AnomalyReport, Command, Output, list_loops, close_luks, unmount_point,
}
use somethingremotelygood.CommandAnalysis.Volume.{
  img_path, mapper_name, mount_point, mount_volume, detach_listed, unmount_volume,
}
use somethingremotelygood.CommandAnalysis.Volume.Resources.{
  Held, has, erase, has_first, erase_first, succeed, effect, Resources, Releases, IsMounted,
  mount_with_key-Leaves,
}
use somethingremotelygood.CommandAnalysis.Report.{read_lines, read_shell_history, save_json_report}
use somethingremotelygood.CommandAnalysis.Analyze.{
  analyze_commands, analyze_history, analyze_mounted, analyze_with_key, test_dir,
}

-- The calls that mount nothing, and programs that can all be started.
pub record Aside {m : Machine} (r : Resources m) : Type 0 where
  pub starts : (c : Command) (w : m.World) → (o : Output) × ((m.run c w).0 ≡ ok o)
  pub reads : (p : Bytes) (w : m.World) → r.held (m.read_text p w).1 ≡ r.held w
  pub writes : (p t : Bytes) (w : m.World) → r.held (m.write_text p t w).1 ≡ r.held w
  pub asks : (p : Bytes) (w : m.World) → r.held (m.call_llm p w).1 ≡ r.held w
  pub inserts :
      (n : ℕ) (u c a k : Bytes) (w : m.World)
      → r.held (m.insert_command_report n u c a k w).1 ≡ r.held w

-- What is a mount point, is mounted, and umount succeeds on what is mounted: no program uses it.
pub record Unmounts {m : Machine} (r : Resources m) : Type 0 where
  pub is_held :
      (point : Bytes) (w : m.World) → m.is_mount point w ≡ true → has point (r.held w).mounts ≡ true
  pub unmounts :
      (point : Bytes) (w : m.World) (o : Output)
      → has point (r.held w).mounts ≡ true
      → (m.run (unmount_point point) w).0 ≡ ok o
      → o.returncode_zero ≡ true

effect-mounts :
    (c : Command) (o : Output) (h : Held)
    → ((o : Output) (h : Held) → (succeed c o h).mounts ≡ h.mounts)
    → (effect c o h).mounts ≡ h.mounts
effect-mounts c o h aloof = elim (Bool-cases o.returncode_zero) [
  | inl e ↦ rw e (aloof (record { returncode_zero = true; stdout = o.stdout }) h)
  | inr e ↦ rw e refl
]

module _ {m : Machine} {r : Resources m} (aside : Aside r) where
  Same-make_dirs : (p : Bytes) → Same r.held (m.make_dirs p)
  Same-make_dirs p = record { at = r.dirs_keep p }

  Same-read_text : (p : Bytes) → Same r.held (m.read_text p)
  Same-read_text p = record { at = aside.reads p }

  Same-write_text : (p t : Bytes) → Same r.held (m.write_text p t)
  Same-write_text p t = record { at = aside.writes p t }

  Same-call_llm : (p : Bytes) → Same r.held (m.call_llm p)
  Same-call_llm p = record { at = aside.asks p }

  Same-insert : (n : ℕ) (u c a k : Bytes) → Same r.held (m.insert_command_report n u c a k)
  Same-insert n u c a k = record { at = aside.inserts n u c a k }

  ruleset aside_rules = (
    Same-pure, Same-lift, Same-gets, Same-bind, Same-make_dirs, Same-read_text, Same-write_text,
    Same-call_llm, Same-insert,
  )

  Same-if :
      {A : Type 0} (test : m.World → Bool) (then_do else_do : Exec m.World A)
      → Same r.held then_do
      → Same r.held else_do
      → Same r.held (λ w. if test w then then_do w else else_do w)
  Same-if test then_do else_do hy hn = record {
    at = λ w. elim (Bool-cases (test w)) [ inl e ↦ rw e (hy.at w) | inr e ↦ rw e (hn.at w) ];
  }

  Same-read_lines : (p : Bytes) → Same r.held (read_lines m p)
  unfolding read_lines
  Same-read_lines p =
      Same-if (m.path_exists p) _ _ (Same-bind _ _ (Same-read_text p) (λ t. Same-pure _))
        (Same-pure [])

  Same-read_shell_history : (p u : Bytes) → Same r.held (read_shell_history m p u)
  unfolding read_shell_history
  Same-read_shell_history p u = search (Same-bind, Same-pure, Same-read_lines) depth 9

  Same-save_json_report :
      (n : ℕ) (report : AnomalyReport) (u c : Bytes) (j : Json) (cs : List Bytes)
      → Same r.held (save_json_report m n report u c j cs)
  unfolding save_json_report
  Same-save_json_report n report u c j cs = search aside_rules depth 12

  Same-analyze_commands :
      (n : ℕ) (report : AnomalyReport) (c : Bytes) (cs : List Bytes)
      → Same r.held (analyze_commands m n report c cs)
  unfolding analyze_commands
  Same-analyze_commands n report c [] = Same-pure tt
  Same-analyze_commands n report c (d ∷ ds) = search (aside_rules, Same-save_json_report) depth 12

  Same-analyze_history :
      (n : ℕ) (report : AnomalyReport) (c p : Bytes) → Same r.held (analyze_history m n report c p)
  unfolding analyze_history
  Same-analyze_history n report c p =
      Same-bind _ _ (Same-read_shell_history p report.user_id) (Same-analyze_commands n report c)

  -- a program that neither mounts nor unmounts
  run-mounts :
      (c : Command) (w : m.World)
      → ((o : Output) (h : Held) → (succeed c o h).mounts ≡ h.mounts)
      → (r.held (m.run c w).1).mounts ≡ (r.held w).mounts
  run-mounts c w aloof =
      let (o, e) = aside.starts c w in
      ap (λ (h : Held). h.mounts) (r.run_effect c w o e) ∙ effect-mounts c o (r.held w) aloof

  detach_listed-mounts :
      (out : Bytes) (w : m.World) → (r.held (detach_listed m out w).1).mounts ≡ (r.held w).mounts
  unfolding detach_listed
  detach_listed-mounts [] w = refl
  detach_listed-mounts (c ∷ s) w = rw (aside.starts _ w).1 (run-mounts _ w (λ o h. refl))

  module _ (u : Unmounts r) where
    unmount_point-mounts :
        (point : Bytes) (w : m.World)
        → has point (r.held w).mounts ≡ true
        → (r.held (m.run (unmount_point point) w).1).mounts ≡ erase point (r.held w).mounts
    unmount_point-mounts point w mounted =
        let (o, e) = aside.starts (unmount_point point) w in
        ap (λ (h : Held). h.mounts)
          (rw (u.unmounts point w o mounted e) at (r.run_effect (unmount_point point) w o e))

    unmount_volume-mounts :
        (id : Bytes) (w : m.World)
        → has (mount_point m id) (r.held w).mounts ≡ true
        → (r.held (unmount_volume m id w).1).mounts ≡ erase (mount_point m id) (r.held w).mounts
    unfolding unmount_volume
    unmount_volume-mounts id w mounted =
        let umount = unmount_point (mount_point m id) in
        let close = close_luks (mapper_name m id) in
        let list = list_loops (img_path m id) in
        let w1 = (m.run umount w).1 in
        let w2 = (m.run close w1).1 in
        rw ((aside.starts umount w).1, (aside.starts close w1).1, (aside.starts list w2).1)
          (detach_listed-mounts (aside.starts list w2).0.stdout (m.run list w2).1
            ∙ run-mounts list w2 (λ o h. refl)
            ∙ run-mounts close w1 (λ o h. refl)
            ∙ unmount_point-mounts (mount_point m id) w mounted)

    -- with the volume mounted: the analysis, and the volume is unmounted whatever it did
    mounted-mounts :
        (n : ℕ) (report : AnomalyReport) (id p : Bytes) (w : m.World)
        → has (mount_point m id) (r.held w).mounts ≡ true
        → (r.held (analyze_mounted m n report id (some p) w).1).mounts
          ≡ erase (mount_point m id) (r.held w).mounts
    unfolding analyze_mounted
    mounted-mounts n report id p w mounted =
        let same = (Same-analyze_history n report id p).at w in
        unmount_volume-mounts id (analyze_history m n report id p w).1 (rw same mounted)
        ∙ ap (λ (h : Held). erase (mount_point m id) h.mounts) same

  without-Same :
      (n : ℕ) (report : AnomalyReport) (id : Bytes)
      → Same r.held (analyze_mounted m n report id none)
  unfolding analyze_mounted
  without-Same n report id =
      Same-if (m.is_dir (test_dir m report.user_id)) _ _
        (Same-analyze_history n report id (test_dir m report.user_id)) (Same-pure tt)

  abbrev was_mounted : Bytes → m.World → Bool
  was_mounted id w = m.path_exists (img_path m id) w && m.is_mount (mount_point m id) w

  abbrev pub mounts_left : Bytes → m.World → List Bytes
  mounts_left id w =
      if was_mounted id w then erase (mount_point m id) (r.held w).mounts else (r.held w).mounts

  module _ (c : Releases r) (u : Unmounts r) where
    -- after mount_volume returned
    analyzed-mounts :
        (n : ℕ) (report : AnomalyReport) (id : Bytes) (k : List Bytes) (result : Option Bytes)
        (w : m.World)
        → (result ≡ none → (r.held w).mounts ≡ k)
        → ((p : Bytes)
            → result ≡ some p
            → (has (mount_point m id) (r.held w).mounts ≡ true)
              × (erase (mount_point m id) (r.held w).mounts ≡ k))
        → (r.held (analyze_mounted m n report id result w).1).mounts ≡ k
    analyzed-mounts n report id k none w hn hs =
        ap (λ (h : Held). h.mounts) ((without-Same n report id).at w) ∙ hn refl
    analyzed-mounts n report id k (some p) w hn hs =
        let (mounted, left) = hs p refl in mounted-mounts u n report id p w mounted ∙ left

    -- a volume that was mounted by the call
    fresh-mounts :
        (id : Bytes) (h t : Held)
        → IsMounted r id h t
        → (has (mount_point m id) t.mounts ≡ true) × (erase (mount_point m id) t.mounts ≡ h.mounts)
    fresh-mounts id h t (dev, e) =
        rw e (has_first (mount_point m id) h.mounts, erase_first (mount_point m id) h.mounts)

    mount_volume-mounts :
        (id key : Bytes) (result : Option Bytes) (w : m.World)
        → (mount_volume m id key w).0 ≡ ok result
        → (result ≡ none → (r.held (mount_volume m id key w).1).mounts ≡ mounts_left id w)
          × ((p : Bytes)
              → result ≡ some p
              → (has (mount_point m id) (r.held (mount_volume m id key w).1).mounts ≡ true)
                × (erase (mount_point m id) (r.held (mount_volume m id key w).1).mounts
                    ≡ mounts_left id w))
    unfolding mount_volume
    mount_volume-mounts id key result w = elim (Bool-cases (m.path_exists (img_path m id) w)) [
      | inr no_image ↦ rw (no_image, mount_volume) (λ e. (λ q. refl, λ p q. cc))
      | inl image ↦ elim (Bool-cases (m.is_mount (mount_point m id) w)) [
        | inl mounted ↦
            rw (image, mounted, mount_volume)
              (λ e. (λ q. cc, λ p q. (u.is_held (mount_point m id) w mounted, refl)))
        | inr free ↦
            (let l = mount_with_key-Leaves r c id key w in
              rw (image, free, mount_volume)
                (λ e. (
                  λ q. ap (λ (h : Held). h.mounts) (l.without (e ∙ ap ok q)),
                  λ p q. fresh-mounts id (r.held w) _ (l.mounted p (e ∙ ap ok q)),
                )))
      ]
    ]

    -- Where the releases of mount_volume and umount succeed on what is held and mounted, if mounting
    -- does not raise and all programs can be started, the analysis of a container with a key leaves
    -- the mounts that were there, also after an exception; but if the volume was mounted already,
    -- by whomever, that mount is gone afterwards.
    pub analyze_with_key-mounts :
        (n : ℕ) (report : AnomalyReport) (id : Bytes) (b : ℕ) (key : Bytes) (result : Option Bytes)
        (w : m.World)
        → (mount_volume m id (b ∷ key) w).0 ≡ ok result
        → (r.held (analyze_with_key m n report id (some (b ∷ key)) w).1).mounts ≡ mounts_left id w
    unfolding analyze_with_key
    analyze_with_key-mounts n report id b key result w e =
        let (hn, hs) = mount_volume-mounts id (b ∷ key) result w e in
        rw e (
          analyzed-mounts n report id (mounts_left id w) result (mount_volume m id (b ∷ key) w).1 hn
            hs)
