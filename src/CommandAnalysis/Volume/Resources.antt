-- ===== src/CommandAnalysis/Volume/Resources.antt =====
-- What a machine holds: loop devices, open volumes, mounts and key files.
use somethingremotelygood.Base.{
  Bool, true, false, ◌||◌, List, [], ◌∷◌, eqb, eqb_refl, if◌then◌else◌, Option, none, some, Bytes,
  Result, Error, ok, raised, stuck, Exec, ◌≡◌, ◌≢◌, ◌⊎◌, inl, inr, refl, ap, ◌∙◌, Bool-cases,
  Result-cases, got, failed, ran_out,
}
use somethingremotelygood.Base.Texts.{strip}
use somethingremotelygood.Base.Effects.{pure, ◌>>=◌, ◌>>◌}
use somethingremotelygood.CommandAnalysis.Machine.{
  Machine, Command, Output, attach_loop, detach_loop, list_loops, open_luks, close_luks,
  mount_device, unmount_point,
}
use somethingremotelygood.CommandAnalysis.Volume.{
  img_path, mapper_name, mount_point, mount_mapped, open_volume, attach_volume, mount_with_key,
  mount_volume,
}

-- The devices and names by which they are released.
pub record Held : Type 0 where
  pub loops : List Bytes
  pub mappers : List Bytes
  pub mounts : List Bytes
  pub keys : List Bytes

abbrev pub has : Bytes → List Bytes → Bool
has x [] = false
has x (y ∷ ys) = eqb y x || has x ys

-- without the latest one of the name
unfoldable pub erase : Bytes → List Bytes → List Bytes
erase x [] = []
erase x (y ∷ ys) = let rest = erase x ys in if eqb y x then ys else y ∷ rest

-- What a program does that succeeds: losetup --show prints the device that it attached.
abbrev pub succeed : Command → Output → Held → Held
succeed (attach_loop img) o h = record h { loops = strip o.stdout ∷ h.loops }
succeed (detach_loop dev) o h = record h { loops = erase dev h.loops }
succeed (list_loops img) o h = h
succeed (open_luks key dev name) o h = record h { mappers = name ∷ h.mappers }
succeed (close_luks name) o h = record h { mappers = erase name h.mappers }
succeed (mount_device dev point) o h = record h { mounts = point ∷ h.mounts }
succeed (unmount_point point) o h = record h { mounts = erase point h.mounts }

-- A program that fails, takes and releases nothing.
abbrev pub effect : Command → Output → Held → Held
effect c o h = if o.returncode_zero then succeed c o h else h

pub record Resources (m : Machine) : Type 0 where
  pub held : m.World → Held
  pub run_effect :
      (c : Command) (w : m.World) (o : Output)
      → (m.run c w).0 ≡ ok o
      → held (m.run c w).1 ≡ effect c o (held w)
  -- a program that cannot be started does nothing
  pub run_raised :
      (c : Command) (w : m.World) (e : Error)
      → (m.run c w).0 ≡ raised e
      → held (m.run c w).1 ≡ held w
  pub run_ends : (c : Command) (w : m.World) → (m.run c w).0 ≢ stuck
  pub dirs_keep : (p : Bytes) (w : m.World) → held (m.make_dirs p w).1 ≡ held w
  pub write_keeps : (p k : Bytes) (w : m.World) → held (m.write_key p k w).1 ≡ held w
  pub dirs_end : (p : Bytes) (w : m.World) → (m.make_dirs p w).0 ≢ stuck
  pub write_ends : (p k : Bytes) (w : m.World) → (m.write_key p k w).0 ≢ stuck
  pub temp_made :
      (w : m.World) (p : Bytes)
      → (m.make_temp w).0 ≡ ok p
      → held (m.make_temp w).1 ≡ record (held w) { keys = p ∷ (held w).keys }
  pub temp_failed :
      (w : m.World) → ((p : Bytes) → (m.make_temp w).0 ≢ ok p) → held (m.make_temp w).1 ≡ held w
  pub unlinked :
      (p : Bytes) (w : m.World)
      → held (m.unlink p w) ≡ record (held w) { keys = erase p (held w).keys }

-- The clean-up of mount_volume succeeds: losetup -d on a device that is attached, and cryptsetup close
-- on a volume that is open.
pub record Releases {m : Machine} (r : Resources m) : Type 0 where
  pub detaches :
      (dev : Bytes) (w : m.World) (o : Output)
      → has dev (r.held w).loops ≡ true
      → (m.run (detach_loop dev) w).0 ≡ ok o
      → o.returncode_zero ≡ true
  pub closes :
      (name : Bytes) (w : m.World) (o : Output)
      → has name (r.held w).mappers ≡ true
      → (m.run (close_luks name) w).0 ≡ ok o
      → o.returncode_zero ≡ true

pub has_first : (x : Bytes) (xs : List Bytes) → has x (x ∷ xs) ≡ true
has_first x xs = rw (eqb_refl x) refl

pub erase_first : (x : Bytes) (xs : List Bytes) → erase x (x ∷ xs) ≡ xs
unfolding erase
erase_first x xs = rw (eqb_refl x) refl

module _ {m : Machine} (r : Resources m) where
  -- What is held after nothing was mounted, after a mount, and the key files in any case.
  pub record Leaves (on_none : Held) (OnSome : Held → Type 0) (keys : List Bytes)
      (x : Result (Option Bytes) × m.World) : Type 0 where
    pub without : x.0 ≡ ok none → r.held x.1 ≡ on_none
    pub mounted : (p : Bytes) → x.0 ≡ ok (some p) → OnSome (r.held x.1)
    pub key_files : (r.held x.1).keys ≡ keys

  -- with a loop device, the open volume and its mount more than `h`
  abbrev pub IsMounted : Bytes → Held → Held → Type 0
  IsMounted id h t =
      (dev : Bytes) × (t ≡ record h {
        loops = dev ∷ h.loops;
        mappers = mapper_name m id ∷ h.mappers;
        mounts = mount_point m id ∷ h.mounts;
      })

  module _ {n : Held} {S : Held → Type 0} {k : List Bytes} where
    Leaves-raised : (e : Error) (w : m.World) → (r.held w).keys ≡ k → Leaves n S k (raised e, w)
    Leaves-raised e w h = record { without = λ q. cc; mounted = λ p q. cc; key_files = h }

    Leaves-none : (w : m.World) → r.held w ≡ n → n.keys ≡ k → Leaves n S k (pure none w)
    Leaves-none w h e = record {
      without = λ q. h;
      mounted = λ p q. cc;
      key_files = ap (λ (x : Held). x.keys) h ∙ e;
    }

    Leaves-some :
        (p : Bytes) (w : m.World)
        → S (r.held w)
        → (r.held w).keys ≡ k
        → Leaves n S k (pure (some p) w)
    Leaves-some p w h e = record { without = λ q. cc; mounted = λ p q. h; key_files = e }

    -- a program, and what follows it
    Leaves-run :
        (c : Command) (f : Output → Exec m.World (Option Bytes)) (w : m.World) (h : Held)
        → r.held w ≡ h
        → h.keys ≡ k
        → ((o : Output) (w' : m.World)
            → (m.run c w).0 ≡ ok o
            → r.held w' ≡ effect c o h
            → Leaves n S k (f o w'))
        → Leaves n S k ((m.run c >>= f) w)
    Leaves-run c f w h e ek rest = elim (Result-cases (m.run c w).0) [
      | got (o, q) ↦ rw q (rest o (m.run c w).1 q (r.run_effect c w o q ∙ ap (effect c o) e))
      | failed (x, q) ↦ rw q (
          Leaves-raised x (m.run c w).1 (ap (λ (y : Held). y.keys) (r.run_raised c w x q ∙ e) ∙ ek))
      | ran_out q ↦ absurd (r.run_ends c w q)
    ]

    -- a call that may raise and changes nothing that is held
    Leaves-quiet :
        (u : Exec m.World (Unit {0})) (f : Exec m.World (Option Bytes)) (w : m.World) (h : Held)
        → r.held w ≡ h
        → h.keys ≡ k
        → r.held (u w).1 ≡ r.held w
        → (u w).0 ≢ stuck
        → Leaves n S k (f (u w).1)
        → Leaves n S k ((u >> f) w)
    Leaves-quiet u f w h e ek same ends rest = elim (Result-cases (u w).0) [
      | got (o, q) ↦ rw q rest
      | failed (x, q) ↦ rw q (Leaves-raised x (u w).1 (ap (λ (y : Held). y.keys) (same ∙ e) ∙ ek))
      | ran_out q ↦ absurd (ends q)
    ]

  module _ (c : Releases r) where
    -- `h` is what is held when each of the nested calls begins.
    clean_mount-Leaves :
        {S : Held → Type 0} (id dev : Bytes) (w : m.World) (h : Held)
        → r.held w ≡ h
        → has dev h.loops ≡ true
        → has (mapper_name m id) h.mappers ≡ true
        → Leaves
            (record h { loops = erase dev h.loops; mappers = erase (mapper_name m id) h.mappers })
            S
            h.keys
            ((m.run (close_luks (mapper_name m id)) >>= λ o. m.run (detach_loop dev) >> pure none)
              w)
    clean_mount-Leaves id dev w h e attached open_ = Leaves-run _ _ w h e refl λ o1 w1 z1 q1.
        let closed = c.closes (mapper_name m id) w o1 (rw e open_) z1 in
        let h1 = record h { mappers = erase (mapper_name m id) h.mappers } in
        let e1 : r.held w1 ≡ h1 = rw closed at q1 in
        Leaves-run _ _ w1 h1 e1 refl λ o2 w2 z2 q2.
          let detached = c.detaches dev w1 o2 (rw e1 attached) z2 in
          Leaves-none w2 (rw detached at q2) refl

    clean_open-Leaves :
        {S : Held → Type 0} (dev : Bytes) (w : m.World) (h : Held)
        → r.held w ≡ h
        → has dev h.loops ≡ true
        → Leaves
            (record h { loops = erase dev h.loops })
            S
            h.keys
            ((m.run (detach_loop dev) >> pure none) w)
    clean_open-Leaves dev w h e attached = Leaves-run _ _ w h e refl λ o w' z q.
        let detached = c.detaches dev w o (rw e attached) z in
        Leaves-none w' (rw detached at q) refl

    mount_mapped-Leaves :
        (id dev : Bytes) (w : m.World) (h : Held)
        → r.held w ≡ h
        → has dev h.loops ≡ true
        → has (mapper_name m id) h.mappers ≡ true
        → Leaves
            (record h { loops = erase dev h.loops; mappers = erase (mapper_name m id) h.mappers })
            (λ t. t ≡ record h { mounts = mount_point m id ∷ h.mounts })
            h.keys
            (mount_mapped m id dev w)
    unfolding mount_mapped
    mount_mapped-Leaves id dev w h e attached open_ =
        Leaves-quiet (m.make_dirs (mount_point m id)) _ w h e refl
          (r.dirs_keep (mount_point m id) w) (r.dirs_end (mount_point m id) w)
          (Leaves-run _ _ (m.make_dirs (mount_point m id) w).1 h
            (r.dirs_keep (mount_point m id) w ∙ e) refl
            λ o w' started q. elim (Bool-cases o.returncode_zero) [
              | inl z ↦ rw z (
                  Leaves-some (mount_point m id) w' (rw z at q)
                    (ap (λ (y : Held). y.keys) (rw z at q)))
              | inr z ↦ rw z (clean_mount-Leaves id dev w' h (rw z at q) attached open_)
            ])

    open_volume-Leaves :
        (id key dev : Bytes) (w : m.World) (h : Held)
        → r.held w ≡ h
        → has dev h.loops ≡ true
        → Leaves
            (record h { loops = erase dev h.loops })
            (λ t. t ≡ record h {
              mappers = mapper_name m id ∷ h.mappers;
              mounts = mount_point m id ∷ h.mounts;
            })
            h.keys
            (open_volume m id key dev w)
    unfolding open_volume
    open_volume-Leaves id key dev w h e attached = Leaves-run _ _ w h e refl λ o w' started q.
        elim (Bool-cases o.returncode_zero) [
          | inl z ↦ rw z (
              rw (erase_first (mapper_name m id) h.mappers) at (
                mount_mapped-Leaves id dev w' (record h { mappers = mapper_name m id ∷ h.mappers })
                  (rw z at q) attached (has_first (mapper_name m id) h.mappers)))
          | inr z ↦ rw z (clean_open-Leaves dev w' h (rw z at q) attached)
        ]

    attached-Leaves :
        (id key dev : Bytes) (w : m.World) (h : Held)
        → r.held w ≡ record h { loops = dev ∷ h.loops }
        → Leaves h (IsMounted id h) h.keys (open_volume m id key dev w)
    attached-Leaves id key dev w h e =
        let l =
          open_volume-Leaves id key dev w (record h { loops = dev ∷ h.loops }) e
            (has_first dev h.loops) in
        record {
          without = λ q. rw (erase_first dev h.loops) at (l.without q);
          mounted = λ p q. (dev, l.mounted p q);
          key_files = l.key_files;
        }

    -- with the volume mounted: one loop device, the volume and the mount more
    attach_volume-Leaves :
        (id secret key : Bytes) (w : m.World) (h : Held)
        → r.held w ≡ h
        → Leaves h (IsMounted id h) h.keys (attach_volume m id secret key w)
    unfolding attach_volume
    attach_volume-Leaves id secret key w h e =
        Leaves-quiet (m.write_key key secret) _ w h e refl (r.write_keeps key secret w)
          (r.write_ends key secret w)
          (Leaves-run _ _ (m.write_key key secret w).1 h (r.write_keeps key secret w ∙ e) refl
            λ o w' started q. elim (Bool-cases o.returncode_zero) [
              | inl z ↦ rw z (attached-Leaves id key (strip o.stdout) w' h (rw z at q))
              | inr z ↦ rw z (Leaves-none w' (rw z at q) refl)
            ])

  -- the key file is removed again, whatever happened
  unlinked-Leaves :
      (id key : Bytes) (h : Held) (x : Result (Option Bytes) × m.World)
      → Leaves
          (record h { keys = key ∷ h.keys })
          (IsMounted id (record h { keys = key ∷ h.keys }))
          (key ∷ h.keys)
          x
      → Leaves h (IsMounted id h) h.keys (x.0, m.unlink key x.1)
  unlinked-Leaves id key h x l = record {
    without = λ q. rw (erase_first key h.keys) at (
        r.unlinked key x.1 ∙ ap (λ (y : Held). record y { keys = erase key y.keys }) (l.without q));
    mounted = λ p q.
        let (dev, e) = l.mounted p q in
        (
          dev,
          rw (erase_first key h.keys) at
              (r.unlinked key x.1 ∙ ap (λ (y : Held). record y { keys = erase key y.keys }) e),
        );
    key_files =
        ap (λ (y : Held). y.keys) (r.unlinked key x.1)
        ∙ ap (λ ks. erase key ks) l.key_files
        ∙ erase_first key h.keys;
  }

  module _ (c : Releases r) where
    pub mount_with_key-Leaves :
        (id secret : Bytes) (w : m.World)
        → Leaves (r.held w) (IsMounted id (r.held w)) (r.held w).keys (mount_with_key m id secret w)
    unfolding mount_with_key
    mount_with_key-Leaves id secret w =
        let h = r.held w in
        elim (Result-cases (m.make_temp w).0) [
          | got (key, q) ↦
              (let w1 = (m.make_temp w).1 in
                rw q (
                  unlinked-Leaves id key h (attach_volume m id secret key w1) (
                    attach_volume-Leaves c id secret key w1 (record h { keys = key ∷ h.keys })
                      (r.temp_made w key q))))
          | failed (x, q) ↦ rw q (
              Leaves-raised x (m.make_temp w).1
                (ap (λ (y : Held). y.keys) (r.temp_failed w (λ p z. cc))))
          | ran_out q ↦ rw q (record {
            without = λ z. cc;
            mounted = λ p z. cc;
            key_files = ap (λ (y : Held). y.keys) (r.temp_failed w (λ p z. cc));
          })
        ]

    -- Where the clean-up programs succeed on what is held, a call of mount_volume that gives no mount
    -- point has released exactly what it took; one that gives a mount point holds a loop device, the
    -- volume opened under its name and the mount on its mount point more than before, or nothing
    -- more if the volume was mounted already; and the file of the key is gone in any case, also
    -- after an exception.
    pub mount_volume-held :
        (id secret : Bytes) (w : m.World)
        → let (result, w') = mount_volume m id secret w in
          (result ≡ ok none → r.held w' ≡ r.held w)
          × ((p : Bytes)
              → result ≡ ok (some p)
              → IsMounted id (r.held w) (r.held w')
                ⊎ ((m.is_mount (mount_point m id) w ≡ true) × (r.held w' ≡ r.held w)))
          × ((r.held w').keys ≡ (r.held w).keys)
    unfolding mount_volume
    mount_volume-held id secret w = elim (Bool-cases (m.path_exists (img_path m id) w)) [
      | inr e ↦ rw (e, mount_volume) (λ q. refl, λ p q. cc, refl)
      | inl e ↦ elim (Bool-cases (m.is_mount (mount_point m id) w)) [
        | inl f ↦ rw (e, f, mount_volume) (λ q. refl, λ p q. inr (refl, refl), refl)
        | inr f ↦
            (let l = mount_with_key-Leaves id secret w in
              rw (e, f, mount_volume) (l.without, λ p q. inl (l.mounted p q), l.key_files))
      ]
    ]
