-- ===== src/CommandAnalysis/Volume.antt =====
-- Mounting and unmounting the encrypted volume of a container (`mount_volume`, `unmount_volume`).
pub mod Resources
use somethingremotelygood.Base.{
  ℕ, Bool, true, false, not, Option, none, some, List, [], ◌∷◌, ◌++◌, Bytes, codes, Exec,
  if◌then◌else◌,
}
use somethingremotelygood.Base.Texts.{strip, split}
use somethingremotelygood.Base.Effects.{pure, modify, ◌>>=◌, ◌>>◌}
use somethingremotelygood.CommandAnalysis.Machine.{
  Machine, Output, attach_loop, detach_loop, list_loops, open_luks, close_luks, mount_device,
  unmount_point, finally, join,
}

-- `result.stdout.split(":")[0]`
abbrev before_colon : List Bytes → Bytes
before_colon [] = []
before_colon (part ∷ parts) = part

module _ (m : Machine) where
  open m use {World, homes_dir, run, path_exists, is_mount, make_dirs, make_temp, write_key, unlink}

  abbrev pub img_path : Bytes → Bytes
  img_path container_id = join homes_dir (container_id ++ codes ".img")

  abbrev pub mapper_name : Bytes → Bytes
  mapper_name container_id = codes "somethingremotelygood_" ++ container_id

  abbrev pub mount_point : Bytes → Bytes
  mount_point container_id = join homes_dir (container_id ++ codes "_mnt")

  -- with the volume open: the mount itself
  unfoldable pub mount_mapped : Bytes → Bytes → Exec World (Option Bytes)
  mount_mapped container_id loop_dev = do
    make_dirs (mount_point container_id)
    result ←
        run (
          mount_device (codes "/dev/mapper/" ++ mapper_name container_id)
            (mount_point container_id))
    if result.returncode_zero
        then pure (some (mount_point container_id))
        else (do run (close_luks (mapper_name container_id)); run (detach_loop loop_dev); pure none)

  -- with the loop device: opening the volume
  unfoldable pub open_volume : Bytes → Bytes → Bytes → Exec World (Option Bytes)
  unfolding mount_mapped
  open_volume container_id key_path loop_dev = do
    result ← run (open_luks key_path loop_dev (mapper_name container_id))
    if result.returncode_zero
        then mount_mapped container_id loop_dev
        else (do run (detach_loop loop_dev); pure none)

  -- inside the `try`
  unfoldable pub attach_volume : Bytes → Bytes → Bytes → Exec World (Option Bytes)
  unfolding open_volume strip
  attach_volume container_id container_key key_path = do
    write_key key_path container_key
    result ← run (attach_loop (img_path container_id))
    if result.returncode_zero
        then open_volume container_id key_path (strip result.stdout)
        else pure none

  -- with the key in a temporary file, which is removed in any case
  unfoldable pub mount_with_key : Bytes → Bytes → Exec World (Option Bytes)
  unfolding attach_volume
  mount_with_key container_id container_key = do
    key_path ← make_temp
    finally (attach_volume container_id container_key key_path) (modify (unlink key_path))

  unfoldable pub mount_volume : Bytes → Bytes → Exec World (Option Bytes)
  unfolding mount_with_key
  mount_volume container_id container_key w =
      if not (path_exists (img_path container_id) w)
      then (pure none) w
      else if is_mount (mount_point container_id) w
      then (pure (some (mount_point container_id))) w
      else mount_with_key container_id container_key w

  -- `if result.stdout:`
  unfoldable pub detach_listed : Bytes → Exec World (Unit {0})
  unfolding split
  detach_listed [] = pure tt
  detach_listed (c ∷ s) = do run (detach_loop (before_colon (split (codes ":") (c ∷ s)))); pure tt

  unfoldable pub unmount_volume : Bytes → Exec World (Unit {0})
  unfolding detach_listed
  unmount_volume container_id = do
    run (unmount_point (mount_point container_id))
    run (close_luks (mapper_name container_id))
    result ← run (list_loops (img_path container_id))
    detach_listed result.stdout
