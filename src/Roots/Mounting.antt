-- ===== src/Roots/Mounting.antt =====
-- Which roots are MTD partitions, and what a mounted root rests on.
use recovery_sdx.Base.{
  ℕ, ◌≡◌, ◌≢◌, ap, ◌∙◌, inl, inr, ◌⊎◌, true, false, some, [], ◌++◌, Bytes, codes, arith,
  if◌then◌else◌, Option-cases, Among,
}
use recovery_sdx.Base.Int.{ℤ, pos, is_negative, is_nonzero}
use recovery_sdx.Os.{Os}
use recovery_sdx.Roots.{
  mtd_device, block_device, fs_named, RootInfo, g_roots, get_root_info_for_path, mtd_partition_of,
  get_root_mtd_partition, mount_root,
}
use recovery_sdx.Roots.Paths.{get_root_info_for_path_iff}

module _ {W : Type 0} (os : Os W) where
  mtd_roots :
      (path : Bytes) (r : RootInfo) (w : W) (p : ℕ)
      → Among r g_roots
      → (mtd_partition_of os r.device r.partition_name w).0 ≡ some p
      → (r.name ≡ codes "BOOT:") ⊎ (r.name ≡ codes "RECOVERY:")
  unfolding g_roots mtd_partition_of
  mtd_roots path r w p m h = ground arith

  -- Only the roots BOOT: and RECOVERY: have an MTD partition.
  pub get_root_mtd_partition-some :
      (path : Bytes) (w : W) (p : ℕ)
      → (get_root_mtd_partition os path w).0 ≡ some p
      → (rest : Bytes) × ((path ≡ codes "BOOT:" ++ rest) ⊎ (path ≡ codes "RECOVERY:" ++ rest))
  unfolding get_root_mtd_partition
  get_root_mtd_partition-some path w p h = elim (Option-cases (get_root_info_for_path path)) [
    | inl e ↦ absurd (ground arith)
    | inr (r, e) ↦
        let (m, rest, split) = (get_root_info_for_path_iff path r).0 e in
        (
          rest,
          elim (mtd_roots path r w p m (ground arith)) [
            | inl n ↦ inl (split ∙ ap (λ t. t ++ rest) n)
            | inr n ↦ inr (split ∙ ap (λ t. t ++ rest) n)
          ],
        )
  ]

  -- The device was mounted with these options, or this failed, and then the second device of the root
  -- was mounted without options.
  pub data Attached (r : RootInfo) (d mp fs o : Bytes) (v w' : W) : Type 0 where
    first :
        is_nonzero (os.mount d mp fs o v).0 ≡ false
        → w' ≡ (os.mount d mp fs o v).1
        → Attached r d mp fs o v w'
    second :
        (d2 : Bytes)
        → is_nonzero (os.mount d mp fs o v).0 ≡ true
        → r.device2 ≡ some d2
        → is_nonzero (os.mount d2 mp fs [] (os.mount d mp fs o v).1).0 ≡ false
        → w' ≡ (os.mount d2 mp fs [] (os.mount d mp fs o v).1).1
        → Attached r d mp fs o v w'

  -- What was done to mount a root from the state `v`. The options are those of rfs; for another file
  -- system the mount point is made first, and there are none.
  pub data Mounts (r : RootInfo) (mp : Bytes) (v w' : W) : Type 0 where
    rfs_device :
        (d : Bytes)
        → r.device ≡ some (block_device d)
        → r.filesystem ≡ some (fs_named (codes "rfs"))
        → Attached r d mp (codes "rfs") (codes "xattr,check=no") v w'
        → Mounts r mp v w'
    other_device :
        (d fs : Bytes)
        → r.device ≡ some (block_device d)
        → r.filesystem ≡ some (fs_named fs)
        → fs ≢ codes "rfs"
        → Attached r d mp fs [] (os.make_dir mp v) w'
        → Mounts r mp v w'
    partition :
        (name : Bytes) (p : ℕ)
        → r.device ≡ some mtd_device
        → r.partition_name ≡ some name
        → os.mtd_find_partition_by_name name (os.mtd_scan_partitions v) ≡ some p
        → is_negative (os.mtd_mount_partition p (some mp) (os.mtd_scan_partitions v)).0 ≡ false
        → w' ≡ (os.mtd_mount_partition p (some mp) (os.mtd_scan_partitions v)).1
        → Mounts r mp v w'

  -- The volume was found at the mount point, and nothing else was done; or it could not be found, and
  -- the root was mounted.
  pub data Ensured (r : RootInfo) (mp : Bytes) (w w' : W) : Type 0 where
    found :
        is_negative (os.scan_mounted_volumes w).0 ≡ false
        → os.volume_mounted (os.scan_mounted_volumes w).1 mp ≡ true
        → w' ≡ (os.scan_mounted_volumes w).1
        → Ensured r mp w w'
    mounted :
        (is_negative (os.scan_mounted_volumes w).0 ≡ true)
          ⊎ (os.volume_mounted (os.scan_mounted_volumes w).1 mp ≡ false)
        → Mounts r mp (os.scan_mounted_volumes w).1 w'
        → Ensured r mp w w'

  -- What is done behind the look at the mounted volumes.
  ensure_at : RootInfo → ℤ × W → ℤ × W
  ensure_at r (ret, w) = if is_negative ret then mount_root os r r.device w else (pos 0, w)
