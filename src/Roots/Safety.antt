-- ===== src/Roots/Safety.antt =====
-- What `format_root_device` has done when it returns 0.
use recovery_sdx.Base.{
  ℕ, suc, ◌≡◌, refl, ap, ◌∙◌, inl, inr, true, false, Option, none, some, Bytes, length, codes,
  bytes_eq, bytes_eq_iff, arith, Option-cases, Bool-cases, Among, eq_of_length,
}
use recovery_sdx.Base.Int.{pos, is_negative, is_nonzero}
use recovery_sdx.Os.{Os}
use recovery_sdx.Roots.{
  Device, mtd_device, block_device, Filesystem, raw, package_file, fs_named, RootInfo, g_roots,
  get_root_info_for_path, ensure_root_path_unmounted,
}
use recovery_sdx.Roots.Paths.{get_root_info_for_path_iff, colon_index-name}
use recovery_sdx.Roots.Format.{is_bare_root, format_unmounted, format_root, format_root_device}

module _ {W : Type 0} (os : Os W) where
  -- The mounted volumes were read. Either none is found at the mount point, or the one that is found
  -- there was unmounted.
  pub data Released (mp : Bytes) (w start : W) : Type 0 where
    absent :
        is_negative (os.scan_mounted_volumes w).0 ≡ false
        → os.volume_mounted (os.scan_mounted_volumes w).1 mp ≡ false
        → start ≡ (os.scan_mounted_volumes w).1
        → Released mp w start
    unmounted :
        is_negative (os.scan_mounted_volumes w).0 ≡ false
        → os.volume_mounted (os.scan_mounted_volumes w).1 mp ≡ true
        → is_negative (os.unmount_mounted_volume mp (os.scan_mounted_volumes w).1).0 ≡ false
        → start ≡ (os.unmount_mounted_volume mp (os.scan_mounted_volumes w).1).1
        → Released mp w start

  -- A root with a mount point is released; another one is taken as it is.
  pub data Begins (r : RootInfo) (w start : W) : Type 0 where
    released : (mp : Bytes) → r.mount_point ≡ some mp → Released mp w start → Begins r w start
    no_mount_point : r.mount_point ≡ none → start ≡ w → Begins r w start

  -- The partition was found, opened for writing, erased and closed.
  pub record Erased (name : Bytes) (start w' : W) : Type 0 where
    pub partition : ℕ
    pub found : os.mtd_find_partition_by_name name (os.mtd_scan_partitions start) ≡ some partition
    pub opened : (os.mtd_write_partition partition (os.mtd_scan_partitions start)).0 ≡ true
    pub erased :
        (os.mtd_erase_all partition
          (os.mtd_write_partition partition (os.mtd_scan_partitions start)).1).0
        ≡ true
    pub closed :
        is_nonzero
          (os.mtd_write_close partition
            (os.mtd_erase_all partition
              (os.mtd_write_partition partition (os.mtd_scan_partitions start)).1).1).0
        ≡ false
    pub left :
        w'
        ≡ (os.mtd_write_close partition
            (os.mtd_erase_all partition
              (os.mtd_write_partition partition (os.mtd_scan_partitions start)).1).1).1

  -- A block device with rfs was formatted by fformat, which ended with status 0; a raw MTD partition
  -- was erased.
  pub data Formatted (r : RootInfo) (d : Device) (start w' : W) : Type 0 where
    by_fformat :
        (path : Bytes)
        → d ≡ block_device path
        → r.filesystem ≡ some (fs_named (codes "rfs"))
        → os.run_fformat path start ≡ (true, w')
        → Formatted r d start w'
    by_erasing :
        (name : Bytes)
        → d ≡ mtd_device
        → r.filesystem ≡ some raw
        → r.partition_name ≡ some name
        → Erased name start w'
        → Formatted r d start w'

  mtd_is_raw :
      (r : RootInfo)
      → Among r g_roots
      → r.device ≡ some mtd_device
      → (name : Bytes) × (r.filesystem ≡ some raw) × (r.partition_name ≡ some name)
  unfolding g_roots
  mtd_is_raw r (inl e) d = (codes "boot", ground arith, ground arith)
  mtd_is_raw r (inr (inr (inr (inr (inr (inl e)))))) d =
      (codes "recovery", ground arith, ground arith)
  mtd_is_raw r (inr (inl e)) d = absurd (ground arith)
  mtd_is_raw r (inr (inr (inl e))) d = absurd (ground arith)
  mtd_is_raw r (inr (inr (inr (inl e)))) d = absurd (ground arith)
  mtd_is_raw r (inr (inr (inr (inr (inl e))))) d = absurd (ground arith)
  mtd_is_raw r (inr (inr (inr (inr (inr (inr h)))))) d = absurd (ground arith)

  format_unmounted-Erased :
      (r : RootInfo) (name : Bytes) (w w' : W)
      → r.filesystem ≡ some raw
      → r.partition_name ≡ some name
      → format_unmounted os r mtd_device w ≡ (pos 0, w')
      → Erased name w w'
  unfolding format_unmounted
  format_unmounted-Erased r name w w' f n h =
      let v = os.mtd_scan_partitions w in
      elim (Option-cases (os.mtd_find_partition_by_name name v)) [
        | inl e ↦ absurd (ground arith)
        | inr (p, e) ↦ record {
          partition = p;
          found = e;
          opened = ground arith;
          erased = ground arith;
          closed = ground arith;
          left = ground arith;
        }
      ]

  format_unmounted-block :
      (r : RootInfo) (path : Bytes) (fs : Option Filesystem) (w w' : W)
      → r.filesystem ≡ fs
      → format_unmounted os r (block_device path) w ≡ (pos 0, w')
      → Formatted r (block_device path) w w'
  unfolding format_unmounted
  format_unmounted-block r path none w w' f h = absurd (ground arith)
  format_unmounted-block r path (some raw) w w' f h = absurd (ground arith)
  format_unmounted-block r path (some package_file) w w' f h = absurd (ground arith)
  format_unmounted-block r path (some (fs_named fs)) w w' f h =
      elim (Bool-cases (bytes_eq fs (codes "rfs"))) [
        | inl t ↦
            by_fformat path refl (f ∙ ap (λ n. some (fs_named n)) ((bytes_eq_iff fs _).0 t))
              (ground arith)
        | inr t ↦ absurd (ground arith)
      ]

  format_unmounted-Formatted :
      (r : RootInfo) (d : Device) (w w' : W)
      → Among r g_roots
      → r.device ≡ some d
      → format_unmounted os r d w ≡ (pos 0, w')
      → Formatted r d w w'
  format_unmounted-Formatted r mtd_device w w' m e h =
      let (name, f, n) = mtd_is_raw r m e in
      by_erasing name refl f n (format_unmounted-Erased r name w w' f n h)
  format_unmounted-Formatted r (block_device path) w w' m e h =
      format_unmounted-block r path r.filesystem w w' refl h

  ensure_root_path_unmounted-Released :
      (path mp : Bytes) (r : RootInfo) (w : W)
      → get_root_info_for_path path ≡ some r
      → r.mount_point ≡ some mp
      → is_negative (ensure_root_path_unmounted os path w).0 ≡ false
      → Released mp w (ensure_root_path_unmounted os path w).1
  unfolding ensure_root_path_unmounted
  ensure_root_path_unmounted-Released path mp r w e m h =
      elim (Bool-cases (is_negative (os.scan_mounted_volumes w).0)) [
        | inl t ↦ absurd (ground arith)
        | inr t ↦ elim (Bool-cases (os.volume_mounted (os.scan_mounted_volumes w).1 mp)) [
          | inl u ↦ unmounted t u (ground arith) (ground arith)
          | inr u ↦ absent t u (ground arith)
        ]
      ]

  -- The state in which the formatting begins, and the root that is formatted.
  pub record Formats (path : Bytes) (w w' : W) : Type 0 where
    pub target : RootInfo
    pub device : Device
    pub start : W
    pub listed : Among target g_roots
    pub named : path ≡ target.name
    pub on_device : target.device ≡ some device
    pub begins : Begins target w start
    pub formatted : Formatted target device start w'

  is_bare_root-name :
      (path : Bytes) (r : RootInfo)
      → is_bare_root path ≡ true
      → get_root_info_for_path path ≡ some r
      → path ≡ r.name
  unfolding is_bare_root
  is_bare_root-name path r bare e =
      let (m, rest, split) = (get_root_info_for_path_iff path r).0 e in
      let (k, c, kl) = colon_index-name path r e in
      let whole : length path ≡ suc k = ground arith in
      split ∙ eq_of_length r.name rest (omega (arith, ap length split))

  format_root-start :
      (path : Bytes) (r : RootInfo) (d : Device) (w w' : W)
      → get_root_info_for_path path ≡ some r
      → format_root os path r (some d) w ≡ (pos 0, w')
      → (start : W) × Begins r w start × (format_unmounted os r d start ≡ (pos 0, w'))
  unfolding format_root
  format_root-start path r d w w' e h = elim (Option-cases r.mount_point) [
    | inl m ↦ (w, no_mount_point m refl, ground arith)
    | inr (mp, m) ↦
        let done = ensure_root_path_unmounted os path w in
        let fine : is_negative done.0 ≡ false = ground arith in
        (
          done.1,
          released mp m (ensure_root_path_unmounted-Released path mp r w e m fine),
          ground arith,
        )
  ]

  -- When `format_root_device` returns 0, its argument is the bare name of a root with a device. Where
  -- the root has a mount point, the mounted volumes were read, and a volume that was found there was
  -- unmounted with success. The device was formatted from the state left by that: a block device by
  -- fformat, which ended with status 0, and a raw MTD partition by erasing it, with each call on the
  -- partition successful. Nothing is done after that.
  pub format_root_device-Formats :
      (path : Bytes) (w w' : W) → format_root_device os path w ≡ (pos 0, w') → Formats path w w'
  unfolding format_root_device
  format_root_device-Formats path w w' h = elim (Bool-cases (is_bare_root path)) [
    | inr b ↦ absurd (ground arith)
    | inl b ↦ elim (Option-cases (get_root_info_for_path path)) [
      | inl e ↦ absurd (ground arith)
      | inr (r, e) ↦ elim (Option-cases r.device) [
        | inl d ↦ absurd (unfold format_root in ground arith)
        | inr (d, dev) ↦
            let listed = ((get_root_info_for_path_iff path r).0 e).0 in
            let (start, begins, result) = format_root-start path r d w w' e (ground arith) in
            record {
              target = r;
              device = d;
              start = start;
              listed = listed;
              named = is_bare_root-name path r b e;
              on_device = dev;
              begins = begins;
              formatted = format_unmounted-Formatted r d start w' listed dev result;
            }
      ]
    ]
  ]
