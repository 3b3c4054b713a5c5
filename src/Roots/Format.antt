-- ===== src/Roots/Format.antt =====
-- `format_root_device` of roots.c.
use recovery_sdx.Base.{
  ℕ, suc, Bool, true, false, Option, none, some, Bytes, ◌==◌, if◌then◌else◌, length, codes,
  bytes_eq,
}
use recovery_sdx.Base.Int.{ℤ, pos, minus_one, is_negative, is_nonzero}
use recovery_sdx.Os.{Os}
use recovery_sdx.Roots.{
  Device, mtd_device, block_device, Filesystem, raw, fs_named, RootInfo, rfs, colon_index,
  get_root_info_for_path, ensure_root_path_unmounted,
}

-- Nothing stands behind the first colon.
unfoldable pub is_bare_root : Bytes → Bool
unfolding colon_index
is_bare_root path = elim (colon_index path) [ none ↦ false | some i ↦ length path == suc i ]

is_rfs : Option Filesystem → Bool
is_rfs (some (fs_named fs)) = bytes_eq fs rfs
is_rfs _ = false

is_erasable : Option Filesystem → Bool
is_erasable (some raw) = true
is_erasable (some (fs_named fs)) = bytes_eq fs (codes "yaffs2")
is_erasable _ = false

-- the string that the device pointer points to
device_text : Device → Bytes
device_text mtd_device = codes "@"
device_text (block_device d) = d

module _ {W : Type 0} (os : Os W) where
  erase_partition : ℕ → W → ℤ × W
  erase_partition p w =
      let (opened, w₁) = os.mtd_write_partition p w in
      let (erased, w₂) = os.mtd_erase_all p w₁ in
      let (closed, w₃) = os.mtd_write_close p w₂ in
      if opened
      then if erased then (if is_nonzero closed then minus_one else pos 0, w₃) else (minus_one, w₃)
      else (minus_one, w₁)

  format_mtd : Option Bytes → Option Filesystem → W → ℤ × W
  unfolding erase_partition is_erasable
  format_mtd none fs w = (minus_one, w)
  format_mtd (some name) fs w =
      let w' = os.mtd_scan_partitions w in
      elim (os.mtd_find_partition_by_name name w') [
        | none ↦ (minus_one, w')
        | some p ↦ if is_erasable fs then erase_partition p w' else (minus_one, w')
      ]

  format_device : RootInfo → Device → W → ℤ × W
  format_device r mtd_device w = format_mtd r.partition_name r.filesystem w
  format_device r (block_device d) w = (minus_one, w)

  -- from the test of the file system on
  unfoldable pub format_unmounted : RootInfo → Device → W → ℤ × W
  unfolding is_rfs device_text format_mtd format_device
  format_unmounted r d w =
      let (ok, w') = os.run_fformat (device_text d) w in
      if is_rfs r.filesystem then (if ok then pos 0 else minus_one, w') else format_device r d w

  unfoldable pub format_root : Bytes → RootInfo → Option Device → W → ℤ × W
  format_root path r none w = (minus_one, w)
  format_root path r (some d) w = elim r.mount_point [
    | none ↦ format_unmounted r d w
    | some mp ↦
        let (ret, w') = ensure_root_path_unmounted os path w in
        if is_negative ret then (ret, w') else format_unmounted r d w'
  ]

  unfoldable pub format_root_device : Bytes → W → ℤ × W
  unfolding is_bare_root format_root get_root_info_for_path
  format_root_device path w = elim (is_bare_root path) [
    | false ↦ (minus_one, w)
    | true ↦ elim (get_root_info_for_path path) [
      | none ↦ (minus_one, w)
      | some r ↦ format_root path r r.device w
    ]
  ]
