-- ===== src/Roots.antt =====
-- roots.c: the table of the roots, paths below them, and the operations on their devices. A null
-- pointer is `none`; the marker strings that the code compares by address are constructors.
pub mod Paths
pub mod Mounting
pub mod Format
pub mod Safety
mod Tests
use recovery_sdx.Base.{
  ℕ, suc, ◌+◌, ◌-◌, Bool, true, false, not, ◌&&◌, ◌||◌, Option, none, some, List, [], ◌∷◌, ◌++◌,
  Bytes, ◌==◌, ltb, leb, if◌then◌else◌, ◌>>=◌, ◌>>◌, guard, length, take, drop, codes, bytes_eq,
}
use recovery_sdx.Base.Int.{ℤ, pos, negsuc, minus_one, is_negative, is_nonzero}
use recovery_sdx.Os.{Os}

pub data Device : Type 0 where
  mtd_device : Device
  block_device : Bytes → Device

pub data Filesystem : Type 0 where
  raw package_file : Filesystem
  fs_named : Bytes → Filesystem

pub record RootInfo : Type 0 where
  pub name : Bytes
  pub device : Option Device
  pub device2 : Option Bytes
  pub partition_name : Option Bytes
  pub mount_point : Option Bytes
  pub filesystem : Option Filesystem

abbrev root :
    Bytes
    → Option Device
    → Option Bytes
    → Option Bytes
    → Option Bytes
    → Option Filesystem
    → RootInfo
root n d d2 p m f = record {
  name = n;
  device = d;
  device2 = d2;
  partition_name = p;
  mount_point = m;
  filesystem = f;
}

abbrev pub rfs : Bytes
rfs = codes "rfs"

abbrev stl : Bytes → Option Device
stl n = some (block_device (codes "/dev/stl" ++ n))

unfoldable pub g_roots : List RootInfo
g_roots =
    root (codes "BOOT:") (some mtd_device) none (some (codes "boot")) none (some raw)
    ∷ root (codes "SYSTEM:") (stl (codes "5")) none (some (codes "system")) (some (codes "/system"))
        (some (fs_named rfs))
    ∷ root (codes "DATA:") (stl (codes "6")) none (some (codes "userdata")) (some (codes "/data"))
        (some (fs_named rfs))
    ∷ root (codes "CACHE:") (stl (codes "7")) none (some (codes "cache")) (some (codes "/cache"))
        (some (fs_named rfs))
    ∷ root (codes "PACKAGE:") none none none none (some package_file)
    ∷ root (codes "RECOVERY:") (some mtd_device) none (some (codes "recovery")) (some (codes "/"))
        (some raw)
    ∷ root (codes "SDCARD:") (some (block_device (codes "/dev/block/mmcblk0p1")))
        (some (codes "/dev/block/mmcblk0")) none (some (codes "/sdcard"))
        (some (fs_named (codes "vfat")))
    ∷ root (codes "TMP:") none none none (some (codes "/tmp")) none
    ∷ []

-- The loop that finds the first colon.
unfoldable pub colon_index : Bytes → Option ℕ
colon_index [] = none
colon_index (c ∷ s) = if c == b':' then some 0 else colon_index s >>= λ i. some (suc i)

-- `strncmp(info->name, root_path, len) == 0`
unfoldable pub find_root : ℕ → Bytes → List RootInfo → Option RootInfo
find_root len path [] = none
find_root len path (r ∷ rs) =
    if bytes_eq (take len r.name) (take len path) then some r else find_root len path rs

unfoldable pub get_root_info_for_path : Bytes → Option RootInfo
unfolding colon_index find_root g_roots
get_root_info_for_path path = do i ← colon_index path; find_root (suc i) path g_roots

is_package_file : Option Filesystem → Bool
is_package_file none = false
is_package_file (some raw) = false
is_package_file (some package_file) = true
is_package_file (some (fs_named n)) = false

unfoldable pub is_package_root_path : Bytes → Bool
unfolding is_package_file get_root_info_for_path
is_package_root_path path = elim (get_root_info_for_path path) [
  | none ↦ false
  | some r ↦ is_package_file r.filesystem
]

-- The path in the package; `out_package` is `g_package`, whatever it is.
unfoldable pub translate_package_root_path : Bytes → ℕ → Option Bytes
unfolding is_package_file get_root_info_for_path
translate_package_root_path path out_buf_len = do
  r ← get_root_info_for_path path
  guard (is_package_file r.filesystem)
  let rest = drop (length r.name) path
  guard (not (ltb out_buf_len (length rest + 1)))
  some rest

unfoldable pub skip_slashes : Bytes → Bytes
skip_slashes [] = []
skip_slashes (c ∷ s) = if c == b'/' then skip_slashes s else c ∷ s

unfoldable pub ends_in_slash : Bytes → Bool
ends_in_slash [] = false
ends_in_slash (c ∷ []) = c == b'/'
ends_in_slash (c ∷ d ∷ s) = ends_in_slash (d ∷ s)

unfoldable pub translate_root_path : Bytes → ℕ → Option Bytes
unfolding get_root_info_for_path skip_slashes ends_in_slash
translate_root_path path out_buf_len = do
  guard (not (ltb out_buf_len 1))
  r ← get_root_info_for_path path
  mp ← r.mount_point
  let rest = skip_slashes (drop (length r.name) path)
  guard (not (ltb out_buf_len (length mp + 1 + length rest + 1)))
  some ((if ends_in_slash mp then mp else mp ++ codes "/") ++ rest)

module _ {W : Type 0} (os : Os W) where
  unfoldable pub root_mounted_at : Option Bytes → W → ℤ × W
  root_mounted_at none w = (minus_one, w)
  root_mounted_at (some mp) w =
      let (ret, w') = os.scan_mounted_volumes w in
      if is_negative ret
      then (ret, w')
      else if os.volume_mounted w' mp
      then (pos 0, w')
      else (minus_one, w')

  unfoldable pub internal_root_mounted : RootInfo → W → ℤ × W
  unfolding root_mounted_at
  internal_root_mounted r w = root_mounted_at r.mount_point w

  -- -1, or the truth value of the comparison
  unfoldable pub is_root_path_mounted : Bytes → W → ℤ × W
  unfolding internal_root_mounted
  is_root_path_mounted path w = elim (get_root_info_for_path path) [
    | none ↦ (minus_one, w)
    | some r ↦
        let (ret, w') = internal_root_mounted r w in (if is_negative ret then pos 0 else pos 1, w')
  ]

  mount_second : Option Bytes → Bytes → Bytes → W → ℤ × W
  mount_second none mp fs w = (minus_one, w)
  mount_second (some d2) mp fs w =
      let (ret, w') = os.mount d2 mp fs [] w in (if is_nonzero ret then minus_one else pos 0, w')

  -- The device, and the second device if that fails; rfs has options of its own.
  unfoldable pub mount_device : RootInfo → Bytes → Bytes → Bytes → W → ℤ × W
  unfolding mount_second
  mount_device r d mp fs w =
      let is_rfs = bytes_eq fs rfs in
      let w₁ = if is_rfs then w else os.make_dir mp w in
      let (ret, w₂) = os.mount d mp fs (if is_rfs then codes "xattr,check=no" else []) w₁ in
      if is_nonzero ret then mount_second r.device2 mp fs w₂ else (pos 0, w₂)

  mtd_mount : Option Bytes → Option Bytes → W → ℤ × W
  mtd_mount none mp w = (minus_one, w)
  mtd_mount (some name) mp w =
      let w' = os.mtd_scan_partitions w in
      elim (os.mtd_find_partition_by_name name w') [
        | none ↦ (minus_one, w')
        | some p ↦ os.mtd_mount_partition p mp w'
      ]

  mount_block : RootInfo → Bytes → Option Bytes → Option Filesystem → W → ℤ × W
  mount_block r d (some mp) (some (fs_named fs)) w = mount_device r d mp fs w
  mount_block r d _ _ w = (minus_one, w)

  mount_root : RootInfo → Option Device → W → ℤ × W
  unfolding mount_device mtd_mount mount_block
  mount_root r none w = (minus_one, w)
  mount_root r (some mtd_device) w = mtd_mount r.partition_name r.mount_point w
  mount_root r (some (block_device d)) w = mount_block r d r.mount_point r.filesystem w

  unfoldable pub ensure_root_path_mounted : Bytes → W → ℤ × W
  unfolding internal_root_mounted mount_root
  ensure_root_path_mounted path w = elim (get_root_info_for_path path) [
    | none ↦ (minus_one, w)
    | some r ↦
        let (ret, w') = internal_root_mounted r w in
        if is_negative ret then mount_root r r.device w' else (pos 0, w')
  ]

  unmount_at : Option Bytes → W → ℤ × W
  unmount_at none w = (pos 0, w)
  unmount_at (some mp) w =
      let (ret, w') = os.scan_mounted_volumes w in
      if is_negative ret
      then (ret, w')
      else if os.volume_mounted w' mp
      then os.unmount_mounted_volume mp w'
      else (pos 0, w')

  unfoldable pub ensure_root_path_unmounted : Bytes → W → ℤ × W
  unfolding unmount_at
  ensure_root_path_unmounted path w = elim (get_root_info_for_path path) [
    | none ↦ (minus_one, w)
    | some r ↦ unmount_at r.mount_point w
  ]

  mtd_partition_of : Option Device → Option Bytes → W → Option ℕ × W
  mtd_partition_of (some mtd_device) (some name) w =
      let w' = os.mtd_scan_partitions w in (os.mtd_find_partition_by_name name w', w')
  mtd_partition_of _ _ w = (none, w)

  unfoldable pub get_root_mtd_partition : Bytes → W → Option ℕ × W
  unfolding mtd_partition_of
  get_root_mtd_partition path w = elim (get_root_info_for_path path) [
    | none ↦ (none, w)
    | some r ↦ mtd_partition_of r.device r.partition_name w
  ]
