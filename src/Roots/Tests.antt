-- ===== src/Roots/Tests.antt =====
-- Paths of test_roots.c, and the theorems on the roots at a small system.
use recovery_sdx.Base.{◌≡◌, refl, none, some, [], ◌∷◌, ◌++◌, Bytes, codes, bytes_eq, Among, ◌≤◌}
use recovery_sdx.Os.Example.{Sys, toy_os, contains, remove}
use recovery_sdx.Roots.{
  g_roots, RootInfo, Device, Filesystem, get_root_info_for_path, translate_root_path,
  translate_package_root_path, is_package_root_path, ensure_root_path_mounted,
  ensure_root_path_unmounted, get_root_mtd_partition,
}
use recovery_sdx.Roots.Paths.{AllSlashes, NoSlashFirst, Joined, translate_root_path-eq}
use recovery_sdx.Roots.Format.{format_unmounted, format_root_device}
use recovery_sdx.Roots.Safety.{Formats, format_root_device-Formats}

roots_code : Unit {0}
unfolding bytes_eq contains remove get_root_info_for_path translate_root_path
    translate_package_root_path is_package_root_path ensure_root_path_mounted
    ensure_root_path_unmounted get_root_mtd_partition format_root_device format_unmounted
roots_code = tt

translations :
    (translate_root_path (codes "SYSTEM:lib//x") 64 ≡ some (codes "/system/lib//x"))
    × (translate_root_path (codes "SYSTEM:///lib") 64 ≡ some (codes "/system/lib"))
    × (translate_root_path (codes "RECOVERY:sbin") 64 ≡ some (codes "/sbin"))
    × (translate_root_path (codes "SYSTEM:") 64 ≡ some (codes "/system/"))
    × (translate_root_path (codes "SYSTEM:lib") 11 ≡ none)
    × (translate_root_path (codes "SYSTE:lib") 64 ≡ none)
    × (translate_root_path (codes "lib") 64 ≡ none)
    × (translate_root_path (codes "PACKAGE:lib") 64 ≡ none)
    × (translate_package_root_path (codes "PACKAGE:lib") 4 ≡ some (codes "lib"))
unfolding roots_code
translations = (refl, refl, refl, refl, refl, refl, refl, refl, refl)

abbrev idle : Sys
idle = record { mounts = codes "/data" ∷ []; flash = [] }

translate_root_path-eq_example :
    (r : RootInfo) × (mp : Bytes) × (slashes : Bytes) × (tail : Bytes) × Among r g_roots
    × (codes "SYSTEM:/lib" ≡ r.name ++ slashes ++ tail)
    × AllSlashes slashes
    × NoSlashFirst tail
    × (r.mount_point ≡ some mp)
    × Joined mp tail (codes "/system/lib")
    × (12 ≤ 64)
unfolding roots_code
translate_root_path-eq_example =
    translate_root_path-eq (codes "SYSTEM:/lib") (codes "/system/lib") 64 refl

abbrev sd_root : RootInfo
sd_root = record {
  name = codes "SDCARD:";
  device = some (Device.block_device (codes "/dev/block/mmcblk0p1"));
  device2 = some (codes "/dev/block/mmcblk0");
  partition_name = none;
  mount_point = some (codes "/sdcard");
  filesystem = some (Filesystem.fs_named (codes "vfat"));
}

format_root_device-Formats_example :
    Formats toy_os (codes "DATA:") idle (record idle { mounts = [] })
unfolding roots_code
format_root_device-Formats_example =
    format_root_device-Formats toy_os (codes "DATA:") idle (record idle { mounts = [] }) refl
