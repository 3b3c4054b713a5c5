-- ===== src/Mtd/Mounts/Tests.antt =====
-- A table with one volume, found and unmounted.
use recovery_sdx.Base.{
  until_nul, ℕ, ◌+◌, ◌≡◌, refl, true, Option, none, some, [], ◌∷◌, ◌++◌, Bytes, codes, ◌==◌,
  if◌then◌else◌, bytes_eq,
}
use recovery_sdx.Base.Int.{ℤ, pos}
use recovery_sdx.Mtd.Mounts.{
  MountsState, Fields, numv, no_volume, volume_of, find_mounted_volume_by_mount_point,
  find_mounted_volume_by_device, unmount_mounted_volume,
}
use recovery_sdx.Mtd.Mounts.Mounted.{mounted, parsed, starts}
use recovery_sdx.Mtd.Mounts.Unmounted.{without, unmount_mounted_volume-without}

-- Every line that begins with a slash is taken for the volume of /data.
abbrev data_fields : Fields
data_fields = record {
  device = codes "/dev/block/mtdblock5";
  mount_point = codes "/data";
  filesystem = codes "yaffs2";
  flags = codes "rw";
}

abbrev scan_fields : Bytes → Option Fields
scan_fields [] = none
scan_fields (c ∷ s) = if c == b'/' then some data_fields else none

abbrev before : MountsState
before = record { volumes = none; volumes_allocd = 0; volume_count = 0 }

abbrev text : Bytes
text = codes "rootfs" ++ (10 ∷ codes "/dev/block/mtdblock5") ++ (10 ∷ [])

one_volume : parsed scan_fields (starts true text) ≡ volume_of data_fields ∷ []
unfolding parsed starts until_nul
one_volume = refl

-- Two volumes, stacked at the same place, behind one that has been unmounted.
abbrev stacked : MountsState
stacked = record {
  volumes = some (no_volume ∷ volume_of data_fields ∷ volume_of data_fields ∷ []);
  volumes_allocd = numv;
  volume_count = 3;
}

second : find_mounted_volume_by_mount_point (codes "/data") stacked ≡ some 1
unfolding find_mounted_volume_by_mount_point bytes_eq volume_of
second = refl

by_device : find_mounted_volume_by_device (codes "/dev/block/mtdblock5") stacked ≡ some 1
unfolding find_mounted_volume_by_device bytes_eq volume_of
by_device = refl

-- The number of unmounts is counted.
abbrev umount : Option Bytes → ℕ → ℤ × ℕ
umount mp w = (pos 0, w + 1)

unmount_mounted_volume-without_example :
    ((unmount_mounted_volume umount 1 stacked 0).0 ≡ pos 0)
    × (mounted (unmount_mounted_volume umount 1 stacked 0).1
        ≡ without (codes "/data") (mounted stacked))
    × ((unmount_mounted_volume umount 1 stacked 0).2 ≡ 1)
unmount_mounted_volume-without_example =
    unmount_mounted_volume-without umount (codes "/data") stacked 1 0 second
