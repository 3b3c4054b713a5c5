-- ===== src/Os/Example.antt =====
-- A small system behind `Os`: a list of mount points, and one flash memory with
-- pages of 544 bytes behind every partition.
use recovery_sdx.Base.{
  ℕ, ◌≡◌, Bool, true, false, ◌||◌, none, some, List, [], ◌∷◌, ◌++◌, Bytes, leb, if◌then◌else◌,
  length, take, drop, codes, bytes_eq, arith, length-take,
}
use recovery_sdx.Base.Int.{pos, minus_one}
use recovery_sdx.Os.{Os}
use recovery_sdx.Bootloader.Message.{IsFlash}

pub record Sys : Type 0 where
  pub mounts : List Bytes
  pub flash : Bytes

unfoldable pub contains : Bytes → List Bytes → Bool
contains mp [] = false
contains mp (m ∷ ms) = bytes_eq m mp || contains mp ms

unfoldable pub remove : Bytes → List Bytes → List Bytes
remove mp [] = []
remove mp (m ∷ ms) = if bytes_eq m mp then remove mp ms else m ∷ remove mp ms

abbrev pub toy_os : Os Sys
toy_os = record {
  scan_mounted_volumes = λ w. (pos 0, w);
  volume_mounted = λ w mp. contains mp w.mounts;
  unmount_mounted_volume = λ mp w. (pos 0, record w { mounts = remove mp w.mounts });
  make_dir = λ mp w. w;
  mount = λ d mp fs o w. (pos 0, record w { mounts = mp ∷ w.mounts });
  run_fformat = λ d w. (true, w);
  mtd_scan_partitions = λ w. w;
  mtd_find_partition_by_name = λ name w.
      if bytes_eq name (codes "boot")
      then some 0
      else if bytes_eq name (codes "recovery")
      then some 1
      else none;
  mtd_mount_partition = λ p mp w. elim mp [
    | none ↦ (minus_one, w)
    | some m ↦ (pos 0, record w { mounts = m ∷ w.mounts })
  ];
  mtd_write_size = λ p w. some 544;
  mtd_read_partition = λ p w. true;
  mtd_read_data = λ p n w. if leb n (length w.flash) then some (take n w.flash) else none;
  mtd_write_partition = λ p w. (true, w);
  mtd_write_data = λ p b w. (true, record w { flash = b ++ drop (length b) w.flash });
  mtd_write_null = λ p n w. (false, w);
  mtd_erase_all = λ p w. (true, record w { flash = [] });
  mtd_align_block = λ p w. (some 0, w);
  mtd_write_close = λ p w. (pos 0, w);
}

read_whole :
    (n : ℕ) (flash b : Bytes)
    → (if leb n (length flash) then some (take n flash) else none) ≡ some b
    → length b ≡ n
read_whole n flash b h = ground (arith, length-take n flash)

pub toy_os-IsFlash : IsFlash toy_os
toy_os-IsFlash = record { read_length = λ p n w b h. read_whole n w.flash b h }
