-- ===== src/Os.antt =====
-- What the recovery asks of the system: the calls into mtdutils and the kernel that roots.c and
-- bootloader.c make. `W` is the state of the system; partitions are their indices.
pub mod Example
use recovery_sdx.Base.{ℕ, Bool, Option, Bytes}
use recovery_sdx.Base.Int.{ℤ}

-- `volume_mounted w mp` says that find_mounted_volume_by_mount_point finds a volume; a context of
-- mtdutils is identified with its partition, and its state is part of `W`. `run_fformat` is the
-- child process of format_root_device: its wait status is normal with exit code 0.
-- `mtd_write_null p n` is mtd_write_data of n bytes from a null pointer.
pub record Os (W : Type 0) : Type 0 where
  pub scan_mounted_volumes : W → ℤ × W
  pub volume_mounted : W → Bytes → Bool
  pub unmount_mounted_volume : Bytes → W → ℤ × W
  pub make_dir : Bytes → W → W
  pub mount : Bytes → Bytes → Bytes → Bytes → W → ℤ × W
  pub run_fformat : Bytes → W → Bool × W
  pub mtd_scan_partitions : W → W
  pub mtd_find_partition_by_name : Bytes → W → Option ℕ
  pub mtd_mount_partition : ℕ → Option Bytes → W → ℤ × W
  pub mtd_write_size : ℕ → W → Option ℕ
  pub mtd_read_partition : ℕ → W → Bool
  pub mtd_read_data : ℕ → ℕ → W → Option Bytes
  pub mtd_write_partition : ℕ → W → Bool × W
  pub mtd_write_data : ℕ → Bytes → W → Bool × W
  pub mtd_write_null : ℕ → ℕ → W → Bool × W
  pub mtd_erase_all : ℕ → W → Bool × W
  pub mtd_align_block : ℕ → W → Option ℕ × W
  pub mtd_write_close : ℕ → W → ℤ × W
