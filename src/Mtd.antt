-- ===== src/Mtd.antt =====
-- mtdutils/mtdutils.c: the table of the partitions, and their blocks in children of this module.
pub mod Table
pub mod Blocks
pub mod Mounts
pub mod Stream
mod Tests
use recovery_sdx.Base.{ℕ, Option, Bytes}
use recovery_sdx.Base.Int.{ℤ}

-- `MtdPartition`
pub record MtdPartition : Type 0 where
  pub device_index : ℤ
  pub size : ℕ
  pub erase_size : ℕ
  pub name : Option Bytes
