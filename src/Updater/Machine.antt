-- ===== src/Updater/Machine.antt =====
-- What updater/install.c asks of the system, of mtdutils, of minzip and of the package, and the
-- state that its functions share.
use recovery_sdx.Base.{ℕ, Bool, Option, List, Bytes, ◌++◌}
use recovery_sdx.Base.Int.{ℤ}
use recovery_sdx.Edify.Expr.{State, M, null}

-- `W` is the state of the system. Files, volumes and partitions are opened and found as numbers.
-- `chunks` is what the calls of `fread` give for a file, `format_f` a text read by `strtod` and
-- printed with "%f", and `format_d` a number printed with "%d".
pub record Machine (W : Type 0) : Type 0 where
  pub format_d : ℤ → Bytes
  pub format_f : Bytes → Bytes
  pub strtoul : Bytes → ℕ × Bytes
  pub strerror : W → Bytes
  pub mkdir : Bytes → W → W
  pub mount : Bytes → Bytes → Bytes → W → ℤ × W
  pub scan_mounted_volumes : W → W
  pub find_mounted_volume_by_mount_point : Bytes → W → Option ℕ
  pub unmount_mounted_volume : ℕ → W → ℤ × W
  pub mtd_scan_partitions : W → W
  pub mtd_find_partition_by_name : Bytes → W → Option ℕ
  pub mtd_mount_partition : ℕ → Bytes → W → ℤ × W
  pub mtd_write_partition : ℕ → W → Option ℕ × W
  pub mtd_write_data : ℕ → Bytes → W → ℤ × W
  pub mtd_erase_blocks : ℕ → W → ℤ × W
  pub mtd_write_close : ℕ → W → ℤ × W
  pub unlink : Bytes → W → ℤ × W
  pub dir_unlink_hierarchy : Bytes → W → ℤ × W
  pub symlink : Bytes → Bytes → W → W
  pub chown : Bytes → ℕ → ℕ → W → W
  pub chmod : Bytes → ℕ → W → W
  pub dir_set_hierarchy_permissions : Bytes → ℕ → ℕ → ℕ → ℕ → W → W
  pub extract_recursive : Bytes → Bytes → W → Bool × W
  pub find_zip_entry : Bytes → W → Option ℕ
  pub fopen_write : Bytes → W → Bool × W
  pub extract_entry_to_file : ℕ → Bytes → W → Bool × W
  pub property_get : Bytes → W → Bytes
  pub stat_size : Bytes → W → Option ℕ
  pub file_contents : Bytes → W → Option Bytes
  pub chunks : Bytes → W → Option (List Bytes)
  pub applypatch : List Bytes → W → ℤ × W

-- `UpdaterInfo`: what was sent through `cmd_pipe`, and the system with the package.
pub record Info (W : Type 0) : Type 0 where
  pub pipe : Bytes
  pub world : W

module _ {W : Type 0} where
  abbrev pub with_world : State (Info W) → W → State (Info W)
  with_world s w = record s { cookie = record s.cookie { world = w } }

  -- A call whose result is looked at.
  unfoldable pub calling : {A : Type 0} → (W → A × W) → (A → M (Info W)) → M (Info W)
  calling f k s = let (a, w) = f s.cookie.world in k a (with_world s w)

  -- A call whose result is not looked at.
  unfoldable pub running : (W → W) → M (Info W) → M (Info W)
  running f m s = m (with_world s (f s.cookie.world))

  -- A question that changes nothing.
  unfoldable pub asking : {A : Type 0} → (W → A) → (A → M (Info W)) → M (Info W)
  asking f k s = k (f s.cookie.world) s

  -- `fprintf(ui->cmd_pipe, …)`
  unfoldable pub sending : Bytes → M (Info W) → M (Info W)
  sending text m s = m (record s { cookie = record s.cookie { pipe = s.cookie.pipe ++ text } })

  -- NULL, with no message.
  abbrev pub return_null : M (Info W)
  return_null s = (null, s)
