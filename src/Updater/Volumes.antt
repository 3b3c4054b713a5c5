-- ===== src/Updater/Volumes.antt =====
-- `MountFn`, `IsMountedFn`, `UnmountFn` and `FormatFn` of updater/install.c.
use recovery_sdx.Base.{
  ℕ, Bool, true, false, Option, none, some, List, [], ◌∷◌, ◌++◌, Bytes, ◌==◌, if◌then◌else◌, codes,
  bytes_eq, length,
}
use recovery_sdx.Base.Int.{ℤ, pos, negsuc, is_nonzero, is_negative}
use recovery_sdx.Edify.Expr.{M, ret, Arg}
use recovery_sdx.Edify.Arguments.{error_abort, read_one, read_two, read_three}
use recovery_sdx.Updater.Machine.{Machine, Info, calling, running, asking, return_null}

-- "<name>() expects <what>, got <argc>"
unfoldable pub expects : {W : Type 0} → Machine W → Bytes → Bytes → ℕ → M (Info W)
unfolding error_abort
expects m name what argc =
    error_abort (name ++ codes "() expects " ++ what ++ codes ", got " ++ m.format_d (pos argc))

unfoldable pub is_blank : Bytes → Bool
is_blank [] = true
is_blank (c ∷ s) = false

-- "<what> argument to <name> can't be empty"
unfoldable pub cannot_be_empty : {W : Type 0} → Bytes → Bytes → M (Info W)
unfolding error_abort
cannot_be_empty what name =
    error_abort (what ++ codes " argument to " ++ name ++ codes " can't be empty")

-- `mtd_erase_blocks(…) == -1`
unfoldable pub is_minus_one : ℤ → Bool
is_minus_one (pos n) = false
is_minus_one (negsuc n) = n == 0

module _ {W : Type 0} (m : Machine W) where
  unfoldable pub mount_partition : Bytes → Option ℕ → M (Info W)
  mount_partition mount_point none = ret []
  mount_partition mount_point (some mtd) =
      calling (m.mtd_mount_partition mtd mount_point)
        λ r. ret (if is_nonzero r then [] else mount_point)

  unfoldable pub mount_at : Bytes → Bytes → Bytes → M (Info W)
  unfolding mount_partition
  mount_at type location mount_point =
      let on_mtd =
        running m.mtd_scan_partitions
          (asking (m.mtd_find_partition_by_name location) (mount_partition mount_point)) in
      let on_device =
        calling (m.mount location mount_point type)
          λ r. ret (if is_negative r then [] else mount_point) in
      running (m.mkdir mount_point) (if bytes_eq type (codes "MTD") then on_mtd else on_device)

  unfoldable pub mount_fn : Bytes → List (Arg (Info W)) → M (Info W)
  unfolding mount_at expects cannot_be_empty
  mount_fn name args =
      if length args == 3
      then read_three args (λ type location mount_point.
        if is_blank type
        then cannot_be_empty (codes "type") (name ++ codes "()")
        else if is_blank location
        then cannot_be_empty (codes "location") (name ++ codes "()")
        else if is_blank mount_point
        then cannot_be_empty (codes "mount_point") (name ++ codes "()")
        else mount_at type location mount_point)
      else expects m name (codes "3 args") (length args)

  unfoldable pub is_found : Bytes → Option ℕ → M (Info W)
  is_found mount_point none = ret []
  is_found mount_point (some vol) = ret mount_point

  unfoldable pub is_mounted_fn : Bytes → List (Arg (Info W)) → M (Info W)
  unfolding is_found expects cannot_be_empty
  is_mounted_fn name args =
      if length args == 1
      then read_one args (λ mount_point.
        if is_blank mount_point
        then cannot_be_empty (codes "mount_point") (codes "unmount()")
        else running m.scan_mounted_volumes
            (asking (m.find_mounted_volume_by_mount_point mount_point) (is_found mount_point)))
      else expects m name (codes "1 arg") (length args)

  unfoldable pub unmount_found : Bytes → Option ℕ → M (Info W)
  unmount_found mount_point none = ret []
  unmount_found mount_point (some vol) = calling (m.unmount_mounted_volume vol) λ r. ret mount_point

  unfoldable pub unmount_fn : Bytes → List (Arg (Info W)) → M (Info W)
  unfolding unmount_found expects cannot_be_empty
  unmount_fn name args =
      if length args == 1
      then read_one args (λ mount_point.
        if is_blank mount_point
        then cannot_be_empty (codes "mount_point") (codes "unmount()")
        else running m.scan_mounted_volumes
            (asking (m.find_mounted_volume_by_mount_point mount_point) (unmount_found mount_point)))
      else expects m name (codes "1 arg") (length args)

  unfoldable pub erase_all : Bytes → Option ℕ → M (Info W)
  unfolding is_minus_one
  erase_all location none = ret []
  erase_all location (some ctx) = calling (m.mtd_erase_blocks ctx) λ erased.
      calling (m.mtd_write_close ctx) λ closed.
        ret (if is_minus_one erased then [] else if is_nonzero closed then [] else location)

  unfoldable pub format_partition : Bytes → Option ℕ → M (Info W)
  unfolding erase_all
  format_partition location none = ret []
  format_partition location (some mtd) = calling (m.mtd_write_partition mtd) (erase_all location)

  -- Of another type the result is NULL, and no message is left.
  unfoldable pub format_fn : Bytes → List (Arg (Info W)) → M (Info W)
  unfolding format_partition expects cannot_be_empty
  format_fn name args =
      if length args == 2
      then read_two args (λ type location.
        if is_blank type
        then cannot_be_empty (codes "type") (name ++ codes "()")
        else if is_blank location
        then cannot_be_empty (codes "location") (name ++ codes "()")
        else if bytes_eq type (codes "MTD")
        then running m.mtd_scan_partitions
            (asking (m.mtd_find_partition_by_name location) (format_partition location))
        else return_null)
      else expects m name (codes "2 args") (length args)
