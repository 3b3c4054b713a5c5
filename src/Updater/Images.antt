-- ===== src/Updater/Images.antt =====
-- `WriteRawImageFn`, `WriteFirmwareImageFn` and `ApplyPatchFn` of updater/install.c.
use recovery_sdx.Base.{
  ℕ, Bool, true, false, Option, none, some, List, [], ◌∷◌, ◌++◌, Bytes, ◌==◌, if◌then◌else◌, codes,
  length,
}
use recovery_sdx.Base.Int.{ℤ, pos, negsuc}
use recovery_sdx.Edify.Strings.{strstr}
use recovery_sdx.Edify.Expr.{M, ret, Arg}
use recovery_sdx.Edify.Arguments.{error_abort, read_two, read_var_args}
use recovery_sdx.Updater.Machine.{Machine, Info, calling, running, asking, sending}
use recovery_sdx.Updater.Volumes.{is_blank, cannot_be_empty}

-- `wrote == read`
unfoldable pub is_all : ℤ → ℕ → Bool
is_all (pos n) read = n == read
is_all (negsuc n) read = false

unfoldable pub firmware_command : Bytes → Bytes → Bytes
firmware_command partition filename =
    codes "firmware " ++ partition ++ codes " " ++ filename ++ (10 ∷ [])

-- What is put in front of the arguments.
unfoldable pub prepended : Bytes → List Bytes → List Bytes
prepended name args =
    codes "updater"
    ∷ (if strstr (codes "check") name
        then codes "-c" ∷ args
        else if strstr (codes "space") name
        then codes "-s" ∷ args
        else args)

module _ {W : Type 0} where
  unfoldable pub applied : ℤ → M (Info W)
  unfolding error_abort
  applied (pos n) =
      if n == 0
      then ret (codes "t")
      else if n == 1
      then ret []
      else error_abort (codes "applypatch couldn't parse args")
  applied (negsuc n) = error_abort (codes "applypatch couldn't parse args")

module _ {W : Type 0} (m : Machine W) where
  -- The loop over the chunks of the file ends at the first one that is not written whole.
  unfoldable pub write_chunks : ℕ → List Bytes → W → Bool × W
  unfolding is_all
  write_chunks ctx [] w = (true, w)
  write_chunks ctx (c ∷ cs) w =
      let (wrote, w') = m.mtd_write_data ctx c w in
      let rest = write_chunks ctx cs w' in if is_all wrote (length c) then rest else (false, w')

  -- What the erasing and the closing return is not looked at.
  unfoldable pub write_file : Bytes → ℕ → Option (List Bytes) → M (Info W)
  unfolding write_chunks
  write_file partition ctx none = ret []
  write_file partition ctx (some cs) = calling (write_chunks ctx cs) λ success.
      running (λ w. (m.mtd_write_close ctx (m.mtd_erase_blocks ctx w).1).1)
        (ret (if success then partition else []))

  unfoldable pub write_opened : Bytes → Bytes → Option ℕ → M (Info W)
  unfolding write_file
  write_opened partition filename none = ret []
  write_opened partition filename (some ctx) = asking (m.chunks filename) (write_file partition ctx)

  unfoldable pub write_found : Bytes → Bytes → Option ℕ → M (Info W)
  unfolding write_opened
  write_found partition filename none = ret []
  write_found partition filename (some mtd) =
      calling (m.mtd_write_partition mtd) (write_opened partition filename)

  unfoldable pub write_raw_image_fn : Bytes → List (Arg (Info W)) → M (Info W)
  unfolding write_found cannot_be_empty
  write_raw_image_fn name args = read_two args (λ filename partition.
      if is_blank partition
      then cannot_be_empty (codes "partition") name
      else if is_blank filename
      then cannot_be_empty (codes "file") name
      else running m.mtd_scan_partitions
          (asking (m.mtd_find_partition_by_name partition) (write_found partition filename)))

  unfoldable pub write_firmware_image_fn : Bytes → List (Arg (Info W)) → M (Info W)
  unfolding firmware_command cannot_be_empty
  write_firmware_image_fn name args = read_two args (λ filename partition.
      if is_blank partition
      then cannot_be_empty (codes "partition") name
      else if is_blank filename
      then cannot_be_empty (codes "file") name
      else sending (firmware_command partition filename) (ret partition))

  unfoldable pub apply_patch_fn : Bytes → List (Arg (Info W)) → M (Info W)
  unfolding prepended applied
  apply_patch_fn name args =
      read_var_args args (λ read. calling (m.applypatch (prepended name read)) applied)
