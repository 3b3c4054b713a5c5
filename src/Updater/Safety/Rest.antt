-- ===== src/Updater/Safety/Rest.antt =====
-- `WriteRawImageFn`, `WriteFirmwareImageFn`, `ApplyPatchFn`, `ShowProgressFn`, `SetProgressFn`,
-- `UIPrintFn` and `GetPropFn` keep the rules.
use recovery_sdx.Base.{
  ℕ, ◌≡◌, true, Option, none, some, List, [], ◌∷◌, Bytes, leb, ◌==◌, codes, length, arith,
}
use recovery_sdx.Base.Int.{ℤ, pos, negsuc}
use recovery_sdx.Edify.Expr.{Arg}
use recovery_sdx.Edify.Safety.{Safe, bind-Safe, ret-Safe, if-Safe}
use recovery_sdx.Edify.Safety.Functions.{SafeArgs}
use recovery_sdx.Updater.Machine.{Machine, Info}
use recovery_sdx.Updater.Volumes.{is_blank}
use recovery_sdx.Updater.Images.{
  write_chunks, write_file, write_opened, write_found, write_raw_image_fn, firmware_command,
  write_firmware_image_fn, prepended, applied, apply_patch_fn,
}
use recovery_sdx.Updater.Screen.{joined, cut, show_progress_fn, set_progress_fn, ui_print_fn}
use recovery_sdx.Updater.Safety.{
  calling-Safe, running-Safe, asking-Safe, sending-Safe, error_abort-Safe, read_one-Safe,
  read_two-Safe, read_var_args-Safe,
}
use recovery_sdx.Updater.Safety.Volumes.{expects-Safe, cannot_be_empty-Safe, counted-Safe}
use recovery_sdx.Updater.Properties.{get_prop_fn}

module _ {W : Type 0} (m : Machine W) {script : Bytes} where
  write_file-Safe :
      (partition : Bytes) (ctx : ℕ) (o : Option (List Bytes))
      → Safe script (write_file m partition ctx o)
  unfolding write_file
  write_file-Safe partition ctx none = ret-Safe []
  write_file-Safe partition ctx (some cs) =
      calling-Safe (write_chunks m ctx cs) _ λ success. running-Safe _ _ (ret-Safe _)

  write_opened-Safe :
      (partition filename : Bytes) (o : Option ℕ)
      → Safe script (write_opened m partition filename o)
  unfolding write_opened
  write_opened-Safe partition filename none = ret-Safe []
  write_opened-Safe partition filename (some ctx) =
      asking-Safe (m.chunks filename) _ (write_file-Safe partition ctx)

  write_found-Safe :
      (partition filename : Bytes) (o : Option ℕ) → Safe script (write_found m partition filename o)
  unfolding write_found
  write_found-Safe partition filename none = ret-Safe []
  write_found-Safe partition filename (some mtd) =
      calling-Safe (m.mtd_write_partition mtd) _ (write_opened-Safe partition filename)

  pub write_raw_image_fn-Safe :
      (name : Bytes) (args : List (Arg (Info W)))
      → SafeArgs script args
      → leb 2 (length args) ≡ true
      → Safe script (write_raw_image_fn m name args)
  unfolding write_raw_image_fn
  write_raw_image_fn-Safe name args h n = read_two-Safe args _ h n λ filename partition.
      if-Safe (is_blank partition) _ _ (cannot_be_empty-Safe m (codes "partition") name) (
        if-Safe (is_blank filename) _ _ (cannot_be_empty-Safe m (codes "file") name) (
          running-Safe m.mtd_scan_partitions _ (
            asking-Safe (m.mtd_find_partition_by_name partition) _
              (write_found-Safe partition filename))))

  pub write_firmware_image_fn-Safe :
      (name : Bytes) (args : List (Arg (Info W)))
      → SafeArgs script args
      → leb 2 (length args) ≡ true
      → Safe script (write_firmware_image_fn m name args)
  unfolding write_firmware_image_fn
  write_firmware_image_fn-Safe name args h n = read_two-Safe args _ h n λ filename partition.
      if-Safe (is_blank partition) _ _ (cannot_be_empty-Safe m (codes "partition") name) (
        if-Safe (is_blank filename) _ _ (cannot_be_empty-Safe m (codes "file") name)
          (sending-Safe (firmware_command partition filename) _ (ret-Safe partition)))

  applied-Safe : (r : ℤ) → Safe {W = Info W} script (applied r)
  unfolding applied
  applied-Safe (pos n) = if-Safe (n == 0) _ _ (ret-Safe _) (
      if-Safe (n == 1) _ _ (ret-Safe [])
        (error_abort-Safe (codes "applypatch couldn't parse args")))
  applied-Safe (negsuc n) = error_abort-Safe (codes "applypatch couldn't parse args")

  pub apply_patch_fn-Safe :
      (name : Bytes) (args : List (Arg (Info W)))
      → SafeArgs script args
      → Safe script (apply_patch_fn m name args)
  unfolding apply_patch_fn
  apply_patch_fn-Safe name args h =
      read_var_args-Safe args _ h
        λ vs n. calling-Safe (m.applypatch (prepended name vs)) _ applied-Safe

  pub show_progress_fn-Safe :
      (name : Bytes) (args : List (Arg (Info W)))
      → SafeArgs script args
      → Safe script (show_progress_fn m name args)
  unfolding show_progress_fn
  show_progress_fn-Safe name args h =
      counted-Safe m (length args) 2 _ _
        (λ n. read_two-Safe args _ h (ground arith) λ v u. sending-Safe _ _ (ret-Safe v))
        (expects-Safe m _ _ _)

  pub set_progress_fn-Safe :
      (name : Bytes) (args : List (Arg (Info W)))
      → SafeArgs script args
      → Safe script (set_progress_fn m name args)
  unfolding set_progress_fn
  set_progress_fn-Safe name args h =
      counted-Safe m (length args) 1 _ _
        (λ n. read_one-Safe args _ h (ground arith) λ v. sending-Safe _ _ (ret-Safe v))
        (expects-Safe m _ _ _)

  pub ui_print_fn-Safe :
      (name : Bytes) (args : List (Arg (Info W)))
      → SafeArgs script args
      → Safe script (ui_print_fn m name args)
  unfolding ui_print_fn
  ui_print_fn-Safe name args h =
      read_var_args-Safe args _ h λ vs n. sending-Safe _ _ (ret-Safe (cut (joined vs)))

  pub get_prop_fn-Safe :
      (name : Bytes) (args : List (Arg (Info W)))
      → SafeArgs script args
      → Safe script (get_prop_fn m name args)
  unfolding get_prop_fn
  get_prop_fn-Safe name [] h = expects-Safe m _ _ _
  get_prop_fn-Safe name (a ∷ []) h =
      bind-Safe a.run _ h.0.run λ key. asking-Safe (m.property_get key) _ λ v. ret-Safe v
  get_prop_fn-Safe name (a ∷ b ∷ more) h = expects-Safe m _ _ _
