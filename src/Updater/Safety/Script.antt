-- ===== src/Updater/Safety/Script.antt =====
-- What running an updater script leaves behind.
use recovery_sdx.Base.{
  ℕ, ◌≡◌, refl, inl, inr, ◌⊎◌, Bool, true, false, not, Option, none, some, List, ◌++◌, Bytes, ltb,
  leb, length, get_elem?, arith,
}
use recovery_sdx.Edify.Expr.{State, Result, value, null, fault, Arg, Expr}
use recovery_sdx.Edify.Functions.{evaluate}
use recovery_sdx.Edify.Safety.{Outcome, Safe}
use recovery_sdx.Edify.Safety.Functions.{SafeArgs}
use recovery_sdx.Edify.Safety.Expressions.{well_formed, evaluate-Outcome}
use recovery_sdx.Updater.Machine.{Machine, Info}
use recovery_sdx.Updater.Files.{min_args}
use recovery_sdx.Updater.Registration.{
  InstallFunction, mount, is_mounted, unmount, format, show_progress, set_progress, delete,
  package_extract_dir, package_extract_file, symlink, set_perm, get_prop, file_get_prop,
  write_raw_image, write_firmware_image, apply_patch, ui_print, install_functions, install_call,
  named, call_registered, Package, abort_lines, ended, start, run_parsed,
}
use recovery_sdx.Updater.Screen.{lines_of, print_lines}
use recovery_sdx.Updater.Safety.Volumes.{mount_fn-Safe, is_mounted_fn-Safe, unmount_fn-Safe}
use recovery_sdx.Updater.Safety.Files.{
  delete_fn-Safe, package_extract_dir_fn-Safe, package_extract_file_fn-Safe, symlink_fn-Safe,
  set_perm_fn-Safe,
}
use recovery_sdx.Updater.Safety.Rest.{
  write_raw_image_fn-Safe, write_firmware_image_fn-Safe, apply_patch_fn-Safe, show_progress_fn-Safe,
  set_progress_fn-Safe, ui_print_fn-Safe, get_prop_fn-Safe,
}

-- Whether a function keeps the rules with `n` arguments. `format` may give NULL without a message,
-- and `file_getprop` reads a null pointer in an empty file.
unfoldable pub keeps_rules : InstallFunction → Bytes → ℕ → Bool
keeps_rules format name n = false
keeps_rules file_get_prop name n = false
keeps_rules delete name n = leb n 1
keeps_rules set_perm name n = not (ltb n (min_args name))
keeps_rules write_raw_image name n = leb 2 n
keeps_rules write_firmware_image name n = leb 2 n
keeps_rules f name n = true

unfoldable pub named_keeps_rules : Option (Bytes × InstallFunction) → Bytes → ℕ → Bool
unfolding keeps_rules
named_keeps_rules none name n = false
named_keeps_rules (some (key, f)) name n = keeps_rules f name n

unfoldable pub updater_accepts : ℕ → Bytes → ℕ → Bool
unfolding named_keeps_rules
updater_accepts f name n = named_keeps_rules (get_elem? install_functions f) name n

module _ {W : Type 0} (m : Machine W) {script : Bytes} where
  install_call-Safe :
      (f : InstallFunction) (name : Bytes) (args : List (Arg (Info W)))
      → SafeArgs script args
      → keeps_rules f name (length args) ≡ true
      → Safe script (install_call m f name args)
  unfolding install_call keeps_rules
  install_call-Safe mount name args h k = mount_fn-Safe m name args h
  install_call-Safe is_mounted name args h k = is_mounted_fn-Safe m name args h
  install_call-Safe unmount name args h k = unmount_fn-Safe m name args h
  install_call-Safe format name args h k = absurd (ground (arith, k))
  install_call-Safe show_progress name args h k = show_progress_fn-Safe m name args h
  install_call-Safe set_progress name args h k = set_progress_fn-Safe m name args h
  install_call-Safe delete name args h k = delete_fn-Safe m name args h k
  install_call-Safe package_extract_dir name args h k = package_extract_dir_fn-Safe m name args h
  install_call-Safe package_extract_file name args h k = package_extract_file_fn-Safe m name args h
  install_call-Safe symlink name args h k = symlink_fn-Safe m name args h
  install_call-Safe set_perm name args h k = set_perm_fn-Safe m name args h (ground (arith, k))
  install_call-Safe get_prop name args h k = get_prop_fn-Safe m name args h
  install_call-Safe file_get_prop name args h k = absurd (ground (arith, k))
  install_call-Safe write_raw_image name args h k = write_raw_image_fn-Safe m name args h k
  install_call-Safe write_firmware_image name args h k =
      write_firmware_image_fn-Safe m name args h k
  install_call-Safe apply_patch name args h k = apply_patch_fn-Safe m name args h
  install_call-Safe ui_print name args h k = ui_print_fn-Safe m name args h

  named-Safe :
      (o : Option (Bytes × InstallFunction)) (name : Bytes) (args : List (Arg (Info W)))
      → SafeArgs script args
      → named_keeps_rules o name (length args) ≡ true
      → Safe script (named m o name args)
  unfolding named named_keeps_rules
  named-Safe none name args h k = absurd (ground (arith, k))
  named-Safe (some (key, f)) name args h k = install_call-Safe f name args h k

  pub call_registered-Safe :
      (f : ℕ) (name : Bytes) (args : List (Arg (Info W)))
      → SafeArgs script args
      → updater_accepts f name (length args) ≡ true
      → Safe script (call_registered m f name args)
  unfolding call_registered updater_accepts
  call_registered-Safe f name args h k = named-Safe (get_elem? install_functions f) name args h k

module _ {W : Type 0} where
  -- How `main` ends, by the result of the script: with no failure, or with the lines of a message.
  abbrev pub EndsWell : Option (ℕ × Info W) → Result × State (Info W) → Type 0
  EndsWell exit (r, s) =
      ((v : Bytes) × (r ≡ value v) × (exit ≡ some (0, s.cookie)))
      ⊎ ((msg : Bytes) × (r ≡ null)
          × (s.errmsg ≡ some msg)
          × (exit
              ≡ some (7, record s.cookie { pipe = s.cookie.pipe ++ print_lines (lines_of msg) })))

  ended-EndsWell :
      (s : State (Info W)) (r : Result × State (Info W)) → Outcome s r → EndsWell (ended r) r
  unfolding ended abort_lines
  ended-EndsWell s (value v, s') o = inl (v, refl, refl)
  ended-EndsWell s (null, s') o = let (msg, e) = o.ends in inr (msg, refl, e, rw e refl)
  ended-EndsWell s (fault, s') o = absurd o.ends

module _ {W : Type 0} (m : Machine W) (package_of : Package W) where
  -- Let every function of a parsed script be given the arguments it reads, with `delete` given one
  -- path at most and no `format` and no `file_getprop`, and let every part's text lie inside the
  -- script. Then the updater reads nothing out of bounds while it runs the script, and ends with 0,
  -- or with 7 and a message that the script left, whose lines it has sent to recovery.
  pub run_parsed-EndsWell :
      (script : Bytes) (w : W) (root : Expr)
      → well_formed updater_accepts (length script) root ≡ true
      → EndsWell
          (run_parsed m package_of script w (some root))
          (evaluate (call_registered m) root (start script w))
  unfolding run_parsed start
  run_parsed-EndsWell script w root h =
      ended-EndsWell (start script w) (evaluate (call_registered m) root (start script w)) (
        evaluate-Outcome updater_accepts (call_registered m) script
          (λ f name args a k. call_registered-Safe m f name args a k) root (start script w) refl h)
