-- ===== src/Updater/Registration.antt =====
-- `RegisterInstallFunctions` of updater/install.c, and `main` of updater/updater.c.
use recovery_sdx.Base.{
  ◌+◌, ℕ, Bool, false, not, ◌||◌, Option, none, some, List, [], ◌∷◌, ◌++◌, Bytes, ◌==◌,
  if◌then◌else◌, codes, get_elem?,
}
use recovery_sdx.Edify.Expr.{State, Result, value, null, fault, M, undefined, Arg, Expr}
use recovery_sdx.Edify.Expr.{Function, registered}
use recovery_sdx.Edify.Table.{FunctionTable, register_each}
use recovery_sdx.Edify.Functions.{evaluate}
use recovery_sdx.Updater.Machine.{Machine, Info}
use recovery_sdx.Updater.Volumes.{mount_fn, is_mounted_fn, unmount_fn, format_fn}
use recovery_sdx.Updater.Files.{
  delete_fn, package_extract_dir_fn, package_extract_file_fn, symlink_fn, set_perm_fn,
}
use recovery_sdx.Updater.Properties.{get_prop_fn, file_get_prop_fn}
use recovery_sdx.Updater.Images.{write_raw_image_fn, write_firmware_image_fn, apply_patch_fn}
use recovery_sdx.Updater.Screen.{
  show_progress_fn, set_progress_fn, ui_print_fn, lines_of, print_lines,
}

-- A function of updater/install.c.
pub data InstallFunction : Type 0 where
  mount is_mounted unmount format show_progress set_progress delete : InstallFunction
  package_extract_dir package_extract_file symlink set_perm get_prop : InstallFunction
  file_get_prop write_raw_image write_firmware_image apply_patch ui_print : InstallFunction

-- The names, in the order in which they are registered.
unfoldable pub install_functions : List (Bytes × InstallFunction)
install_functions =
    (codes "mount", mount)
    ∷ (codes "is_mounted", is_mounted)
    ∷ (codes "unmount", unmount)
    ∷ (codes "format", format)
    ∷ (codes "show_progress", show_progress)
    ∷ (codes "set_progress", set_progress)
    ∷ (codes "delete", delete)
    ∷ (codes "delete_recursive", delete)
    ∷ (codes "package_extract_dir", package_extract_dir)
    ∷ (codes "package_extract_file", package_extract_file)
    ∷ (codes "symlink", symlink)
    ∷ (codes "set_perm", set_perm)
    ∷ (codes "set_perm_recursive", set_perm)
    ∷ (codes "getprop", get_prop)
    ∷ (codes "file_getprop", file_get_prop)
    ∷ (codes "write_raw_image", write_raw_image)
    ∷ (codes "write_firmware_image", write_firmware_image)
    ∷ (codes "apply_patch", apply_patch)
    ∷ (codes "apply_patch_check", apply_patch)
    ∷ (codes "apply_patch_space", apply_patch)
    ∷ (codes "ui_print", ui_print)
    ∷ []

-- The place of each function is its number.
unfoldable pub numbered : ℕ → List (Bytes × InstallFunction) → List (Bytes × Function)
numbered i [] = []
numbered i ((name, f) ∷ fs) = (name, registered i) ∷ numbered (i + 1) fs

unfoldable pub register_install_functions : FunctionTable → FunctionTable
unfolding numbered install_functions
register_install_functions t = register_each (numbered 0 install_functions) t

module _ {W : Type 0} (m : Machine W) where
  unfoldable pub install_call : InstallFunction → Bytes → List (Arg (Info W)) → M (Info W)
  install_call mount = mount_fn m
  install_call is_mounted = is_mounted_fn m
  install_call unmount = unmount_fn m
  install_call format = format_fn m
  install_call show_progress = show_progress_fn m
  install_call set_progress = set_progress_fn m
  install_call delete = delete_fn m
  install_call package_extract_dir = package_extract_dir_fn m
  install_call package_extract_file = package_extract_file_fn m
  install_call symlink = symlink_fn m
  install_call set_perm = set_perm_fn m
  install_call get_prop = get_prop_fn m
  install_call file_get_prop = file_get_prop_fn m
  install_call write_raw_image = write_raw_image_fn m
  install_call write_firmware_image = write_firmware_image_fn m
  install_call apply_patch = apply_patch_fn m
  install_call ui_print = ui_print_fn m

  unfoldable pub named : Option (Bytes × InstallFunction) → Bytes → List (Arg (Info W)) → M (Info W)
  named none name args = undefined
  named (some (key, f)) name args = install_call f name args

  -- The functions that edify calls, by their place in the table.
  unfoldable pub call_registered : ℕ → Bytes → List (Arg (Info W)) → M (Info W)
  unfolding named
  call_registered f name args = named (get_elem? install_functions f) name args

-- What `main` is given: the package, its script, and the parser.
pub record Package (W : Type 0) : Type 0 where
  pub mz_open_zip_archive : Bytes → W → Bool × W
  pub script_entry : W → Option ℕ
  pub read_zip_entry : ℕ → W → Option Bytes
  pub parse : Bytes → Option Expr

unfoldable pub is_version : Bytes → Bool
is_version (c ∷ []) = c == b'1' || c == b'2'
is_version _ = false

-- The exit status, and what is left; `none` is a read out of bounds.
abbrev pub Exit : Type 0 → Type 0
Exit W = Option (ℕ × Info W)

-- The text that tells of an abort.
unfoldable pub abort_lines : Option Bytes → Bytes
unfolding lines_of print_lines
abort_lines none = codes "ui_print script aborted (no error message)" ++ (10 ∷ [])
abort_lines (some msg) = print_lines (lines_of msg)

module _ {W : Type 0} where
  unfoldable pub ended : Result × State (Info W) → Exit W
  unfolding abort_lines
  ended (value v, s) = some (0, s.cookie)
  ended (null, s) = some (7, record s.cookie { pipe = s.cookie.pipe ++ abort_lines s.errmsg })
  ended (fault, s) = none

  unfoldable pub start : Bytes → W → State (Info W)
  start script w = record {
    script = script;
    errmsg = none;
    out = [];
    sleeps = [];
    cookie = record { pipe = []; world = w };
  }

  unfoldable pub stopped_with : ℕ → W → Exit W
  stopped_with status w = some (status, record { pipe = []; world = w })

module _ {W : Type 0} (m : Machine W) (package_of : Package W) where
  unfoldable pub run_parsed : Bytes → W → Option Expr → Exit W
  unfolding ended start stopped_with
  run_parsed script w none = stopped_with 6 w
  run_parsed script w (some root) = ended (evaluate (call_registered m) root (start script w))

  unfoldable pub run_script : W → Option Bytes → Exit W
  unfolding run_parsed stopped_with
  run_script w none = stopped_with 5 w
  run_script w (some script) = run_parsed script w (package_of.parse script)

  unfoldable pub run_entry : W → Option ℕ → Exit W
  unfolding run_script stopped_with
  run_entry w none = stopped_with 4 w
  run_entry w (some e) = run_script w (package_of.read_zip_entry e w)

  -- `main`, with the version, the descriptor of the pipe and the path of the package.
  unfoldable pub main : List Bytes → W → Exit W
  unfolding run_entry is_version stopped_with
  main (prog ∷ version ∷ fd ∷ path ∷ []) w =
      let (opened, w') = package_of.mz_open_zip_archive path w in
      if not (is_version version)
      then stopped_with 2 w
      else if opened
      then run_entry w' (package_of.script_entry w')
      else stopped_with 3 w'
  main args w = stopped_with 1 w
