-- ===== src/Commands/Device.antt =====
-- The commands of commands.c that change the system. The screen is left out, but for the flag
-- `gDidShowProgress`.
use recovery_sdx.Base.{
  ℕ, zero, suc, ◌+◌, ◌-◌, Bool, true, false, not, ◌&&◌, ◌||◌, Option, none, some, List, [], ◌∷◌,
  ◌++◌, Bytes, if◌then◌else◌, codes, bytes_eq, length, ◌==◌, ltb, leb, ◌^◌, get_or, ◌>>=◌,
}
use recovery_sdx.Base.Int.{ℤ, pos, minus_one, is_nonzero, is_negative}
use recovery_sdx.Commands.{path_max}
use recovery_sdx.Os.{Os}
use recovery_sdx.Roots.{
  translate_root_path, ensure_root_path_mounted, ensure_root_path_unmounted, is_package_root_path,
  translate_package_root_path, get_root_mtd_partition,
}
use recovery_sdx.Roots.Format.{format_root_device}
use recovery_sdx.Firmware.{Firmware, remember_firmware_update}

-- What the commands ask of the file system, of the package that is registered, and of strtoul. A call
-- of the file system gives `none` if it succeeds, and `errno` if not. `chunks` are the pieces that
-- mzProcessZipEntryContents hands over, with whether it then succeeds. `run` is the child process of the
-- program that was extracted: it ends with status 0.
pub record System (W : Type 0) : Type 0 where
  pub unlink : Bytes → W → Option ℕ × W
  pub dir_unlink_hierarchy : Bytes → W → Option ℕ × W
  pub symlink : Bytes → Bytes → W → Option ℕ × W
  pub chown : Bytes → ℕ → ℕ → W → Option ℕ × W
  pub chmod : Bytes → ℕ → W → Option ℕ × W
  pub dir_set_hierarchy_permissions : Bytes → ℕ → ℕ → ℕ → ℕ → W → Option ℕ × W
  pub extract_recursive : Bytes → Bytes → Bool → ℕ → W → Bool × W
  pub find_zip_entry : Bytes → W → Option ℕ
  pub uncomp_len : ℕ → W → ℕ
  pub chunks : ℕ → W → List Bytes × Bool
  pub extract_program : ℕ → W → Bool × W
  pub run : List Bytes → W → Bool × W
  pub strtoul : Bytes → ℕ × Bytes
  pub is_fraction : Bytes → Bool

-- The system, the image of firmware.c and `gDidShowProgress`.
pub record World (W : Type 0) : Type 0 where
  pub sys : W
  pub firmware : Firmware
  pub did_show_progress : Bool

abbrev pub enoent : ℕ
enoent = 2

abbrev pub failed : Option ℕ → Bool
failed none = false
failed (some e) = true

abbrev pub succeeded : {W : Type 0} → ℤ × W → ℤ × W
succeeded (ret, w) = (if is_nonzero ret then pos 1 else pos 0, w)

module _ {W : Type 0} (os : Os W) (system : System W) where
  unfoldable pub cmd_format : List Bytes → W → ℤ × W
  cmd_format (root ∷ []) w = succeeded (format_root_device os root w)
  cmd_format args w = (pos 1, w)

  unfoldable pub remove_at : Bool → Option Bytes → Bytes → W → W
  remove_at recurse none root_path w = w
  remove_at recurse (some path) root_path w =
      let (ret, w') = ensure_root_path_mounted os root_path w in
      let removed =
        (if recurse then system.dir_unlink_hierarchy path w' else system.unlink path w').1 in
      if is_negative ret then w' else removed

  -- The loop of `cmd_delete`; its errors are counted, and the count is not used.
  unfoldable pub delete_all : Bool → List Bytes → W → W
  unfolding remove_at
  delete_all recurse [] w = w
  delete_all recurse (p ∷ ps) w =
      delete_all recurse ps (remove_at recurse (translate_root_path p path_max) p w)

  unfoldable pub cmd_delete : Bytes → List Bytes → W → ℤ × W
  cmd_delete name [] w = (pos 1, w)
  cmd_delete name (p ∷ ps) w =
      (pos 0, delete_all (bytes_eq name (codes "delete_recursive")) (p ∷ ps) w)

  -- The timestamp of `copy_dir`, which is signed and has 32 bits.
  unfoldable pub timestamp : List Bytes → Option ℕ
  timestamp (s ∷ d ∷ []) = some 1217592000
  timestamp (s ∷ d ∷ t ∷ []) =
      let (value, end) = system.strtoul t in
      if value == 0 || not (length end == 0) || ltb value 1217592000 || leb (2 ^ 31) value
      then none
      else some value
  timestamp args = none

  -- A dry run first, then the extraction.
  unfoldable pub extract : Option Bytes → Bytes → ℕ → W → ℤ × W
  extract none dst_path time w = (pos 1, w)
  extract (some src_path) dst_path time w =
      let (counted, w₁) = system.extract_recursive src_path dst_path true time w in
      let (done, w₂) = system.extract_recursive src_path dst_path false time w₁ in
      if counted then (if done then pos 0 else pos 1, w₂) else (pos 1, w₁)

  unfoldable pub copy_to : Bytes → Option Bytes → ℕ → W → ℤ × W
  copy_to source none time w = (pos 1, w)
  copy_to source (some dst_path) time w =
      let copied = extract (translate_package_root_path source path_max) dst_path time w in
      if is_package_root_path source then copied else (pos 255, w)

  unfoldable pub copy_at : Option ℕ → List Bytes → W → ℤ × W
  unfolding copy_to
  copy_at (some time) (source ∷ target ∷ more) w =
      let (ret, w') = ensure_root_path_mounted os target w in
      let copied = copy_to source (translate_root_path target path_max) time w' in
      if is_negative ret then (pos 1, w') else copied
  copy_at _ _ w = (pos 1, w)

  unfoldable pub cmd_copy_dir : List Bytes → W → ℤ × W
  unfolding timestamp copy_at
  cmd_copy_dir args w = copy_at (timestamp args) args w

  unfoldable pub run_entry : List Bytes → Option ℕ → W → ℤ × W
  run_entry args none w = (pos 1, w)
  run_entry args (some e) w =
      let (copied, w₁) = system.extract_program e w in
      let (exited, w₂) = system.run args w₁ in
      if copied then (if exited then pos 0 else pos 1, w₂) else (pos 1, w₁)

  -- The entry of the package at a path, if it is a path of a package.
  unfoldable pub package_entry : Bytes → W → Option ℕ
  package_entry path w =
      translate_package_root_path path path_max >>= λ p. system.find_zip_entry p w

  unfoldable pub cmd_run_program : List Bytes → W → ℤ × W
  unfolding run_entry package_entry
  cmd_run_program [] w = (pos 1, w)
  cmd_run_program (program ∷ more) w =
      let ran = run_entry (program ∷ more) (package_entry program w) w in
      if is_package_root_path program then ran else (pos 1, w)

  -- The numbers in front of the paths, if all of them are numerals.
  unfoldable pub numbers : ℕ → List Bytes → Option (List ℕ)
  numbers zero args = some []
  numbers (suc n) [] = none
  numbers (suc n) (a ∷ args) =
      let (value, end) = system.strtoul a in
      let more = numbers n args >>= λ ns. some (value ∷ ns) in
      if length end == 0 && not (length a == 0) then more else none

  unfoldable pub set_one : Bool → List ℕ → Bytes → W → Option ℕ × W
  set_one recurse n path w =
      let (owned, w₁) = system.chown path (get_or n 0 0) (get_or n 1 0) w in
      let modified = system.chmod path (get_or n 2 0) w₁ in
      let tree =
        system.dir_set_hierarchy_permissions path (get_or n 0 0) (get_or n 1 0) (get_or n 2 0)
          (get_or n 3 0) w in
      if recurse then tree else if failed owned then (owned, w₁) else modified

  unfoldable pub set_path : Bool → List ℕ → Bytes → Option Bytes → W → ℤ × W
  set_path recurse n root_path none w = (pos 1, w)
  set_path recurse n root_path (some path) w =
      let (ret, w') = ensure_root_path_mounted os root_path w in
      let (error, w'') = set_one recurse n path w' in
      if is_nonzero ret then (pos 1, w') else (if failed error then pos 1 else pos 0, w'')

  unfoldable pub set_numbered : Bool → Option (List ℕ) → Bytes → W → ℤ × W
  set_numbered recurse none root_path w = (pos 1, w)
  set_numbered recurse (some n) root_path w =
      set_path recurse n root_path (translate_root_path root_path path_max) w

  unfoldable pub min_args : Bytes → ℕ
  min_args name = if bytes_eq name (codes "set_perm_recursive") then 5 else 4

  -- The loop over the paths has one round, for the path at `min_args - 1`.
  unfoldable pub cmd_set_perm : Bytes → List Bytes → W → ℤ × W
  cmd_set_perm name args w =
      let recurse = bytes_eq name (codes "set_perm_recursive") in
      let done =
        set_numbered recurse (numbers (min_args name - 1) args) (get_or args (min_args name - 1) [])
          w in
      if ltb (length args) (min_args name) then (pos 1, w) else done

  unfoldable pub cmd_show_progress : List Bytes → World W → ℤ × World W
  cmd_show_progress (fraction ∷ duration ∷ []) s =
      let (seconds, end) = system.strtoul duration in
      if system.is_fraction fraction && (length end == 0 && not (length duration == 0))
      then (pos 0, record s { did_show_progress = true })
      else (pos 1, s)
  cmd_show_progress args s = (pos 1, s)

  unfoldable pub link_at : Bytes → Bytes → Option Bytes → W → ℤ × W
  link_at target root_path none w = (pos 1, w)
  link_at target root_path (some path) w =
      let (ret, w') = ensure_root_path_mounted os root_path w in
      let (error, w'') = system.symlink target path w' in
      if is_nonzero ret then (pos 1, w') else (if failed error then pos 1 else pos 0, w'')

  unfoldable pub cmd_symlink : List Bytes → W → ℤ × W
  unfolding link_at
  cmd_symlink (target ∷ root_path ∷ []) w =
      link_at target root_path (translate_root_path root_path path_max) w
  cmd_symlink args w = (pos 1, w)

  -- `firmware_fn` over the pieces, with `done` for the bytes that are there: not one too many.
  unfoldable pub gather : ℕ → Bytes → List Bytes → Option Bytes
  gather total done [] = some done
  gather total done (c ∷ cs) =
      let rest = gather total (done ++ c) cs in
      if ltb total (length done + length c) then none else rest

  -- The image of the entry, if it is as long as it should be.
  unfoldable pub image : ℕ → W → Option Bytes
  unfolding gather
  image e w = gather (system.uncomp_len e w) [] (system.chunks e w).0 >>= λ bytes.
      if (system.chunks e w).1 && (length bytes == system.uncomp_len e w) then some bytes else none

  unfoldable pub image_type : Bytes → Option Bytes
  image_type name =
      if bytes_eq name (codes "write_radio_image")
      then some (codes "radio")
      else if bytes_eq name (codes "write_hboot_image")
      then some (codes "hboot")
      else none

  unfoldable pub remember : Option Bytes → Option Bytes → World W → ℤ × World W
  remember (some type) (some bytes) s =
      let (ret, f) = remember_firmware_update type bytes (length bytes) s.firmware in
      if is_nonzero ret then (pos 1, s) else (pos 0, record s { firmware = f })
  remember _ _ s = (pos 1, s)

  unfoldable pub entry_image : Option ℕ → W → Option Bytes
  entry_image none w = none
  entry_image (some e) w = image e w

  unfoldable pub cmd_write_firmware_image : Bytes → List Bytes → World W → ℤ × World W
  cmd_write_firmware_image name (path ∷ []) s =
      let remembered =
        remember (image_type name) (entry_image (package_entry path s.sys) s.sys) s in
      if is_package_root_path path then remembered else (pos 1, s)
  cmd_write_firmware_image name args s = (pos 1, s)

  -- `write_raw_image_process_fn` over the pieces.
  unfoldable pub write_pieces : ℕ → List Bytes → W → Bool × W
  write_pieces p [] w = (true, w)
  write_pieces p (c ∷ cs) w =
      let (ok, w') = os.mtd_write_data p c w in
      let rest = write_pieces p cs w' in if ok then rest else (false, w')

  -- The end of `cmd_write_raw_image`, with the partition open.
  unfoldable pub finish_image : ℕ → W → ℤ × W
  finish_image p w =
      let (erased, w₁) = os.mtd_erase_all p w in
      let (closed, w₂) = os.mtd_write_close p w₁ in
      if erased then (if is_nonzero closed then minus_one else pos 0, w₂) else (minus_one, w₂)

  unfoldable pub write_image : ℕ → Option ℕ × W → ℤ × W
  write_image e (none, w) = (pos 1, w)
  write_image e (some p, w) =
      let (opened, w₁) = os.mtd_write_partition p w in
      let (cs, ok) = system.chunks e w₁ in
      let (written, w₂) = write_pieces p cs w₁ in
      let finished = finish_image p w₂ in
      let given_up = (os.mtd_write_close p w₂).1 in
      if opened then (if written && ok then finished else (pos 1, given_up)) else (pos 1, w₁)

  unfoldable pub write_raw : Bytes → Option ℕ → W → ℤ × W
  write_raw target none w = (pos 1, w)
  write_raw target (some e) w =
      let (ret, w') = ensure_root_path_unmounted os target w in
      let done = write_image e (get_root_mtd_partition os target w') in
      if is_negative ret then (pos 1, w') else done

  unfoldable pub cmd_write_raw_image : List Bytes → W → ℤ × W
  cmd_write_raw_image (source ∷ target ∷ []) w =
      let done = write_raw target (package_entry source w) w in
      if is_package_root_path source then done else (pos 255, w)
  cmd_write_raw_image args w = (pos 1, w)
