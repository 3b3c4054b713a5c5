-- ===== src/Install.antt =====
-- install.c: the installation of an update package. The signature is not checked: the code has the
-- calls that would do so in comments.
pub mod Installed
pub mod Lines
mod Tests
use recovery_sdx.Base.{
  ℕ, zero, suc, ◌+◌, Bool, true, false, not, ◌&&◌, ◌||◌, Option, none, some, List, [], ◌∷◌, ◌++◌,
  Bytes, if◌then◌else◌, codes, bytes_eq, length, ◌==◌, ltb, leb, ◌^◌, take, drop, starts_with,
  ◌>>=◌, until_nul,
}
use recovery_sdx.Base.Int.{ℤ, pos, is_nonzero}
use recovery_sdx.Os.{Os}
use recovery_sdx.Roots.{translate_root_path, ensure_root_path_mounted}
use recovery_sdx.Firmware.{Firmware, remember_firmware_update}
use recovery_sdx.Commands.Device.{World}
use recovery_sdx.Recovery.{fgets}
use recovery_sdx.Recovery.Main.{Status, install_success, install_error, install_corrupt}

abbrev pub script_name : Bytes
script_name = codes "META-INF/com/google/android/update-script"

abbrev pub binary_name : Bytes
binary_name = codes "META-INF/com/google/android/update-binary"

-- The package that is open, the files, and the parser of amend with `execCommandList`. `run_binary` is
-- the child process: what it writes to the pipe, and whether it ends with status 0. A script reads
-- `g_package_path`, which is its first argument.
pub record Package (W : Type 0) : Type 0 where
  pub open_archive : Bytes → W → Bool × W
  pub find : Bytes → W → Option ℕ
  pub uncomp_len : ℕ → W → ℕ
  pub read_entry : ℕ → W → Option Bytes
  pub creat_binary : W → Bool × W
  pub extract_binary : ℕ → W → Bool × W
  pub run_binary : Bytes → W → (Bytes × Bool) × W
  pub read_file : Bytes → W → Option Bytes
  pub script : Bytes → Option (Option Bytes → World W → ℤ × World W)

-- The world, and `g_package_path` of roots.c.
pub record Session (W : Type 0) : Type 0 where
  pub world : World W
  pub package_root : Option Bytes

-- What an installation ends with; `none` is a null pointer that is read.
abbrev pub Outcome : Type 0 → Type 0
Outcome W = Option (Status × Session W)

unfoldable pub is_space : ℕ → Bool
is_space c = c == 32 || c == 10

-- `strtok(…, " \n")`: the next piece, and what is behind it.
unfoldable pub word_of : Bytes → Bytes × Bytes
unfolding is_space
word_of [] = ([], [])
word_of (c ∷ s) = let (t, rest) = word_of s in if is_space c then ([], s) else (c ∷ t, rest)

unfoldable pub strtok : Bytes → Option (Bytes × Bytes)
unfolding is_space word_of
strtok [] = none
strtok (c ∷ s) =
    let later = strtok s in
    let (t, rest) = word_of s in if is_space c then later else some (c ∷ t, rest)

-- The firmware that a line names, if it has a type and a file and none was named before.
unfoldable pub firmware_line : Option (Bytes × Bytes) → Bytes → Option (Bytes × Bytes)
firmware_line (some f) rest = some f
firmware_line none rest =
    strtok rest >>= λ (type, more). strtok more >>= λ (file, end). some (type, file)

-- `strtof` and `strtol` need what they are given.
unfoldable pub progress_line : Bytes → Option (Unit {0})
progress_line rest = strtok rest >>= λ (fraction, more). strtok more >>= λ r. some tt

-- A line of the update binary.
unfoldable pub obey : Option (Bytes × Bytes) → Bytes → Bytes → Option (Option (Bytes × Bytes))
obey f command rest =
    let progress = progress_line rest >>= λ u. some f in
    let set_progress = strtok rest >>= λ r. some f in
    if bytes_eq command (codes "progress")
    then progress
    else if bytes_eq command (codes "set_progress")
    then set_progress
    else if bytes_eq command (codes "firmware")
    then some (firmware_line f rest)
    else some f

-- A line of the update binary.
unfoldable pub read_line : Option (Bytes × Bytes) → Bytes → Option (Option (Bytes × Bytes))
unfolding strtok firmware_line progress_line obey
read_line f line = elim (strtok line) [ none ↦ some f | some r ↦ obey f r.0 r.1 ]

unfoldable pub read_lines : Option (Bytes × Bytes) → List Bytes → Option (Option (Bytes × Bytes))
unfolding read_line
read_lines f [] = some f
read_lines f (l ∷ ls) = read_line f (until_nul l) >>= λ f'. read_lines f' ls

-- What `fgets` gives of it, in at most `n` rounds, with a buffer of 81 bytes.
unfoldable pub child_lines : ℕ → Bytes → List Bytes
unfolding fgets
child_lines zero s = []
child_lines (suc n) [] = []
child_lines (suc n) (c ∷ s) =
    let (line, rest) = fgets 80 (c ∷ s) in let more = child_lines n rest in line ∷ more

module _ {W : Type 0} (os : Os W) (package_of : Package W) where
  unfoldable pub with_sys : Session W → W → Session W
  with_sys s w = record s { world = record s.world { sys = w } }

  -- `register_package_root`
  unfoldable pub register_package_root : Option Bytes → Session W → Session W
  register_package_root path s = record s { package_root = path }

  -- The contents of the file that the update binary names.
  unfoldable pub firmware_data : Bytes → W → Option Bytes
  firmware_data file w =
      let packaged = package_of.find (drop 8 file) w >>= λ e. package_of.read_entry e w in
      if starts_with (codes "PACKAGE:") file then packaged else package_of.read_file file w

  unfoldable pub handle_firmware_update : Bytes → Option Bytes → Session W → Status × Session W
  handle_firmware_update type none s = (install_error, s)
  handle_firmware_update type (some bytes) s =
      let (ret, f) = remember_firmware_update type bytes (length bytes) s.world.firmware in
      if is_nonzero ret
      then (install_error, s)
      else (install_success, record s { world = record s.world { firmware = f } })

  unfoldable pub announced : Option (Bytes × Bytes) → Session W → Status × Session W
  announced none s = (install_success, s)
  announced (some (type, file)) s = handle_firmware_update type (firmware_data file s.world.sys) s

  unfoldable pub finished : Bool → Session W → Option (Option (Bytes × Bytes)) → Outcome W
  finished exited s none = none
  finished exited s (some f) =
      let done = announced f s in if exited then some done else some (install_error, s)

  -- The update binary, with the entry that it is.
  unfoldable pub run_update_binary : ℕ → Bytes → Session W → Outcome W
  unfolding finished with_sys child_lines
  run_update_binary e path s =
      let (created, w₁) = package_of.creat_binary s.world.sys in
      let (copied, w₂) = package_of.extract_binary e w₁ in
      let ((out, exited), w₃) = package_of.run_binary path w₂ in
      let ran = finished exited (with_sys s w₃) (read_lines none (child_lines (length out) out)) in
      if created
      then (if copied then ran else some (install_error, with_sys s w₂))
      else some (install_error, with_sys s w₁)

  -- The script of the entry: it is read, parsed and executed.
  unfoldable pub executed :
      Option (Option Bytes → World W → ℤ × World W) → Session W → Status × Session W
  executed none s = (install_error, s)
  executed (some script) s =
      let (ret, w) = script s.package_root s.world in
      (if is_nonzero ret then install_error else install_success, record s { world = w })

  unfoldable pub read_data : ℕ → W → Option Bytes
  read_data e w =
      let data_read = package_of.read_entry e w in
      let len = package_of.uncomp_len e w in
      if len == 0 || leb (2 ^ 31) len then none else data_read

  unfoldable pub handle_update_script : ℕ → Session W → Status × Session W
  handle_update_script e s = executed (read_data e s.world.sys >>= package_of.script) s

  unfoldable pub unregistered : Status × Session W → Status × Session W
  unregistered (status, s) = (status, register_package_root none s)

  unfoldable pub unregister : Outcome W → Outcome W
  unregister none = none
  unregister (some r) = some (unregistered r)

  -- What is done where there is no update binary.
  unfoldable pub fall_back : Option ℕ → Bytes → Session W → Status × Session W
  fall_back none path s = (install_corrupt, s)
  fall_back (some e) path s =
      unregistered (handle_update_script e (register_package_root (some path) s))

  unfoldable pub handle_update_package : Option ℕ → Bytes → Session W → Outcome W
  handle_update_package (some e) path s = unregister (run_update_binary e path s)
  handle_update_package none path s =
      some (fall_back (package_of.find script_name s.world.sys) path s)

  unfoldable pub install_at : Option Bytes → Session W → Outcome W
  install_at none s = some (install_corrupt, s)
  install_at (some path) s =
      let (opened, w) = package_of.open_archive path s.world.sys in
      let done = handle_update_package (package_of.find binary_name w) path (with_sys s w) in
      if opened then done else some (install_corrupt, with_sys s w)

  unfoldable pub install_package : Bytes → Session W → Outcome W
  install_package root_path s =
      let (ret, w) = ensure_root_path_mounted os root_path s.world.sys in
      let done = install_at (translate_root_path root_path 4096) (with_sys s w) in
      if is_nonzero ret then some (install_corrupt, with_sys s w) else done
