-- ===== src/Recovery/Main.antt =====
-- `finish_recovery` and `main` of recovery.c. The menus of `prompt_and_wait` and the installation of a
-- package are parameters; reboots, the screen and syncs are left out.
use recovery_sdx.Base.{
  ℕ, ◌+◌, Bool, true, false, ◌||◌, Option, none, some, List, [], ◌∷◌, Bytes, if◌then◌else◌, codes,
  length, drop,
}
use recovery_sdx.Base.Int.{is_nonzero}
use recovery_sdx.Os.{Os}
use recovery_sdx.Roots.{translate_root_path, ensure_root_path_mounted}
use recovery_sdx.Roots.Format.{format_root_device}
use recovery_sdx.Bootloader.{set_bootloader_message}
use recovery_sdx.Recovery.{
  Disk, command_file, intent_file, log_file, temporary_log_file, zeroed, open_root_path, get_args,
}

-- What `getopt_long` gives, one option after the other.
pub data Opt : Type 0 where
  send_intent update_package : Bytes → Opt
  wipe_data wipe_cache invalid : Opt

pub record Settings : Type 0 where
  pub intent : Option Bytes
  pub update : Option Bytes
  pub data_wiped : Bool
  pub cache_wiped : Bool

abbrev pub no_settings : Settings
no_settings = record { intent = none; update = none; data_wiped = false; cache_wiped = false }

-- The `switch` over an option.
unfoldable pub set_option : Settings → Opt → Settings
set_option o (send_intent s) = record o { intent = some s }
set_option o (update_package p) = record o { update = some p }
set_option o wipe_data = record o { data_wiped = true; cache_wiped = true }
set_option o wipe_cache = record o { cache_wiped = true }
set_option o invalid = o

-- The loop over the options.
unfoldable pub set_options : Settings → List Opt → Settings
unfolding set_option
set_options o [] = o
set_options o (p ∷ ps) = set_options (set_option o p) ps

-- INSTALL_SUCCESS, INSTALL_ERROR and INSTALL_CORRUPT
pub data Status : Type 0 where
  install_success install_error install_corrupt : Status

unfoldable pub is_success : Status → Bool
is_success install_success = true
is_success install_error = false
is_success install_corrupt = false

-- The system, and how much of the temporary log was copied.
pub record State (W : Type 0) : Type 0 where
  pub sys : W
  pub tmplog_offset : ℕ

module _ {W : Type 0} (os : Os W) (disk : Disk W) where
  unfoldable pub written : Option W → W → W
  written none w = w
  written (some w') w = w'

  unfoldable pub write_intent : Option Bytes → W → W
  unfolding written
  write_intent none w = w
  write_intent (some text) w =
      let (path, w') = open_root_path os disk intent_file true w in
      elim path [ none ↦ w' | some p ↦ written (disk.write_file p text w') w' ]

  -- The part of the temporary log that is new is appended to the log.
  unfoldable pub copied : ℕ → ℕ → W → Option W → State W
  copied offset n w none = record { sys = w; tmplog_offset = offset }
  copied offset n w (some w') = record { sys = w'; tmplog_offset = offset + n }

  unfoldable pub copy_log : Option Bytes → Option Bytes → ℕ → W → State W
  unfolding copied
  copy_log none text offset w = record { sys = w; tmplog_offset = offset }
  copy_log (some path) none offset w = copied offset 0 w (disk.append_file path [] w)
  copy_log (some path) (some text) offset w =
      copied offset (length (drop offset text)) w (disk.append_file path (drop offset text) w)

  unfoldable pub save_log : State W → State W
  unfolding copy_log
  save_log s =
      let (path, w) = open_root_path os disk log_file true s.sys in
      copy_log path (disk.read_file temporary_log_file w) s.tmplog_offset w

  unfoldable pub remove_command_file : W → W
  remove_command_file w =
      let (ret, w') = ensure_root_path_mounted os command_file w in
      let removed : W = elim (translate_root_path command_file 4096) [
        | none ↦ w'
        | some p ↦ (disk.unlink p w').1
      ] in
      if is_nonzero ret then w' else removed

  unfoldable pub finish_recovery : Option Bytes → State W → State W
  unfolding write_intent save_log remove_command_file
  finish_recovery intent s =
      let s' = save_log (record s { sys = write_intent intent s.sys }) in
      let w = (set_bootloader_message os zeroed s'.sys).1 in
      record s' { sys = remove_command_file w }

  module _ (getopt : List Bytes → List Opt) (install_package : Bytes → W → Status × W)
      (prompt_and_wait : State W → State W) where
    -- `erase_root`, if it is asked for.
    unfoldable pub wipe : Bool → Bytes → Status × W → Status × W
    wipe asked root (status, w) =
        let (ret, w') = format_root_device os root w in
        if asked then (if is_nonzero ret then install_error else status, w') else (status, w)

    unfoldable pub wipe_all : Settings → W → Status × W
    unfolding wipe
    wipe_all o w =
        wipe o.cache_wiped (codes "CACHE:") (wipe o.data_wiped (codes "DATA:") (install_success, w))

    -- What the arguments ask for.
    unfoldable pub act : Settings → W → Status × W
    unfolding wipe_all
    act o w =
        let wiped = wipe_all o w in
        elim o.update [
          | some p ↦ install_package p w
          | none ↦ if o.data_wiped || o.cache_wiped then wiped else (install_error, w)
        ]

    unfoldable pub settled : Settings → Status × W → ℕ → State W
    unfolding is_success
    settled o (status, w) offset =
        let s : State W = record { sys = w; tmplog_offset = offset } in
        let waited = prompt_and_wait s in
        finish_recovery o.intent (if is_success status then s else waited)

    unfoldable pub run : Option (List Bytes) × W → Option (Status × State W)
    unfolding act settled
    run (none, w) = none
    run (some args, w) =
        let o = set_options no_settings (getopt args) in
        let done = act o w in some (done.0, settled o done 0)

    -- `main`; `none` is a null pointer that is read. The commands of amend are registered in the part of
    -- the state that install_package uses.
    unfoldable pub main : List Bytes → W → Option (Status × State W)
    unfolding run
    main argv w = run (get_args os disk argv w)
