-- ===== src/Recovery/Tests.antt =====
-- A command file that asks for a wipe.
use recovery_sdx.Base.{
  ◌≡◌, refl, inl, inr, none, some, List, [], ◌∷◌, ◌++◌, Bytes, if◌then◌else◌, codes, bytes_eq,
  until_nul,
}
use recovery_sdx.Os.Example.{Sys, toy_os, contains, remove}
use recovery_sdx.Roots.{
  translate_root_path, ensure_root_path_mounted, ensure_root_path_unmounted, get_root_mtd_partition,
}
use recovery_sdx.Roots.Format.{format_root_device, format_unmounted}
use recovery_sdx.Roots.Safety.{Formats}
use recovery_sdx.Bootloader.{get_bootloader_message, set_bootloader_message}
use recovery_sdx.Recovery.{
  Disk, get_args, from_file, fgets, token, read_arguments, from_message, pieces, stored,
  command_text, open_root_path, terminated, message_or,
}
use recovery_sdx.Recovery.Main.{
  Opt, wipe_data, invalid, no_settings, set_options, Status, install_success, install_error, State,
  main, run, act, settled, wipe_all, finish_recovery, is_success,
}
use recovery_sdx.Recovery.Wipe.{AsksForReset, main-reset}

abbrev disk : Disk Sys
disk = record {
  read_file = λ p w.
      if bytes_eq p (codes "/cache/recovery/command")
      then some (codes "--wipe_data" ++ (10 ∷ []))
      else none;
  write_file = λ p s w. some w;
  append_file = λ p s w. some w;
  dir_create_hierarchy = λ p w. w;
  unlink = λ p w. (none, w);
}

abbrev idle : Sys
idle = record { mounts = []; flash = [] }

abbrev mounted : Sys
mounted = record { mounts = codes "/cache" ∷ []; flash = [] }

abbrev argv : List Bytes
argv = codes "recovery" ∷ []

abbrev found : List Bytes
found = codes "recovery" ∷ codes "--wipe_data" ∷ []

args_found : get_args toy_os disk argv idle ≡ (some found, mounted)
unfolding get_args from_file fgets token read_arguments from_message pieces terminated until_nul
    stored command_text open_root_path ensure_root_path_mounted translate_root_path
    get_bootloader_message set_bootloader_message get_root_mtd_partition bytes_eq contains
    message_or
args_found = refl

abbrev option_of : List Bytes → List Opt
option_of [] = []
option_of (a ∷ args) =
    (if bytes_eq a (codes "--wipe_data") then wipe_data else invalid) ∷ option_of args

abbrev getopt : List Bytes → List Opt
getopt [] = []
getopt (name ∷ args) = option_of args

abbrev install : Bytes → Sys → Status × Sys
install p w = (install_error, w)

abbrev wait : State Sys → State Sys
wait s = s

asks : AsksForReset (getopt found)
unfolding bytes_eq
asks = record { asked = inl refl; no_package = λ p h. elim h [ inl e ↦ cc | inr k ↦ elim k [ ] ] }

abbrev left : State Sys
left =
    finish_recovery toy_os disk none
      (record { sys = record { mounts = []; flash = [] }; tmplog_offset = 0 })

reset_done : main toy_os disk getopt install wait argv idle ≡ some (install_success, left)
unfolding main run act settled wipe_all set_options is_success get_args from_file fgets token
    read_arguments from_message pieces terminated until_nul stored command_text open_root_path
    ensure_root_path_mounted translate_root_path get_bootloader_message set_bootloader_message
    get_root_mtd_partition bytes_eq contains format_root_device format_unmounted
    ensure_root_path_unmounted remove message_or
reset_done = refl

main-reset_example :
    (v : Sys) × (v' : Sys) × Formats toy_os (codes "DATA:") mounted v
    × Formats toy_os (codes "CACHE:") v v'
    × (left
        ≡ finish_recovery toy_os disk
            (set_options no_settings (getopt found)).intent
            (record { sys = v'; tmplog_offset = 0 }))
main-reset_example =
    main-reset toy_os disk getopt install wait argv found idle mounted left args_found asks
      reset_done
