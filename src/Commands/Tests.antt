-- ===== src/Commands/Tests.antt =====
-- A package with one image in two pieces, and files that take whatever they are given.
use recovery_sdx.Base.{
  ℕ, ◌+◌, ◌*◌, ◌≡◌, refl, true, false, none, some, List, [], ◌∷◌, Bytes, if◌then◌else◌, codes,
  bytes_eq, leb, ◌-◌, ◌&&◌,
}
use recovery_sdx.Base.Int.{pos}
use recovery_sdx.Os.Example.{Sys, toy_os}
use recovery_sdx.Firmware.{remember_firmware_update}
use recovery_sdx.Roots.{
  is_package_root_path, translate_package_root_path, ensure_root_path_unmounted,
  get_root_mtd_partition,
}
use recovery_sdx.Amend.Commands.{
  CommandState, cmd_type_command, cmd_type_function, find_command, find_function,
}
use recovery_sdx.Commands.{Readings}
use recovery_sdx.Commands.Device.{
  System, World, cmd_write_firmware_image, package_entry, image_type, gather, image, entry_image,
  remember, cmd_write_raw_image, write_raw, write_image, write_pieces, finish_image,
}
use recovery_sdx.Commands.Image.{Remembered, cmd_write_firmware_image-Remembered}
use recovery_sdx.Commands.Register.{register_update_commands}
use recovery_sdx.Commands.Register.Found.{first_of, language, register_update_commands-language}

abbrev digits : ℕ → Bytes → ℕ × Bytes
digits n [] = (n, [])
digits n (c ∷ s) = if leb b'0' c && leb c b'9' then digits (n * 10 + (c - b'0')) s else (n, c ∷ s)

abbrev system : System Sys
system = record {
  unlink = λ p w. (none, w);
  dir_unlink_hierarchy = λ p w. (none, w);
  symlink = λ t p w. (none, w);
  chown = λ p u g w. (none, w);
  chmod = λ p m w. (none, w);
  dir_set_hierarchy_permissions = λ p u g d f w. (none, w);
  extract_recursive = λ s d dry t w. (true, w);
  find_zip_entry = λ p w. if bytes_eq p (codes "radio.img") then some 0 else none;
  uncomp_len = λ e w. 3;
  chunks = λ e w. ((1 ∷ 2 ∷ []) ∷ (3 ∷ []) ∷ [], true);
  extract_program = λ e w. (true, w);
  run = λ args w. (true, w);
  strtoul = digits 0;
  is_fraction = λ s. true;
}

abbrev readings : Readings Sys
readings = record { property_get = λ p w. []; load_file = λ p w. none }

abbrev idle : Sys
idle = record { mounts = []; flash = [] }

abbrev fresh : World Sys
fresh = record {
  sys = idle;
  firmware = record { update_type = none; update_data = none; update_length = 0 };
  did_show_progress = false;
}

abbrev with_radio : World Sys
with_radio = record fresh {
  firmware = record {
    update_type = some (codes "radio");
    update_data = some (1 ∷ 2 ∷ 3 ∷ []);
    update_length = 3;
  };
}

radio_written :
    cmd_write_firmware_image toy_os system
      (codes "write_radio_image")
      (codes "PACKAGE:radio.img" ∷ [])
      fresh
    ≡ (pos 0, with_radio)
unfolding cmd_write_firmware_image package_entry image_type image gather entry_image remember
    remember_firmware_update is_package_root_path translate_package_root_path bytes_eq
radio_written = refl

cmd_write_firmware_image-Remembered_example :
    (path : Bytes) × ((codes "PACKAGE:radio.img" ∷ []) ≡ path ∷ [])
    × (is_package_root_path path ≡ true)
    × Remembered toy_os system (codes "write_radio_image") path fresh with_radio
cmd_write_firmware_image-Remembered_example =
    cmd_write_firmware_image-Remembered toy_os system (codes "write_radio_image")
      (codes "PACKAGE:radio.img" ∷ []) fresh with_radio radio_written

-- The pieces reach the flash, which the erasing then clears.
raw_written :
    cmd_write_raw_image toy_os system (codes "PACKAGE:radio.img" ∷ codes "BOOT:" ∷ []) idle
    ≡ (pos 0, idle)
unfolding cmd_write_raw_image write_raw write_image write_pieces finish_image package_entry
    is_package_root_path translate_package_root_path ensure_root_path_unmounted
    get_root_mtd_partition bytes_eq
raw_written = refl

abbrev perm_args : List Bytes
perm_args = codes "0" ∷ codes "0" ∷ codes "644" ∷ codes "TMP:a" ∷ []

abbrev off : CommandState (World Sys)
off = record { symbol_table = none; initialized = false }

register_update_commands-language_example :
    ((register_update_commands toy_os system readings 0 off).0 ≡ pos 0)
    × (find_command
          (some (codes "format"))
          (register_update_commands toy_os system readings 0 off).1
        ≡ first_of (codes "format") cmd_type_command (language toy_os system readings 0))
    × (find_function
          (some (codes "format"))
          (register_update_commands toy_os system readings 0 off).1
        ≡ first_of (codes "format") cmd_type_function (language toy_os system readings 0))
register_update_commands-language_example =
    register_update_commands-language toy_os system readings 0 (codes "format") off refl
