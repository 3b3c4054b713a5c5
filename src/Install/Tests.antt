-- ===== src/Install/Tests.antt =====
-- A package with an update binary that announces a radio image.
use recovery_sdx.Base.{
  ◌≡◌, refl, true, false, none, some, [], ◌∷◌, if◌then◌else◌, codes, bytes_eq, starts_with,
  until_nul,
}
use recovery_sdx.Os.Example.{Sys, toy_os, contains}
use recovery_sdx.Roots.{translate_root_path, ensure_root_path_mounted}
use recovery_sdx.Firmware.{remember_firmware_update}
use recovery_sdx.Recovery.Main.{install_success}
use recovery_sdx.Install.{
  binary_name, Package, Session, install_package, install_at, handle_update_package,
  run_update_binary, finished, announced, handle_firmware_update, firmware_data, read_lines,
  read_line, unregister, unregistered, register_package_root, with_sys,
}
use recovery_sdx.Install.Installed.{Installed, install_package-Installed}

abbrev pkg : Package Sys
pkg = record {
  open_archive = λ p w. (true, w);
  find = λ n w.
      if bytes_eq n binary_name
      then some 0
      else if bytes_eq n (codes "radio.img")
      then some 1
      else none;
  uncomp_len = λ e w. 2;
  read_entry = λ e w. some (7 ∷ 8 ∷ []);
  creat_binary = λ w. (true, w);
  extract_binary = λ e w. (true, w);
  run_binary = λ p w. (
    (codes "progress 0.5 10\nfirmware radio PACKAGE:radio.img\nfirmware hboot /tmp/h\n", true),
    w,
  );
  read_file = λ p w. none;
  script = λ s. none;
}

abbrev start : Session Sys
start = record {
  world = record {
    sys = record { mounts = codes "/sdcard" ∷ []; flash = [] };
    firmware = record { update_type = none; update_data = none; update_length = 0 };
    did_show_progress = false;
  };
  package_root = none;
}

abbrev ended : Session Sys
ended = record {
  world = record {
    sys = record { mounts = codes "/sdcard" ∷ []; flash = [] };
    firmware = record {
      update_type = some (codes "radio");
      update_data = some (7 ∷ 8 ∷ []);
      update_length = 2;
    };
    did_show_progress = false;
  };
  package_root = none;
}

radio_installed :
    install_package toy_os pkg (codes "SDCARD:update.zip") start ≡ some (install_success, ended)
unfolding install_package install_at handle_update_package run_update_binary finished announced
    handle_firmware_update firmware_data read_lines read_line unregister unregistered
    register_package_root with_sys translate_root_path ensure_root_path_mounted bytes_eq starts_with
    until_nul contains remember_firmware_update
radio_installed = refl

install_package-Installed_example : Installed toy_os pkg (codes "SDCARD:update.zip") start
install_package-Installed_example =
    install_package-Installed toy_os pkg (codes "SDCARD:update.zip") start ended radio_installed
