-- ===== src/Firmware.antt =====
-- firmware.c: the firmware image that a package leaves for the bootloader.
use recovery_sdx.Base.{
  ℕ, ◌-◌, Bool, true, false, ◌||◌, ◌&&◌, Option, none, some, ◌++◌, Bytes, if◌then◌else◌, take,
  length, replicate, codes, until_nul, ◌==◌, ltb,
}
use recovery_sdx.Base.Int.{ℤ, pos, minus_one, is_nonzero}
use recovery_sdx.Os.{Os}
use recovery_sdx.Roots.Format.{format_root_device}
use recovery_sdx.Bootloader.{
  BootloaderMessage, Bitmaps, set_bootloader_message, write_update_for_bootloader,
}

-- The static variables. The length is the caller's, and never negative.
pub record Firmware : Type 0 where
  pub update_type : Option Bytes
  pub update_data : Option Bytes
  pub update_length : ℕ

abbrev pub is_some {ℓ} : {A : Type ℓ} → Option A → Bool
is_some none = false
is_some (some a) = true

unfoldable pub remember_firmware_update : Bytes → Bytes → ℕ → Firmware → ℤ × Firmware
remember_firmware_update type image len f =
    if is_some f.update_type || is_some f.update_data
    then (minus_one, f)
    else (pos 0, record { update_type = some type; update_data = some image; update_length = len })

unfoldable pub firmware_update_pending : Firmware → Bool
firmware_update_pending f = is_some f.update_data && ltb 0 f.update_length

-- `strlcpy` and `snprintf` into a field of `n` bytes that was zeroed
unfoldable pub copy_into : ℕ → ℕ → Bytes → Bytes
copy_into n limit s = let kept = take (limit - 1) s in kept ++ replicate (n - length kept) 0

-- `strlcat` onto a field of `n` bytes
unfoldable pub cat_onto : ℕ → Bytes → Bytes → Bytes
unfolding copy_into
cat_onto n field s = copy_into n n (until_nul field ++ s)

intent_field : Option Bytes → Bytes → Bytes
unfolding cat_onto
intent_field none field = field
intent_field (some intent) field =
    cat_onto 1024 (cat_onto 1024 (cat_onto 1024 field (codes "--send_intent=")) intent) (codes "\n")

unfoldable pub wipe_message : Option Bytes → BootloaderMessage
unfolding intent_field
wipe_message intent = record {
  command = copy_into 32 32 (codes "boot-recovery");
  status = replicate 32 0;
  recovery = intent_field intent (copy_into 1024 32 (codes "recovery\n--wipe_cache\n"));
}

text_of : Option Bytes → Bytes
text_of none = codes "(null)"
text_of (some t) = t

module _ {W : Type 0} (os : Os W) where
  -- behind the first message; `reboot` returns only if it fails
  install_image : Option Bytes → Bytes → Bitmaps → BootloaderMessage → W → ℤ × W
  unfolding text_of
  install_image type update b boot w =
      let (failed, w₁) = write_update_for_bootloader os update b w in
      let command = copy_into 32 32 (codes "update-" ++ text_of type) in
      let (unset, w₂) = set_bootloader_message os (record boot { command = command }) w₁ in
      if is_nonzero failed
      then (minus_one, (format_root_device os (codes "CACHE:") w₁).1)
      else if is_nonzero unset
      then (minus_one, (format_root_device os (codes "CACHE:") w₂).1)
      else (minus_one, w₂)

  install_pending : Option Bytes → Option Bytes → Bytes → Bitmaps → W → ℤ × W
  unfolding install_image
  install_pending intent type update b w =
      let boot = wipe_message intent in
      let (unset, w₁) = set_bootloader_message os boot w in
      if is_nonzero unset then (minus_one, w₁) else install_image type update b boot w₁

  -- The bitmaps are what `ui_copy_image` returns.
  unfoldable pub maybe_install_firmware_update : Option Bytes → Bitmaps → Firmware → W → ℤ × W
  unfolding install_pending
  maybe_install_firmware_update intent b f w = elim f.update_data [
    | none ↦ (pos 0, w)
    | some update ↦
        if f.update_length == 0 then (pos 0, w) else install_pending intent f.update_type update b w
  ]
