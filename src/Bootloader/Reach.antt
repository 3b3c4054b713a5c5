-- ===== src/Bootloader/Reach.antt =====
-- What the root table makes of these operations: neither MISC: nor CACHE: is an MTD root of it.
use recovery_sdx.Base.{◌≡◌, refl, none, Bytes, codes, Bool-cases, inl, inr}
use recovery_sdx.Base.Int.{minus_one, is_nonzero}
use recovery_sdx.Os.{Os}
use recovery_sdx.Roots.{ensure_root_path_unmounted, get_root_mtd_partition, get_root_info_for_path}
use recovery_sdx.Base.{bytes_eq}
use recovery_sdx.Bootloader.{
  BootloaderMessage, Bitmaps, get_bootloader_message, set_bootloader_message,
  write_update_for_bootloader,
}

module _ {W : Type 0} (os : Os W) where
  -- No message is ever read or written, and the system is left as it was.
  pub bootloader_message_unreachable :
      (m : BootloaderMessage) (w : W)
      → (get_bootloader_message os w ≡ (none, w)) × (set_bootloader_message os m w ≡ (minus_one, w))
  unfolding get_bootloader_message set_bootloader_message get_root_mtd_partition
      get_root_info_for_path bytes_eq
  bootloader_message_unreachable m w = (refl, refl)

  -- The firmware image is never written: the call fails, and unmounts the cache at most.
  pub write_update_for_bootloader_fails :
      (update : Bytes) (b : Bitmaps) (w : W)
      → write_update_for_bootloader os update b w
        ≡ (minus_one, (ensure_root_path_unmounted os (codes "CACHE:") w).1)
  unfolding write_update_for_bootloader get_root_mtd_partition get_root_info_for_path bytes_eq
  write_update_for_bootloader_fails update b w =
      elim (Bool-cases (is_nonzero (ensure_root_path_unmounted os (codes "CACHE:") w).0)) [
        | inl e ↦ rw e
        | inr e ↦ rw e
      ]
