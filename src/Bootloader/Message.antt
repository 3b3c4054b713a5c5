-- ===== src/Bootloader/Message.antt =====
-- Where a message is written, and what becomes of the other pages.
use recovery_sdx.Base.{ℕ, ◌+◌, ◌≡◌, true, false, some, ◌++◌, Bytes, length, take, drop}
use recovery_sdx.Base.Int.{is_nonzero}
use recovery_sdx.Os.{Os}
use recovery_sdx.Bootloader.{BootloaderMessage, message_size, decode}

-- What a read of a partition promises: it gives as many bytes as were asked for.
pub record IsFlash {W : Type 0} (os : Os W) : Type 0 where
  pub read_length : (p n : ℕ) (w : W) (b : Bytes) → os.mtd_read_data p n w ≡ some b → length b ≡ n

-- The patched pages have the length of the old ones, hold the message on the command page, and
-- agree with the old ones elsewhere.
record IsPatch (size : ℕ) (m : BootloaderMessage) (old new : Bytes) : Type 0 where
  same_length : length new ≡ length old
  message : decode (drop size new) ≡ m
  fields : take message_size (drop size new) ≡ m.command ++ m.status ++ m.recovery
  before : take size new ≡ take size old
  behind : drop (size + message_size) new ≡ drop (size + message_size) old

module _ {W : Type 0} (os : Os W) (flash : IsFlash os) where
  -- The bytes were written to the partition from its start, in one call, and it was closed.
  pub record Stored (p : ℕ) (b : Bytes) (w w' : W) : Type 0 where
    pub opened : (os.mtd_write_partition p w).0 ≡ true
    pub stored : (os.mtd_write_data p b (os.mtd_write_partition p w).1).0 ≡ true
    pub closed :
        is_nonzero (os.mtd_write_close p (os.mtd_write_data p b (os.mtd_write_partition p w).1).1).0
        ≡ false
    pub left :
        w' ≡ (os.mtd_write_close p (os.mtd_write_data p b (os.mtd_write_partition p w).1).1).1
