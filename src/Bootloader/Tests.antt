-- ===== src/Bootloader/Tests.antt =====
-- The message block on a small flash memory.
use recovery_sdx.Base.{◌≡◌, refl, some, [], ◌++◌, replicate}
use recovery_sdx.Os.Example.{Sys, toy_os}
use recovery_sdx.Bootloader.{BootloaderMessage, read_message, decode}

abbrev blank : Sys
blank = record { mounts = []; flash = replicate 1632 255 }

abbrev message : BootloaderMessage
message = record { command = replicate 32 1; status = replicate 32 2; recovery = replicate 1024 3 }

abbrev written : Sys
written = record blank {
  flash = replicate 544 255 ++ replicate 32 1 ++ replicate 32 2 ++ replicate 1024 3;
}

-- What was written is read again.
read_again : read_message toy_os 0 written ≡ some message
unfolding read_message decode
read_again = refl
