-- ===== src/Recovery/Args.antt =====
-- Where the arguments come from: the command line, or the lines of the command file.
use recovery_sdx.Base.{
  ◌≤◌, ◌≢◌, ◌≡◌, refl, ap, inl, inr, Option, none, some, List, [], ◌∷◌, ◌++◌, Bytes, length, ltb,
  Bool-cases, until_nul,
}
use recovery_sdx.Os.{Os}
use recovery_sdx.Bootloader.{BootloaderMessage}
use recovery_sdx.Bootloader.Reach.{bootloader_message_unreachable}
use recovery_sdx.Recovery.{
  Disk, zeroed, message_or, from_message, terminated, boot_arguments, boot_message, pieces, or_else,
  name_of, from_file, stored, write_back, get_args,
}

from_message-zeroed : (args : List Bytes) → from_message args zeroed ≡ args
unfolding from_message pieces terminated boot_arguments or_else until_nul
from_message-zeroed args = elim (Bool-cases (ltb 1 (length args))) [
  | inl t ↦ rw t refl
  | inr t ↦ rw t refl
]

-- Without the end of a line, a carriage return or a NUL.
abbrev pub Plain : Bytes → Type 0
Plain [] = Unit
Plain (c ∷ s) = (c ≢ 10) × (c ≢ 13) × (c ≢ 0) × Plain s

-- A line that is an argument: not empty, plain, and short enough for the buffer.
abbrev pub IsLine : Bytes → Type 0
IsLine l = (l ≢ []) × Plain l × (length l ≤ 4094)

abbrev pub AllLines : List Bytes → Type 0
AllLines [] = Unit
AllLines (l ∷ ls) = IsLine l × AllLines ls

-- The text of a file with these lines.
unfoldable pub file_of : List Bytes → Bytes
file_of [] = []
file_of (l ∷ ls) = l ++ (10 ∷ file_of ls)

module _ {W : Type 0} (os : Os W) (disk : Disk W) where
  stored-eq : (r : Option (List Bytes) × W) (m : BootloaderMessage) → stored os disk r m ≡ r
  unfolding stored write_back
  stored-eq (none, w) m = refl
  stored-eq (some args, w) m =
      ap (λ u. (some args, u))
        (ap (λ r. r.1) (bootloader_message_unreachable os (boot_message args m) w).1)

  -- The bootloader message plays no part: the command line and the command file decide.
  pub get_args-from_file :
      (args : List Bytes) (w : W)
      → get_args os disk args w ≡ from_file os disk (name_of args) args w
  unfolding get_args message_or
  get_args-from_file args w =
      rw ((bootloader_message_unreachable os zeroed w).0, from_message-zeroed args)
        (stored-eq (from_file os disk (name_of args) args w) zeroed)
