-- ===== src/Recovery.antt =====
-- recovery.c: where the arguments come from, what is done with them, and what is left behind.
pub mod Main
pub mod Args
pub mod Wipe
mod Tests
use recovery_sdx.Base.{
  ℕ, zero, suc, ◌+◌, ◌-◌, Bool, true, false, not, ◌&&◌, ◌||◌, Option, none, some, List, [], ◌∷◌,
  ◌++◌, Bytes, if◌then◌else◌, codes, bytes_eq, length, ◌==◌, ltb, take, drop, replicate, until_nul,
  ◌>>=◌,
}
use recovery_sdx.Base.Int.{ℤ, pos, minus_one, is_nonzero}
use recovery_sdx.Os.{Os}
use recovery_sdx.Roots.{translate_root_path, ensure_root_path_mounted}
use recovery_sdx.Bootloader.{BootloaderMessage, get_bootloader_message, set_bootloader_message}

-- The C library's files, in the state `W`: reading a whole file, writing one anew, appending to one,
-- and removing one, with `errno` if that fails.
pub record Disk (W : Type 0) : Type 0 where
  pub read_file : Bytes → W → Option Bytes
  pub write_file : Bytes → Bytes → W → Option W
  pub append_file : Bytes → Bytes → W → Option W
  pub dir_create_hierarchy : Bytes → W → W
  pub unlink : Bytes → W → Option ℕ × W

abbrev pub command_file : Bytes
command_file = codes "CACHE:recovery/command"

abbrev pub intent_file : Bytes
intent_file = codes "CACHE:recovery/intent"

abbrev pub log_file : Bytes
log_file = codes "CACHE:recovery/log"

abbrev pub temporary_log_file : Bytes
temporary_log_file = codes "/tmp/recovery.log"

abbrev pub max_args : ℕ
max_args = 100

abbrev pub max_arg_length : ℕ
max_arg_length = 4096

-- `fgets`: what is read, of `room` bytes at most, and what is left.
unfoldable pub fgets : ℕ → Bytes → Bytes × Bytes
fgets zero s = ([], s)
fgets (suc room) [] = ([], [])
fgets (suc room) (c ∷ s) =
    let (line, rest) = fgets room s in if c == 10 then (c ∷ [], s) else (c ∷ line, rest)

unfoldable pub is_end : ℕ → Bool
is_end c = c == 10 || c == 13

-- The text in front of the end of a line.
unfoldable pub text_of : Bytes → Bytes
unfolding is_end
text_of [] = []
text_of (c ∷ s) = let rest = text_of s in if is_end c then [] else c ∷ rest

-- `strtok(buf, "\r\n")`; of a line with nothing else, it is a null pointer.
unfoldable pub token : Bytes → Option Bytes
unfolding is_end text_of
token [] = none
token (c ∷ s) =
    let later = token s in let text = text_of s in if is_end c then later else some (c ∷ text)

-- The pieces that `strtok(..., "\n")` gives in turn, none of which is empty.
unfoldable pub emit : Bytes → List Bytes → List Bytes
emit [] rest = rest
emit (c ∷ cs) rest = (c ∷ cs) ∷ rest

unfoldable pub pieces : Bytes → Bytes → List Bytes
unfolding emit
pieces piece [] = emit piece []
pieces piece (c ∷ s) =
    let ended = pieces [] s in
    let longer = pieces (piece ++ c ∷ []) s in if c == 10 then emit piece ended else longer

-- The loop over the command file, with `n` arguments to go; a null pointer that `strdup` is given is
-- `none`.
unfoldable pub read_arguments : ℕ → Bytes → Option (List Bytes)
unfolding fgets token
read_arguments zero s = some []
read_arguments (suc n) [] = some []
read_arguments (suc n) (c ∷ s) =
    let (line, rest) = fgets (max_arg_length - 1) (c ∷ s) in
    token (until_nul line) >>= λ a. read_arguments n rest >>= λ args. some (a ∷ args)

-- `strlcpy` and `strlcat` on a field of `n` bytes.
unfoldable pub strlcpy : ℕ → Bytes → Bytes → Bytes
strlcpy n field s = let kept = take (n - 1) s in kept ++ (0 ∷ drop (length kept + 1) field)

unfoldable pub strlcat : ℕ → Bytes → Bytes → Bytes
strlcat n field s =
    let front = until_nul field in
    let kept = take (n - 1 - length front) s in
    if ltb (length front) n
    then front ++ (kept ++ (0 ∷ drop (length front + length kept + 1) field))
    else field

unfoldable pub append_arguments : List Bytes → Bytes → Bytes
unfolding strlcat
append_arguments [] field = field
append_arguments (a ∷ args) field =
    append_arguments args (strlcat 1024 (strlcat 1024 field a) (codes "\n"))

-- The zeroed structure.
abbrev pub zeroed : BootloaderMessage
zeroed = record { command = replicate 32 0; status = replicate 32 0; recovery = replicate 1024 0 }

unfoldable pub message_or : Option BootloaderMessage → BootloaderMessage
message_or none = zeroed
message_or (some m) = m

-- `boot.recovery[sizeof(boot.recovery) - 1] = '\0'`
unfoldable pub terminated : Bytes → Bytes
terminated field = take 1023 field ++ 0 ∷ []

-- The arguments of the boot message, if its first piece is "recovery".
unfoldable pub boot_arguments : List Bytes → Option (List Bytes)
boot_arguments [] = none
boot_arguments (p ∷ ps) =
    if bytes_eq p (codes "recovery") then some (take max_args (p ∷ ps)) else none

-- What is written back.
unfoldable pub boot_message : List Bytes → BootloaderMessage → BootloaderMessage
unfolding strlcpy append_arguments
boot_message args m = record {
  command = strlcpy 32 m.command (codes "boot-recovery");
  status = m.status;
  recovery = append_arguments (drop 1 args) (strlcpy 1024 m.recovery (codes "recovery\n"));
}

unfoldable pub file_arguments : Bytes → List Bytes → Option Bytes → Option (List Bytes)
file_arguments name args none = some args
file_arguments name args (some text) =
    read_arguments (max_args - 1) text >>= λ more. some (name ∷ more)

unfoldable pub or_else : List Bytes → Option (List Bytes) → List Bytes
or_else args none = args
or_else args (some found) = found

-- The first source.
unfoldable pub from_message : List Bytes → BootloaderMessage → List Bytes
unfolding boot_arguments or_else
from_message args m =
    let found = boot_arguments (pieces [] (until_nul (terminated m.recovery))) in
    if ltb 1 (length args) then args else or_else args found

unfoldable pub name_of : List Bytes → Bytes
name_of [] = []
name_of (a ∷ args) = a

module _ {W : Type 0} (os : Os W) (disk : Disk W) where
  -- `fopen_root_path`, up to the path that is opened.
  unfoldable pub path_at : Option Bytes → Bool → W → Option Bytes × W
  path_at none writing w = (none, w)
  path_at (some path) writing w =
      (some path, if writing then disk.dir_create_hierarchy path w else w)

  unfoldable pub open_root_path : Bytes → Bool → W → Option Bytes × W
  unfolding path_at
  open_root_path root_path writing w =
      let (ret, w') = ensure_root_path_mounted os root_path w in
      let opened = path_at (translate_root_path root_path 4096) writing w' in
      if is_nonzero ret then (none, w') else opened

  -- The contents of the command file, if it can be opened.
  unfoldable pub command_text : W → Option Bytes × W
  command_text w =
      let (path, w') = open_root_path command_file false w in
      (path >>= λ p. disk.read_file p w', w')

  -- The second source of arguments, for a program of this name.
  unfoldable pub from_file : Bytes → List Bytes → W → Option (List Bytes) × W
  unfolding file_arguments
  from_file name args w =
      let (text, w') = command_text w in
      let found = file_arguments name args text in
      if ltb 1 (length args) then (some args, w) else (found, w')

  -- The message is changed in place. What `strtok` has put behind the pieces of the old one is left
  -- out: it only touches bytes behind the end of the new texts.
  unfoldable pub write_back : List Bytes → BootloaderMessage → W → W
  write_back args m w = (set_bootloader_message os (boot_message args m) w).1

  unfoldable pub stored : Option (List Bytes) × W → BootloaderMessage → Option (List Bytes) × W
  unfolding write_back
  stored (none, w) m = (none, w)
  stored (some args, w) m = (some args, write_back args m w)

  -- `get_args`; `none` is a null pointer that is read.
  unfoldable pub get_args : List Bytes → W → Option (List Bytes) × W
  unfolding stored from_message name_of
  get_args args w =
      let (m, w') = get_bootloader_message os w in
      let args' = from_message args (message_or m) in
      stored (from_file (name_of args') args' w') (message_or m)
