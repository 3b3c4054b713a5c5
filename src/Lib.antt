-- ===== src/Lib.antt =====
-- The recovery program: a small system that a phone boots to install update packages, and to
-- format and back up its partitions. This library models its core.
--
-- An update package is a zip archive. `verifier.c` accepts it only with a signature of a trusted
-- key; scripts in the package are run by one of two languages, amend (`amend/`) and the newer edify
-- (`edify/`), which the program `updater/` runs; `roots.c` gives names such as `CACHE:` to the
-- devices that the scripts work on; and `bootloader.c` and `firmware.c` leave messages and firmware
-- images for the bootloader.
--
-- - Base: the shared names, lemmas on lists, bytes and signed results.
-- - Minzip/Archive: what the other parts use of an open archive (`minzip/Zip.h`). A pointer to an
--   entry is its index.
-- - Minzip/DirUtil: `minzip/DirUtil.c`, over a record `Calls` of what it asks of the system. Its
--   children say what is made (Hierarchy), removed (Unlinked) and given away (Permissions), in terms
--   of the directories above a path and the paths below it.
-- - Minzip/Hash: `minzip/Hash.c`. The size is kept as the power of two that it is; Minzip/Hash/Room
--   has the invariant of the counters, and Minzip/Hash/Traversal the loops over a whole table.
-- - Minzip/Zip: the opening of an archive in `minzip/Zip.c`, over the bytes of the mapped file, a
--   read behind which is `fault`, with pointers compared as words of 32 bits; Minzip/Zip/Search is its binary search, and Minzip/Zip/Extract is
--   `mzExtractRecursive`, over a record `Files` of what it asks of the file system.
-- - Mtd: `mtdutils/mtdutils.c`. Mtd/Table has the partitions, Mtd/Blocks `read_block` and
--   `write_block` over a record `Flash` of what the kernel does, and Mtd/Stream the calls that read and
--   write bytes; Mtd/Stream/Chunks is what the latter is measured by. Mtd/Mounts is the table of
--   mounted volumes of `mtdutils/mounts.c`; Mtd/Mounts/Mounted sees it as a list of volumes.
-- - Verifier: `verifier.c`, one function for each of its functions and loops. RSA, SHA-1 and base64
--   are the record `Crypto`; Verifier/Manifest.IsCrypto says that a digest has its size.
--   Verifier/Lines is `strtok_r`; Verifier/Stanzas reads the manifest in two passes.
-- - Os: the system behind `roots.c` and `bootloader.c`: mounted volumes and flash partitions
--   (`mtdutils/mtdutils.c`, `mtdutils/mounts.c`), `mount`, `mkdir` and the child process that
--   formats. Bootloader/Message.IsFlash is what is asked of it, and Os/Example is a small system
--   that has it.
-- - Roots: `roots.c`, with `g_roots` as a constant; Roots/Format is `format_root_device`. Volumes are
--   found and unmounted through Os, about which nothing is assumed. Volumes are
--   found and unmounted through Os, about which nothing is assumed. Volumes are
--   found and unmounted through Os, about which nothing is assumed. Volumes are
--   found and unmounted through Os, about which nothing is assumed.
-- - Bootloader: `bootloader.c`; Firmware: `firmware.c`, with its static variables as a record.
-- - Edify: `edify/expr.c`. Edify/Expr has expressions and the state, Edify/Functions the built-in
--   functions and `Evaluate`, Edify/Strings the C library's strtol and strstr. A read of an argument
--   that is not there is the result `fault`; the functions an application registers are a parameter,
--   and so is the state `W` that they work on. Edify/Arguments has what they read their arguments with.
--   Edify/Table is the table of functions, over a record `Library` of qsort, bsearch and strcmp.
-- - Updater: `updater/install.c` and `updater/updater.c`, the application that registers functions
--   with edify. Updater/Machine is what it asks of the system; Updater/Volumes, Files, Properties,
--   Images and Screen have the functions, Updater/Registration their table and `main`.
--   Updater/Safety shows that they keep the rules of Edify/Safety, and Updater/Protocol reads what
--   they send with the functions of Install, which is at the other end of the pipe; Updater/Lookup is
--   about files of properties, and Updater/Names about the names that functions are found by.
-- - Amend: Amend/Symtab is `amend/symtab.c`, Amend/Commands `amend/commands.c` and Amend/Execute
--   `amend/execute.c`. Hooks are functions on a state `W`. A hook that is called as what it is not
--   is the result `fault`.
-- - Commands: `commands.c`, what an update script can call. Commands/Device has the commands, over
--   `Os`, `Firmware` and a record `System` for the file system and the package; Commands/Register
--   enters them in the registry of Amend/Commands.
-- - Recovery: `recovery.c`. `get_args` finds the arguments, Recovery/Main is `main` and
--   `finish_recovery`; the C library's files are a record `Disk`, and the menus, getopt_long and
--   install_package are parameters.
-- - Install: `install.c`, over a record `Package` of the open archive, the child process and the parser
--   of amend, with `register_package_root` of `roots.c`.
--
-- Loops are structural recursion, over lists of entries, lines, bytes, arguments or commands. Some
-- run on fuel. The probes of the hash table take as many steps as the table has entries, which is
-- enough where one of them is empty, as Minzip/Hash/Probe shows; the binary search has as many rounds
-- as there are entries; read_block and write_block have as many as the partition has bytes, since a
-- round moves on by a block; the walks over directories of Minzip/DirUtil have fuel for the depth and
-- the entries, and what is shown of them holds of the state in which it ends, too; the loops over
-- bytes that are left have as many as there are bytes, since a round takes at least one. An int of a
-- result is a `ℤ`; sizes are natural numbers, which stay far below 2^31 in the program; strtol
-- saturates at 32 bits, as it is written out.
--
-- Not modelled: failing allocations, logs and the progress bar; the screen (`ui.c`, `minui/`); the
-- generated scanners and parsers; the menus of `recovery.c`; `load_keys` of `install.c`;
-- inflating, and the hash table of an archive's names; `flash_image`; and the amend functions of
-- `amend/register.c`.
pub mod Base
pub mod Minzip
pub mod Mtd
pub mod Verifier
pub mod Os
pub mod Roots
pub mod Bootloader
pub mod Firmware
pub mod Edify
pub mod Amend
pub mod Commands
pub mod Recovery
pub mod Install
pub mod Updater
