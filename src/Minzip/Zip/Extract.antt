-- ===== src/Minzip/Zip/Extract.antt =====
-- `mzExtractRecursive` of minzip/Zip.c.
pub mod Contiguous
use recovery_sdx.Base.{
  ℕ, zero, suc, ◌+◌, ◌-◌, ◌*◌, ◌/◌, ◌%◌, Bool, true, false, ◌&&◌, ◌||◌, not, Option, none, some,
  List, [], ◌∷◌, ◌++◌, Bytes, ltb, ◌==◌, if◌then◌else◌, length, get_or, drop, starts_with, codes,
}
use recovery_sdx.Base.Int.{ℤ, is_nonzero, is_negative}
use recovery_sdx.Minzip.Zip.{Entry}

-- What the extraction asks of minzip/DirUtil.c and the system; `W` is the state of the files.
-- `extract_to_file` writes the contents of an entry to the file that `creat` opened, and closes it.
pub record Files (W : Type 0) : Type 0 where
  pub dir_create_hierarchy : Bytes → Bool → W → ℤ × W
  pub symlink : Bytes → Bytes → W → ℤ × W
  pub creat : Bytes → W → ℤ × W
  pub read_zip_entry : Entry → W → Option Bytes × W
  pub extract_to_file : Entry → Bytes → W → Bool × W
  pub utime : Bytes → W → ℤ × W
  pub callback : Bytes → W → W

pub record Flags : Type 0 where
  pub files_only : Bool
  pub dry_run : Bool
  pub timestamp : Bool

-- What a round of the loop does: it goes on, or it breaks with `ok` false, or with `ok` as it is,
-- which is true.
pub data Round : Type 0 where
  go_on failed stopped : Round

unfoldable pub ends_with_slash : Bytes → Bool
ends_with_slash [] = false
ends_with_slash (c ∷ []) = c == b'/'
ends_with_slash (c ∷ d ∷ s) = ends_with_slash (d ∷ s)

-- `zpath`
unfoldable pub canonical : Bytes → Bytes
canonical [] = []
canonical (c ∷ s) = if ends_with_slash (c ∷ s) then c ∷ s else (c ∷ s) ++ codes "/"

-- `targetEntryPath`
unfoldable pub target_entry_path : Bytes → Bytes → Entry → Bytes
target_entry_path target_dir zpath e =
    (if ends_with_slash target_dir then target_dir else target_dir ++ codes "/")
    ++ drop (length zpath) e.file_name

-- `mzIsZipEntrySymlink`
unfoldable pub is_zip_entry_symlink : Entry → Bool
is_zip_entry_symlink e =
    (e.version_made_by / 256 % 256 == 3) && (e.external_file_attributes / 65536 / 4096 % 16 == 10)

-- The byte in front of the end of the name; of an empty name, the byte in front of it in the file.
unfoldable pub last_byte : Bytes → Entry → ℕ
last_byte m e =
    if length e.file_name == 0
    then get_or m (e.name_at - 1) 0
    else get_or e.file_name (length e.file_name - 1) 0

module _ {W : Type 0} (files : Files W) (flags : Flags) (m : Bytes) where
  unfoldable pub make_link : Bytes → Option Bytes × W → Round × W
  make_link path (none, w) = (failed, w)
  make_link path (some link, w) =
      let (ret, w') = files.symlink link path w in (if is_nonzero ret then failed else go_on, w')

  unfoldable pub extract_symlink : Entry → Bytes → W → Round × W
  unfolding make_link
  extract_symlink e path w =
      let made = make_link path (files.read_zip_entry e w) in
      if e.uncomp_len == 0 then (failed, w) else made

  -- Here, and where the file is written, a second variable `ok` hides the one of the function.
  unfoldable pub touch : Bytes → W → Round × W
  touch path w =
      let (ret, w') = files.utime path w in
      if flags.timestamp then (if is_nonzero ret then stopped else go_on, w') else (go_on, w)

  unfoldable pub extract_regular : Entry → Bytes → W → Round × W
  unfolding touch
  extract_regular e path w =
      let (fd, w₁) = files.creat path w in
      let (written, w₂) = files.extract_to_file e path w₁ in
      let touched = touch path w₂ in
      if is_negative fd then (failed, w₁) else if written then touched else (stopped, w₂)

  unfoldable pub extract_dir : Bytes → W → Round × W
  extract_dir path w =
      let (ret, w') = files.dir_create_hierarchy path false w in
      if flags.files_only then (go_on, w) else (if is_nonzero ret then failed else go_on, w')

  unfoldable pub extract_file : Entry → Bytes → W → Round × W
  extract_file e path w =
      let (ret, w') = files.dir_create_hierarchy path true w in
      let linked = extract_symlink e path w' in
      let regular = extract_regular e path w' in
      if is_nonzero ret
      then (failed, w')
      else if not flags.files_only && is_zip_entry_symlink e
      then linked
      else regular

  unfoldable pub called : Bytes → Round × W → Round × W
  called path (go_on, w) = (go_on, files.callback path w)
  called path (failed, w) = (failed, w)
  called path (stopped, w) = (stopped, w)

  -- What is done with a matching entry.
  unfoldable pub extract_entry : Entry → Bytes → W → Round × W
  unfolding last_byte extract_dir extract_file called
  extract_entry e path w =
      let made =
        called path (if last_byte m e == b'/' then extract_dir path w else extract_file e path w) in
      if flags.dry_run then (go_on, files.callback path w) else made

  abbrev pub proceed : Round × W → (W → Bool × W) → Bool × W
  proceed (go_on, w) rest = rest w
  proceed (failed, w) rest = (false, w)
  proceed (stopped, w) rest = (true, w)

  module _ (zpath target_dir : Bytes) where
    -- The loop over the entries; `seen` is `seenMatch`.
    unfoldable pub walk : Bool → List Entry → W → Bool × W
    walk seen [] w = (true, w)
    walk seen (e ∷ es) w =
        let skipped = walk seen es w in
        let done =
          proceed (extract_entry e (target_entry_path target_dir zpath e) w) (walk true es) in
        if ltb (length e.file_name) (length zpath) || not (starts_with zpath e.file_name)
        then (if seen then (true, w) else skipped)
        else done

  unfoldable pub starts_with_slash : Bytes → Bool
  starts_with_slash [] = false
  starts_with_slash (c ∷ s) = c == b'/'

  unfoldable pub extract_recursive : Bytes → Bytes → List Entry → W → Bool × W
  unfolding starts_with_slash
  extract_recursive zip_dir target_dir es w =
      let walked = walk (canonical zip_dir) target_dir false es w in
      if starts_with_slash zip_dir || not (starts_with_slash target_dir) then (false, w) else walked
