-- ===== src/Updater/Files.antt =====
-- `DeleteFn`, `PackageExtractDirFn`, `PackageExtractFileFn`, `SymlinkFn` and `SetPermFn` of
-- updater/install.c.
use recovery_sdx.Base.{
  ℕ, ◌+◌, Bool, true, false, not, ◌||◌, Option, none, some, List, [], ◌∷◌, ◌++◌, Bytes, ◌==◌, ltb,
  if◌then◌else◌, codes, bytes_eq, length,
}
use recovery_sdx.Base.Int.{pos, is_nonzero}
use recovery_sdx.Edify.Strings.{of_bool}
use recovery_sdx.Edify.Expr.{State, Result, value, null, fault, M, ◌>>=◌, ret, undefined, Arg}
use recovery_sdx.Edify.Arguments.{error_abort, read_two, read_var_args}
use recovery_sdx.Updater.Machine.{Machine, Info, calling, running, asking}
use recovery_sdx.Updater.Volumes.{expects, is_blank}

module _ {W : Type 0} where
  -- NULL as the first path is the result. Behind another path it is not: the loop that frees the
  -- paths before it counts `i` instead of `j`, and frees the first one again and again.
  unfoldable pub collected :
      Bool → Result × State (Info W) → (Bytes → M (Info W)) → Result × State (Info W)
  collected first (value v, s) k = k v s
  collected first (null, s) k = if first then (null, s) else (fault, s)
  collected first (fault, s) k = (fault, s)

  unfoldable pub collect : Bool → List (Arg (Info W)) → (List Bytes → M (Info W)) → M (Info W)
  unfolding collected
  collect first [] k s = k [] s
  collect first (a ∷ more) k s =
      collected first (a.run s) (λ v. collect false more (λ vs. k (v ∷ vs)))

unfoldable pub least : Bool → ℕ
least true = 5
least false = 4

-- `min_args`
unfoldable pub min_args : Bytes → ℕ
unfolding least
min_args name = least (bytes_eq name (codes "set_perm_recursive"))

module _ {W : Type 0} (m : Machine W) where
  -- The number of paths that were removed.
  unfoldable pub delete_all : Bool → List Bytes → W → ℕ × W
  delete_all recursive [] w = (0, w)
  delete_all recursive (p ∷ ps) w =
      let (r, w₁) = if recursive then m.dir_unlink_hierarchy p w else m.unlink p w in
      let (n, w₂) = delete_all recursive ps w₁ in (if is_nonzero r then n else n + 1, w₂)

  unfoldable pub delete_fn : Bytes → List (Arg (Info W)) → M (Info W)
  unfolding collect delete_all
  delete_fn name args = collect true args (λ paths.
      calling (delete_all (bytes_eq name (codes "delete_recursive")) paths)
        λ success. ret (m.format_d (pos success)))

  unfoldable pub package_extract_dir_fn : Bytes → List (Arg (Info W)) → M (Info W)
  unfolding expects
  package_extract_dir_fn name args =
      if length args == 2
      then read_two args (λ zip_path dest_path.
        calling (m.extract_recursive zip_path dest_path) λ success. ret (of_bool success))
      else expects m name (codes "2 args") (length args)

  unfoldable pub extract_opened : ℕ → Bytes → Bool → M (Info W)
  extract_opened entry dest_path opened =
      if opened
      then (calling (m.extract_entry_to_file entry dest_path) λ success. ret (of_bool success))
      else ret []

  unfoldable pub extract_found : Bytes → Option ℕ → M (Info W)
  unfolding extract_opened
  extract_found dest_path none = ret []
  extract_found dest_path (some entry) =
      calling (m.fopen_write dest_path) (extract_opened entry dest_path)

  unfoldable pub package_extract_file_fn : Bytes → List (Arg (Info W)) → M (Info W)
  unfolding extract_found expects
  package_extract_file_fn name args =
      if length args == 2
      then read_two args
          (λ zip_path dest_path. asking (m.find_zip_entry zip_path) (extract_found dest_path))
      else expects m name (codes "2 args") (length args)

  unfoldable pub symlink_all : Bytes → List Bytes → W → W
  symlink_all target [] w = w
  symlink_all target (src ∷ srcs) w = symlink_all target srcs (m.symlink target src w)

  unfoldable pub symlink_fn : Bytes → List (Arg (Info W)) → M (Info W)
  unfolding symlink_all expects
  symlink_fn name [] = expects m name (codes "1+ args") 0
  symlink_fn name (a ∷ more) =
      a.run >>= λ target. read_var_args more λ srcs. running (symlink_all target srcs) (ret [])

  -- A number that `strtoul` reads to the end of the text.
  unfoldable pub number_of : Bytes → Option ℕ
  unfolding is_blank
  number_of s =
      let (n, end) = m.strtoul s in if not (is_blank end) || is_blank s then none else some n

  -- "<name>: "<text>" not a valid <what>"
  unfoldable pub not_valid : Bytes → Bytes → Bytes → M (Info W)
  unfolding error_abort
  not_valid name text what =
      error_abort (name ++ codes ": \"" ++ text ++ codes "\" not a valid " ++ what)

  unfoldable pub set_each : ℕ → ℕ → ℕ → List Bytes → W → W
  set_each uid gid mode [] w = w
  set_each uid gid mode (p ∷ ps) w = set_each uid gid mode ps (m.chmod p mode (m.chown p uid gid w))

  unfoldable pub set_each_below : ℕ → ℕ → ℕ → ℕ → List Bytes → W → W
  set_each_below uid gid dir_mode file_mode [] w = w
  set_each_below uid gid dir_mode file_mode (p ∷ ps) w =
      set_each_below uid gid dir_mode file_mode ps
        (m.dir_set_hierarchy_permissions p uid gid dir_mode file_mode w)

  unfoldable pub checked : Bytes → Bytes → Bytes → (ℕ → M (Info W)) → Option ℕ → M (Info W)
  unfolding not_valid
  checked name what text k none = not_valid name text what
  checked name what text k (some n) = k n

  -- A number, or the message that it is none.
  unfoldable pub valid : Bytes → Bytes → Bytes → (ℕ → M (Info W)) → M (Info W)
  unfolding number_of checked
  valid name what text k = checked name what text k (number_of text)

  -- The arguments are as many as `argc` was found to be, so that none is missing here.
  unfoldable pub set_perm_args : Bytes → Bool → List Bytes → M (Info W)
  unfolding valid set_each set_each_below
  set_perm_args name true (a ∷ b ∷ c ∷ d ∷ paths) = valid name (codes "uid") a λ uid.
      valid name (codes "gid") b λ gid. valid name (codes "dirmode") c λ dir_mode.
        valid name (codes "filemode") d
          λ file_mode. running (set_each_below uid gid dir_mode file_mode paths) (ret [])
  set_perm_args name false (a ∷ b ∷ c ∷ paths) = valid name (codes "uid") a λ uid.
      valid name (codes "gid") b
        λ gid. valid name (codes "mode") c λ mode. running (set_each uid gid mode paths) (ret [])
  set_perm_args name recursive args = undefined

  -- With too few arguments, the format of the message has one "%d" more than it is given numbers.
  unfoldable pub set_perm_fn : Bytes → List (Arg (Info W)) → M (Info W)
  unfolding set_perm_args min_args
  set_perm_fn name args =
      if ltb (length args) (min_args name)
      then undefined
      else read_var_args args (set_perm_args name (bytes_eq name (codes "set_perm_recursive")))
