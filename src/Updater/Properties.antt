-- ===== src/Updater/Properties.antt =====
-- `GetPropFn` and `FileGetPropFn` of updater/install.c.
use recovery_sdx.Base.{
  ℕ, ◌+◌, Option, none, some, List, [], ◌∷◌, ◌++◌, Bytes, ltb, ◌==◌, if◌then◌else◌, codes, bytes_eq,
  length, take, until_nul,
}
use recovery_sdx.Base.Int.{pos}
use recovery_sdx.Edify.Strings.{is_space, skip_space}
use recovery_sdx.Edify.Expr.{M, ◌>>=◌, ret, undefined, Arg}
use recovery_sdx.Edify.Arguments.{error_abort, read_two}
use recovery_sdx.Updater.Machine.{Machine, Info, asking}
use recovery_sdx.Updater.Volumes.{expects}
use recovery_sdx.Updater.Screen.{lines_of}

-- The text without the white space at its end.
unfoldable pub trimmed : ℕ → Bytes → Bytes
trimmed c [] = if is_space c then [] else c ∷ []
trimmed c (d ∷ s) = c ∷ d ∷ s

unfoldable pub trim_end : Bytes → Bytes
unfolding trimmed
trim_end [] = []
trim_end (c ∷ s) = trimmed c (trim_end s)

unfoldable pub with_first : ℕ → Option (Bytes × Bytes) → Option (Bytes × Bytes)
with_first c none = none
with_first c (some (key, val)) = some (c ∷ key, val)

-- `strchr(line, '=')`: what stands in front of the sign, and behind it.
unfoldable pub at_equal : Bytes → Option (Bytes × Bytes)
unfolding with_first
at_equal [] = none
at_equal (c ∷ s) = let later = at_equal s in if c == b'=' then some ([], s) else with_first c later

-- What a line says: nothing, since it is blank or a comment; a key and a value; or it is malformed.
pub data Meaning : Type 0 where
  skipped malformed : Meaning
  property : Bytes → Bytes → Meaning

unfoldable pub property_line : Option (Bytes × Bytes) → Meaning
unfolding trim_end
property_line none = malformed
property_line (some (key, val)) = property (trim_end key) (trim_end (skip_space val))

-- A key begins with no white space here, so that the loop which trims it may stop at its first byte.
unfoldable pub started_line : Bytes → Meaning
unfolding property_line at_equal
started_line [] = skipped
started_line (c ∷ s) = if c == b'#' then skipped else property_line (at_equal (c ∷ s))

unfoldable pub line_of : Bytes → Meaning
unfolding started_line
line_of line = started_line (skip_space line)

abbrev pub max_file_getprop_size : ℕ
max_file_getprop_size = 65536

module _ {W : Type 0} (m : Machine W) where
  unfoldable pub get_prop_fn : Bytes → List (Arg (Info W)) → M (Info W)
  unfolding expects
  get_prop_fn name (a ∷ []) = a.run >>= λ key. asking (m.property_get key) (λ val. ret val)
  get_prop_fn name args = expects m name (codes "1 arg") (length args)

  -- `line` is the line without the white space in front of it.
  unfoldable pub said : Bytes → Bytes → Bytes → Bytes → Meaning → M (Info W) → M (Info W)
  unfolding error_abort
  said name filename key line skipped rest = rest
  said name filename key line malformed rest = error_abort (
      name
      ++ codes ": malformed line \""
      ++ line
      ++ codes "\": "
      ++ filename
      ++ codes " not a prop file?")
  said name filename key line (property k v) rest = if bytes_eq key k then ret v else rest

  -- The loop over the lines.
  unfoldable pub find_property : Bytes → Bytes → Bytes → List Bytes → M (Info W)
  unfolding said line_of
  find_property name filename key [] = ret []
  find_property name filename key (l ∷ ls) =
      said name filename key (skip_space l) (line_of l) (find_property name filename key ls)

  -- A text with no line gives the loop a null pointer to read.
  unfoldable pub find_from : Bytes → Bytes → Bytes → List Bytes → M (Info W)
  unfolding find_property
  find_from name filename key [] = undefined
  find_from name filename key (l ∷ ls) = find_property name filename key (l ∷ ls)

  -- The text of the file, with the size that `stat` gave.
  unfoldable pub read_properties : Bytes → Bytes → Bytes → ℕ → Option Bytes → M (Info W)
  unfolding find_from error_abort lines_of
  read_properties name filename key size none =
      asking m.strerror
        λ e. error_abort (name ++ codes ": failed to open " ++ filename ++ codes ": " ++ e)
  read_properties name filename key size (some contents) =
      if length (take size contents) == size
      then find_from name filename key (lines_of (until_nul (take size contents)))
      else error_abort (
          name
          ++ codes ": failed to read "
          ++ m.format_d (pos (size + 1))
          ++ codes " bytes from "
          ++ filename)

  unfoldable pub sized : Bytes → Bytes → Bytes → Option ℕ → M (Info W)
  unfolding read_properties error_abort
  sized name filename key none =
      asking m.strerror
        λ e. error_abort (name ++ codes ": failed to stat \"" ++ filename ++ codes "\": " ++ e)
  sized name filename key (some size) =
      if ltb max_file_getprop_size size
      then error_abort (
          filename
          ++ codes " too large for "
          ++ name
          ++ codes " (max "
          ++ m.format_d (pos max_file_getprop_size)
          ++ codes ")")
      else asking (m.file_contents filename) (read_properties name filename key size)

  unfoldable pub file_get_prop_fn : Bytes → List (Arg (Info W)) → M (Info W)
  unfolding sized
  file_get_prop_fn name args =
      read_two args (λ filename key. asking (m.stat_size filename) (sized name filename key))
