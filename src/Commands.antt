-- ===== src/Commands.antt =====
-- commands.c: the commands and functions that an amend script of an update package can call.
pub mod Device
pub mod Register
pub mod Image
pub mod Permissions
pub mod Values
mod Tests
use recovery_sdx.Base.{
  ℕ, Bool, true, false, ◌||◌, Option, none, some, List, [], ◌∷◌, ◌++◌, Bytes, if◌then◌else◌, codes,
  bytes_eq, length, ◌==◌, ltb,
}
use recovery_sdx.Base.Int.{ℤ, pos, minus_one, is_nonzero}
use recovery_sdx.Amend.Commands.{CommandHook, FunctionHook}
use recovery_sdx.Edify.Strings.{strstr}
use recovery_sdx.Os.{Os}
use recovery_sdx.Roots.{translate_root_path, ensure_root_path_mounted}

abbrev pub path_max : ℕ
path_max = 4096

-- What a function gives: the number it returns, and `*result`.
abbrev pub Answer : Type 0
Answer = ℤ × Option Bytes

abbrev pub value : Bytes → Answer
value s = (pos 0, some s)

abbrev pub refused : Answer
refused = (pos 1, none)

-- `assert`: argv has to be null, and argc a truth value.
unfoldable pub cmd_assert : {W : Type 0} → CommandHook W
cmd_assert name cookie argc (some argv) w = (minus_one, w)
cmd_assert name cookie argc none w =
    (if argc == 1 then pos 0 else if argc == 0 then pos 1 else minus_one, w)

-- `mark` and `done`
unfoldable pub cmd_fails : {W : Type 0} → CommandHook W
cmd_fails name cookie argc argv w = (minus_one, w)

unfoldable pub compatible_with : List Bytes → Answer
compatible_with (v ∷ []) =
    value (if bytes_eq v (codes "0.1") || bytes_eq v (codes "0.2") then codes "true" else [])
compatible_with args = refused

unfoldable pub update_forced : List Bytes → Answer
update_forced [] = value (codes "true")
update_forced (a ∷ args) = refused

unfoldable pub get_mark : List Bytes → Answer
get_mark (r ∷ []) = value []
get_mark args = refused

unfoldable pub hash_dir : List Bytes → Answer
hash_dir (d ∷ []) = (minus_one, none)
hash_dir args = refused

-- The loop of `fn_matches`.
unfoldable pub match_any : Bytes → List Bytes → Bytes
match_any s [] = []
match_any s (t ∷ ts) = if bytes_eq s t then s else match_any s ts

unfoldable pub matches : List Bytes → Answer
matches (s ∷ t ∷ ts) = value (match_any s (t ∷ ts))
matches args = refused

unfoldable pub concat_all : List Bytes → Bytes
concat_all [] = []
concat_all (s ∷ ss) = s ++ concat_all ss

unfoldable pub concat : List Bytes → Answer
unfolding concat_all
concat args = value (concat_all args)

-- A function that neither reads nor changes the system.
abbrev pub pure : {W : Type 0} → (List Bytes → Answer) → FunctionHook W
pure f name cookie args w = (f args, w)

-- `property_get` with the default "", and `load_file`.
pub record Readings (W : Type 0) : Type 0 where
  pub property_get : Bytes → W → Bytes
  pub load_file : Bytes → W → Option Bytes

module _ {W : Type 0} (os : Os W) (readings : Readings W) where
  unfoldable pub getprop : List Bytes → W → Answer × W
  getprop (p ∷ []) w = (value (readings.property_get p w), w)
  getprop args w = (refused, w)

  unfoldable pub contains : Option Bytes → Bytes → Answer
  contains none needle = value []
  contains (some haystack) needle = value (if strstr needle haystack then codes "true" else [])

  unfoldable pub contained : Bytes → Bytes → Option Bytes → W → Answer × W
  contained root_path needle none w = (refused, w)
  contained root_path needle (some path) w =
      let (ret, w') = ensure_root_path_mounted os root_path w in
      (if is_nonzero ret then refused else contains (readings.load_file path w') needle, w')

  unfoldable pub file_contains : List Bytes → W → Answer × W
  unfolding contained contains
  file_contains (root_path ∷ needle ∷ []) w =
      contained root_path needle (translate_root_path root_path path_max) w
  file_contains args w = (refused, w)
