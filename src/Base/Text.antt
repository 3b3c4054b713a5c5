-- ===== src/Base/Text.antt =====
-- C strings as the lists of their bytes, and the calls of string.h that the program makes.
use Prim.Native.Nat.{ℕ, ◌+◌}
use Prim.Native.Char.{code}
use Prim.Native.String.{String}
use mathlib.Core.Path.{◌≡◌, refl}
use mathlib.Core.Logic.{◌↔◌}
use mathlib.Core.Bool.{Bool, true, false, ◌&&◌}
use mathlib.Core.List.{List, [], ◌∷◌, ◌++◌}
use native.Mathlib.Omega.{arith}
use recovery_sdx.Base.Tests.{leb, ◌==◌, if◌then◌else◌}
use recovery_sdx.Base.Lists.{take}

abbrev pub Bytes : Type 0
Bytes = List ℕ

-- The bytes of an ASCII literal.
abbrev pub codes : String → Bytes
codes String.[] = []
codes (String.◌∷◌ c s) = code c ∷ codes s

-- `strcmp(a, b) == 0`
unfoldable pub bytes_eq : Bytes → Bytes → Bool
bytes_eq [] [] = true
bytes_eq (x ∷ a) (y ∷ b) = x == y && bytes_eq a b
bytes_eq _ _ = false

-- `memcmp(a, b, n) == 0`
abbrev pub memcmp_eq : ℕ → Bytes → Bytes → Bool
memcmp_eq n a b = bytes_eq (take n a) (take n b)

-- `strncmp(s, prefix, strlen(prefix)) == 0`
unfoldable pub starts_with : Bytes → Bytes → Bool
starts_with [] s = true
starts_with (p ∷ ps) [] = false
starts_with (p ∷ ps) (c ∷ s) = p == c && starts_with ps s

-- `tolower` in the C locale.
unfoldable pub to_lower : ℕ → ℕ
to_lower c = if leb b'A' c && leb c b'Z' then c + 32 else c

-- `strncasecmp(s, prefix, strlen(prefix)) == 0`
unfoldable pub starts_with_nocase : Bytes → Bytes → Bool
unfolding to_lower
starts_with_nocase [] s = true
starts_with_nocase (p ∷ ps) [] = false
starts_with_nocase (p ∷ ps) (c ∷ s) = to_lower p == to_lower c && starts_with_nocase ps s

-- What a C string holds of a buffer: the bytes before the first NUL.
unfoldable pub until_nul : Bytes → Bytes
until_nul [] = []
until_nul (c ∷ s) = if c == 0 then [] else c ∷ until_nul s

pub bytes_eq_iff : (a b : Bytes) → (bytes_eq a b ≡ true) ↔ (a ≡ b)
unfolding bytes_eq
bytes_eq_iff (x ∷ a) (y ∷ b) = ground (arith, bytes_eq_iff a b)
bytes_eq_iff _ _ = ground arith

pub bytes_eq_refl : (a : Bytes) → bytes_eq a a ≡ true
bytes_eq_refl a = (bytes_eq_iff a a).1 refl

pub starts_with-append : (p s : Bytes) → starts_with p (p ++ s) ≡ true
unfolding starts_with
starts_with-append [] s = refl
starts_with-append (c ∷ p) s = ground (arith, starts_with-append p s)

pub starts_with-eq : (p s : Bytes) → starts_with p s ≡ true → (rest : Bytes) × (s ≡ p ++ rest)
unfolding starts_with
starts_with-eq [] s h = (s, refl)
starts_with-eq (c ∷ p) [] h = cc
starts_with-eq (c ∷ p) (d ∷ s) h =
    let (rest, e) = starts_with-eq p s (ground arith) in (rest, ground arith)
