-- ===== src/Edify/Strings.antt =====
-- The calls of the C library that edify/expr.c makes on its strings.
pub mod Decimal
use recovery_sdx.Base.{
  ℕ, ◌+◌, ◌-◌, ◌*◌, ◌^◌, Bool, true, false, ◌&&◌, ◌||◌, List, [], ◌∷◌, Bytes, leb, ltb, ◌==◌,
  if◌then◌else◌, starts_with,
}
use recovery_sdx.Base.Int.{ℤ, pos, negsuc, negative}

-- `BooleanString`
abbrev pub boolean_string : Bytes → Bool
boolean_string [] = false
boolean_string (c ∷ s) = true

-- `strdup(b ? "t" : "")`
abbrev pub of_bool : Bool → Bytes
of_bool true = b't' ∷ []
of_bool false = []

-- `strstr(haystack, needle) != NULL`
unfoldable pub strstr : Bytes → Bytes → Bool
unfolding starts_with
strstr needle [] = starts_with needle []
strstr needle (c ∷ s) = starts_with needle (c ∷ s) || strstr needle s

unfoldable pub is_space : ℕ → Bool
is_space c = c == b' ' || (leb 9 c && leb c 13)

abbrev pub is_digit : ℕ → Bool
is_digit c = leb b'0' c && leb c b'9'

unfoldable pub skip_space : Bytes → Bytes
skip_space [] = []
skip_space (c ∷ s) = if is_space c then skip_space s else c ∷ s

-- The value of the leading digits, and what stands behind them.
unfoldable pub digits : ℕ → Bytes → ℕ × Bytes
digits acc [] = (acc, [])
digits acc (c ∷ s) =
    let more = digits (acc * 10 + (c - b'0')) s in if is_digit c then more else (acc, c ∷ s)

-- A long has 32 bits, and strtol saturates.
clamp : Bool → ℕ → ℤ
clamp true n = if leb n (2 ^ 31) then negative n else negative (2 ^ 31)
clamp false n = if ltb n (2 ^ 31) then pos n else pos (2 ^ 31 - 1)

-- with no digit nothing is converted, and the end is the start
number : Bytes → Bool → Bytes → ℤ × Bytes
unfolding digits clamp
number whole neg [] = (pos 0, whole)
number whole neg (c ∷ s) =
    let (n, rest) = digits 0 (c ∷ s) in if is_digit c then (clamp neg n, rest) else (pos 0, whole)

signed : Bytes → Bytes → ℤ × Bytes
unfolding number
signed whole [] = (pos 0, whole)
signed whole (c ∷ s) =
    if c == b'-'
    then number whole true s
    else if c == b'+'
    then number whole false s
    else number whole false (c ∷ s)

-- `strtol(s, &end, 10)`, with the string at `end`.
unfoldable pub strtol : Bytes → ℤ × Bytes
unfolding signed skip_space is_space
strtol s = signed s (skip_space s)
