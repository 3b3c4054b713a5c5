-- ===== src/Minzip/Zip/Search.antt =====
-- The binary search of minzip/Zip.c, which keeps the entries sorted by name.
use recovery_sdx.Base.{
  ℕ, zero, suc, ◌+◌, ◌-◌, ◌/◌, List, [], ◌∷◌, ◌++◌, Bytes, ltb, ◌==◌, if◌then◌else◌, length, get_or,
  take, drop,
}
use recovery_sdx.Base.Int.{ℤ, pos, minus_one, is_negative, is_nonzero}

-- The sign of `strncmp(a, b, n)`.
unfoldable pub strncmp : ℕ → Bytes → Bytes → ℤ
strncmp zero a b = pos 0
strncmp (suc n) [] [] = pos 0
strncmp (suc n) [] (d ∷ b) = if d == 0 then pos 0 else minus_one
strncmp (suc n) (c ∷ a) [] = if c == 0 then pos 0 else pos 1
strncmp (suc n) (c ∷ a) (d ∷ b) =
    let rest = strncmp n a b in
    if ltb c d then minus_one else if ltb d c then pos 1 else if c == 0 then pos 0 else rest

unfoldable pub compare_len : ℕ → ℕ → ℤ
compare_len a b = if ltb a b then minus_one else if ltb b a then pos 1 else pos 0

-- The sign of `diff` in the loop of `parseZipArchive`, for a name of the list and a new one.
unfoldable pub name_diff : Bytes → Bytes → ℤ
unfolding compare_len
name_diff a b =
    let diff = strncmp (if ltb (length a) (length b) then length a else length b) a b in
    if is_nonzero diff then diff else compare_len (length a) (length b)

-- The loop `while (low <= high)`, with `hi` for `high + 1`, to `high + 1`. Each round takes away at
-- least one entry, so that as many rounds as there are entries are enough fuel.
unfoldable pub search : ℕ → Bytes → List Bytes → ℕ → ℕ → ℕ
search zero new names low hi = hi
search (suc fuel) new names low hi =
    let mid = low + (hi - 1 - low) / 2 in
    let diff = name_diff (get_or names mid []) new in
    let right = search fuel new names (mid + 1) hi in
    let left = search fuel new names low mid in
    if ltb low hi
    then (if is_negative diff then right else if is_nonzero diff then left else mid + 1)
    else hi

module _ {E : Type 0} (name : E → Bytes) where
  unfoldable pub names_of : List E → List Bytes
  names_of [] = []
  names_of (e ∷ es) = name e ∷ names_of es

  -- The place of a new entry, and the entries with it there.
  unfoldable pub insert_sorted : E → List E → List E
  insert_sorted e es =
      let target = search (length es) (name e) (names_of es) 0 (length es) in
      take target es ++ (e ∷ drop target es)
