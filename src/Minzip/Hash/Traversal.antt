-- ===== src/Minzip/Hash/Traversal.antt =====
-- The loops of minzip/Hash.c over a whole table, with the function that frees entries, and the
-- size that is asked for. What the functions of the caller do is a change of a state `S`.
use recovery_sdx.Base.{
  ℕ, suc, ◌+◌, ◌*◌, ◌/◌, ◌%◌, ◌^◌, ◌≤◌, ◌<◌, ◌≡◌, refl, ap, ◌∙◌, Option, none, some, List, [], ◌∷◌,
  if◌then◌else◌, length, replicate, arith,
}
use recovery_sdx.Base.Int.{ℤ, pos, is_nonzero}
use recovery_sdx.Minzip.Hash.{HashEntry, empty, tombstone, live, HashTable, create}
use recovery_sdx.Minzip.Hash.Room.{IsValid, live_count}

-- `size_t` has 32 bits.
unfoldable pub hash_size : ℕ → ℕ
hash_size size = ((size * 8) % 2 ^ 32 / 5 + 1) % 2 ^ 32

module _ {A S : Type 0} where
  -- A call of `freeFunc`, if there is one.
  unfoldable pub free_data : Option (A → S → S) → A → S → S
  free_data none d s = s
  free_data (some free) d s = free d s

  unfoldable pub clear_entries :
      Option (A → S → S) → List (HashEntry A) → S → List (HashEntry A) × S
  unfolding free_data
  clear_entries free [] s = ([], s)
  clear_entries free (empty ∷ es) s = let (es', s') = clear_entries free es s in (empty ∷ es', s')
  clear_entries free (tombstone ∷ es) s =
      let (es', s') = clear_entries free es s in (empty ∷ es', s')
  clear_entries free (live h d ∷ es) s =
      let (es', s') = clear_entries free es (free_data free d s) in (empty ∷ es', s')

  unfoldable pub clear : Option (A → S → S) → HashTable A → S → HashTable A × S
  unfolding clear_entries
  clear free t s =
      let (es, s') = clear_entries free t.entries s in
      (record t { num_entries = 0; num_dead_entries = 0; entries = es }, s')

  unfoldable pub foreach_entry : (A → S → ℤ × S) → List (HashEntry A) → S → ℤ × S
  foreach_entry func [] s = (pos 0, s)
  foreach_entry func (empty ∷ es) s = foreach_entry func es s
  foreach_entry func (tombstone ∷ es) s = foreach_entry func es s
  foreach_entry func (live h d ∷ es) s =
      let (val, s') = func d s in
      let rest = foreach_entry func es s' in if is_nonzero val then (val, s') else rest

  unfoldable pub foreach : (A → S → ℤ × S) → HashTable A → S → ℤ × S
  unfolding foreach_entry
  foreach func t s = foreach_entry func t.entries s

  -- The calls of a function on the items of a list, in their order.
  unfoldable pub each : (A → S → S) → List A → S → S
  each f [] s = s
  each f (d ∷ ds) s = each f ds (f d s)

module _ {A : Type 0} where
  unfoldable pub items : List (HashEntry A) → List A
  items [] = []
  items (empty ∷ es) = items es
  items (tombstone ∷ es) = items es
  items (live h d ∷ es) = d ∷ items es

  -- There are as many items as the table counts.
  pub length-items : (es : List (HashEntry A)) → length (items es) ≡ live_count es
  unfolding items live_count
  length-items [] = refl
  length-items (empty ∷ es) = length-items es
  length-items (tombstone ∷ es) = length-items es
  length-items (live h d ∷ es) = ap suc (length-items es)

module _ {A S : Type 0} where
  clear_entries-each :
      (free : A → S → S) (es : List (HashEntry A)) (s : S)
      → clear_entries (some free) es s ≡ (replicate (length es) empty, each free (items es) s)
  unfolding clear_entries free_data each items
  clear_entries-each free [] s = refl
  clear_entries-each free (empty ∷ es) s =
      ap (λ r. (empty ∷ r.0, r.1)) (clear_entries-each free es s)
  clear_entries-each free (tombstone ∷ es) s =
      ap (λ r. (empty ∷ r.0, r.1)) (clear_entries-each free es s)
  clear_entries-each free (live h d ∷ es) s =
      ap (λ r. (empty ∷ r.0, r.1)) (clear_entries-each free es (free d s))

  -- `mzHashTableClear` leaves a valid table as it was created, and frees each of its items once.
  pub clear-create :
      (free : A → S → S) (t : HashTable A) (s : S)
      → IsValid t
      → (clear (some free) t s ≡ (create t.size_bits, each free (items t.entries) s))
        × (length (items t.entries) ≡ t.num_entries)
  unfolding clear create
  clear-create free t s v = (
    ap (λ r. (record t { num_entries = 0; num_dead_entries = 0; entries = r.0 }, r.1))
          (clear_entries-each free t.entries s)
        ∙ ap
            (λ n. (
              record t { num_entries = 0; num_dead_entries = 0; entries = replicate n empty },
              each free (items t.entries) s,
            ))
            v.size,
    length-items t.entries ∙ v.lives,
  )

  foreach_entry-each :
      (f : A → S → S) (es : List (HashEntry A)) (s : S)
      → foreach_entry (λ d s. (pos 0, f d s)) es s ≡ (pos 0, each f (items es) s)
  unfolding foreach_entry each items
  foreach_entry-each f [] s = refl
  foreach_entry-each f (empty ∷ es) s = foreach_entry-each f es s
  foreach_entry-each f (tombstone ∷ es) s = foreach_entry-each f es s
  foreach_entry-each f (live h d ∷ es) s = foreach_entry-each f es (f d s)

  -- With a function that always returns 0, `mzHashForeach` calls it on every item.
  pub foreach-each :
      (f : A → S → S) (t : HashTable A) (s : S)
      → foreach (λ d s. (pos 0, f d s)) t s ≡ (pos 0, each f (items t.entries) s)
  unfolding foreach
  foreach-each f t s = foreach_entry-each f t.entries s

-- A table of this size, or of a larger one, never grows for so many entries: they are at most 5/8 of
-- it.
pub hash_size-fits : (n : ℕ) → n * 8 < 2 ^ 32 → n * 8 ≤ hash_size n * 5
unfolding hash_size
hash_size-fits n h = omega arith
