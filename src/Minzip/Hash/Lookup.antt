-- ===== src/Minzip/Hash/Lookup.antt =====
-- The operations on a table whose counters are right.
use recovery_sdx.Base.{
  ℕ, ◌+◌, ◌%◌, ◌^◌, ◌<◌, ◌≡◌, refl, ap, ◌∙◌, Bool, true, false, ◌||◌, ◌⊎◌, Option, none, some, ◌==◌,
  if◌then◌else◌, get_or, arith, inl, inr, length-set, length-replicate, &&-eq-true,
}
use recovery_sdx.Minzip.Hash.{
  HashEntry, empty, tombstone, live, HashTable, table_size, is_empty, create, is_match, found_at,
  lookup, is_item, remove_at, remove,
}
use recovery_sdx.Minzip.Hash.Probe.{probe-Ends}
use recovery_sdx.Minzip.Hash.Room.{
  IsValid, has_empty, set-tombstone, count-replicate, pow_pos, start_lt, add_at-IsValid,
}

module _ {A : Type 0} where
  pub create-IsValid : (b : ℕ) → IsValid (create {A = A} b)
  unfolding create
  create-IsValid b =
      let (lives, deads) = count-replicate A b' in
      record { size = length-replicate b' empty; lives = lives; deads = deads; load = omega arith }
    where
      b' : ℕ
      b' = 2 ^ b

  -- A match, and with `do_add` the item itself or a match.
  abbrev pub Answer : (A → A → Bool) → A → Bool → Option A → Type 0
  Answer cmp item true none = ⊥
  Answer cmp item true (some d) = (d ≡ item) ⊎ (cmp d item ≡ true)
  Answer cmp item false none = Unit
  Answer cmp item false (some d) = cmp d item ≡ true

  somewhere_empty :
      (t : HashTable A)
      → IsValid t
      → (j : ℕ) × (j < table_size t) × (is_empty (get_or t.entries j empty) ≡ true)
  somewhere_empty t v =
      let (j, lt, e) =
        has_empty t.entries
          (omega (arith, v.size, v.lives, v.deads, v.load, pow_pos t.size_bits)) in
      (j, omega (arith, v.size), e)

  found_at-Answer :
      (cmp : A → A → Bool) (t : HashTable A) (h : ℕ) (item : A) (do_add : Bool) (i : ℕ)
      (e : HashEntry A)
      → IsValid t
      → i < table_size t
      → get_or t.entries i empty ≡ e
      → (is_empty e || is_match cmp h item e) ≡ true
      → (res : Option A) × (t' : HashTable A) × (found_at t h item do_add i e ≡ some (res, t'))
        × IsValid t'
        × Answer cmp item do_add res
  unfolding found_at is_match
  found_at-Answer cmp t h item true i empty v lt at stop =
      let (t', done, v') = add_at-IsValid t h item i v lt (ap is_empty at) in
      (some item, t', rw done refl, v', inl refl)
  found_at-Answer cmp t h item false i empty v lt at stop = (none, t, refl, v, tt)
  found_at-Answer cmp t h item true i tombstone v lt at stop = absurd (ground arith)
  found_at-Answer cmp t h item false i tombstone v lt at stop = absurd (ground arith)
  found_at-Answer cmp t h item true i (live g d) v lt at stop =
      (some d, t, refl, v, inr (&&-eq-true (g == h) (cmp d item) stop).1)
  found_at-Answer cmp t h item false i (live g d) v lt at stop =
      (some d, t, refl, v, (&&-eq-true (g == h) (cmp d item) stop).1)

  -- On a valid table `mzHashTableLookup` ends and leaves a valid table. Its result, if there is one,
  -- compares equal to the item; with `do_add` there always is one, and it may be the item.
  pub lookup-IsValid :
      (cmp : A → A → Bool) (t : HashTable A) (h : ℕ) (item : A) (do_add : Bool)
      → IsValid t
      → (res : Option A) × (t' : HashTable A) × (lookup cmp t h item do_add ≡ some (res, t'))
        × IsValid t'
        × Answer cmp item do_add res
  unfolding lookup
  lookup-IsValid cmp t h item do_add v =
      let (j, lt, free) = somewhere_empty t v in
      let (r, ended, r_lt, stop) =
        probe-Ends (is_match cmp h item) (table_size t) t.entries (h % table_size t) j
          (start_lt h t.size_bits) lt free in
      let (res, t', done, v', answer) =
        found_at-Answer cmp t h item do_add r (get_or t.entries r empty) v r_lt refl stop in
      (res, t', rw ended done, v', answer)

  remove_at-IsValid :
      (same : A → A → Bool) (t : HashTable A) (item : A) (i : ℕ) (e : HashEntry A)
      → IsValid t
      → i < table_size t
      → get_or t.entries i empty ≡ e
      → (is_empty e || is_item same item e) ≡ true
      → (b : Bool) × (t' : HashTable A) × (remove_at t i e ≡ some (b, t'))
        × IsValid t'
        × (t'.num_entries + (if b then 1 else 0) ≡ t.num_entries)
  unfolding remove_at is_item
  remove_at-IsValid same t item i empty v lt at stop = (false, t, refl, v, omega arith)
  remove_at-IsValid same t item i tombstone v lt at stop = absurd (ground arith)
  remove_at-IsValid same t item i (live g d) v lt at stop =
      let (lives, deads) = set-tombstone t.entries i g d (omega (arith, v.size)) at in
      (
        true,
        _,
        refl,
        record {
          size = length-set t.entries i tombstone ∙ v.size;
          lives = omega (arith, lives, v.lives);
          deads = omega (arith, deads, v.deads);
          load = omega (arith, lives, v.lives, v.load);
        },
        omega (arith, lives, v.lives),
      )

  -- On a valid table `mzHashTableRemove` ends and leaves a valid table, with one entry less if it
  -- returns true, and as many as before otherwise.
  pub remove-IsValid :
      (same : A → A → Bool) (t : HashTable A) (h : ℕ) (item : A)
      → IsValid t
      → (b : Bool) × (t' : HashTable A) × (remove same t h item ≡ some (b, t'))
        × IsValid t'
        × (t'.num_entries + (if b then 1 else 0) ≡ t.num_entries)
  unfolding remove
  remove-IsValid same t h item v =
      let (j, lt, free) = somewhere_empty t v in
      let (r, ended, r_lt, stop) =
        probe-Ends (is_item same item) (table_size t) t.entries (h % table_size t) j
          (start_lt h t.size_bits) lt free in
      let (b, t', done, v', count) =
        remove_at-IsValid same t item r (get_or t.entries r empty) v r_lt refl stop in
      (b, t', rw ended done, v', count)
