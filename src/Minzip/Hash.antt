-- ===== src/Minzip/Hash.antt =====
-- minzip/Hash.c: a table with open addressing, in which a removed entry leaves a tombstone. Memory is
-- always given; the function that frees entries is an argument of what calls it, in Traversal.
pub mod Probe
pub mod Room
pub mod Lookup
pub mod Traversal
mod Tests
use recovery_sdx.Base.{
  ℕ, zero, suc, ◌+◌, ◌-◌, ◌*◌, ◌%◌, ◌^◌, Bool, true, false, ◌&&◌, ◌||◌, Option, none, some, List,
  [], ◌∷◌, ltb, ◌==◌, if◌then◌else◌, length, get_or, set, replicate, ◌>>=◌,
}

-- The hash value of an entry is read only where the entry is live.
pub data HashEntry (A : Type 0) : Type 0 where
  empty tombstone : HashEntry A
  live : ℕ → A → HashEntry A

-- `tableSize` is 2 to the power of `size_bits`, so that `hash & (tableSize - 1)` is the remainder.
pub record HashTable (A : Type 0) : Type 0 where
  pub size_bits : ℕ
  pub num_entries : ℕ
  pub num_dead_entries : ℕ
  pub entries : List (HashEntry A)

-- `pEntry++`, and around to the start at the end
abbrev pub next : ℕ → ℕ → ℕ
next n i = if i + 1 == n then 0 else i + 1

module _ {A : Type 0} where
  abbrev pub table_size : HashTable A → ℕ
  table_size t = 2 ^ t.size_bits

  abbrev pub is_empty : HashEntry A → Bool
  is_empty empty = true
  is_empty tombstone = false
  is_empty (live h d) = false

  -- The loops `while (pEntry->data != NULL)` over a table of `n` entries: the index at which they
  -- stop, `none` if they do not within `fuel` steps. (The C code leaves a table of one entry for the
  -- place behind it, where this one runs out of fuel.)
  unfoldable pub probe : (HashEntry A → Bool) → ℕ → List (HashEntry A) → ℕ → ℕ → Option ℕ
  probe found n es zero i = none
  probe found n es (suc fuel) i =
      let later = probe found n es fuel (next n i) in
      if is_empty (get_or es i empty) || found (get_or es i empty) then some i else later

  -- The loop of `resizeHash` over the old entries.
  unfoldable pub insert_all :
      ℕ → List (HashEntry A) → List (HashEntry A) → Option (List (HashEntry A))
  insert_all n [] new = some new
  insert_all n (empty ∷ es) new = insert_all n es new
  insert_all n (tombstone ∷ es) new = insert_all n es new
  insert_all n (live h d ∷ es) new =
      probe (λ e. false) n new n (h % n) >>= λ i. insert_all n es (set new i (live h d))

  unfoldable pub resize_hash : HashTable A → ℕ → Option (HashTable A)
  resize_hash t bits = insert_all (2 ^ bits) t.entries (replicate (2 ^ bits) empty) >>= λ new.
      some (record t { size_bits = bits; num_dead_entries = 0; entries = new })

  unfoldable pub create : ℕ → HashTable A
  create bits = record {
    size_bits = bits;
    num_entries = 0;
    num_dead_entries = 0;
    entries = replicate (2 ^ bits) empty;
  }

  -- The load is at most 5/8.
  unfoldable pub add_at : HashTable A → ℕ → A → ℕ → Option (HashTable A)
  unfolding resize_hash
  add_at t h item i =
      let t' = record t {
        num_entries = t.num_entries + 1;
        entries = set t.entries i (live h item);
      } in
      let grown = resize_hash t' (suc t.size_bits) in
      if ltb (table_size t * 5) ((t.num_entries + 1 + t.num_dead_entries) * 8)
      then grown
      else some t'

  unfoldable pub is_match : (A → A → Bool) → ℕ → A → HashEntry A → Bool
  is_match cmp h item empty = false
  is_match cmp h item tombstone = false
  is_match cmp h item (live g d) = (g == h) && cmp d item

  unfoldable pub found_at :
      HashTable A → ℕ → A → Bool → ℕ → HashEntry A → Option (Option A × HashTable A)
  unfolding add_at
  found_at t h item do_add i empty = elim do_add [
    | true ↦ add_at t h item i >>= λ t'. some (some item, t')
    | false ↦ some (none, t)
  ]
  found_at t h item do_add i tombstone = none
  found_at t h item do_add i (live g d) = some (some d, t)

  -- The result and the table after it, `none` if the loop does not end.
  unfoldable pub lookup :
      (A → A → Bool) → HashTable A → ℕ → A → Bool → Option (Option A × HashTable A)
  unfolding is_match found_at
  lookup cmp t h item do_add =
      probe (is_match cmp h item) (table_size t) t.entries (table_size t) (h % table_size t)
      >>= λ i. found_at t h item do_add i (get_or t.entries i empty)

  unfoldable pub is_item : (A → A → Bool) → A → HashEntry A → Bool
  is_item same item empty = false
  is_item same item tombstone = false
  is_item same item (live g d) = same d item

  unfoldable pub remove_at : HashTable A → ℕ → HashEntry A → Option (Bool × HashTable A)
  remove_at t i empty = some (false, t)
  remove_at t i tombstone = none
  remove_at t i (live g d) = some (
    true,
    record t {
      num_entries = t.num_entries - 1;
      num_dead_entries = t.num_dead_entries + 1;
      entries = set t.entries i tombstone;
    },
  )

  -- `same` compares pointers.
  unfoldable pub remove : (A → A → Bool) → HashTable A → ℕ → A → Option (Bool × HashTable A)
  unfolding is_item remove_at
  remove same t h item =
      probe (is_item same item) (table_size t) t.entries (table_size t) (h % table_size t) >>= λ i.
      remove_at t i (get_or t.entries i empty)
