-- ===== src/Minzip/Hash/Tests.antt =====
-- A table of numbers, which are their own pointers.
use recovery_sdx.Base.{
  ℕ, List, ◌-◌, ◌≡◌, refl, Bool, true, false, Option, none, some, [], ◌∷◌, arith, ◌==◌,
}
use recovery_sdx.Minzip.Hash.{empty, live, HashTable, create, lookup, probe, add_at}
use recovery_sdx.Minzip.Hash.Room.{IsValid, live_count, dead_count}
use recovery_sdx.Base.Int.{ℤ, pos}
use recovery_sdx.Minzip.Hash.Traversal.{
  clear, foreach, hash_size, clear_entries, foreach_entry, free_data,
}
use recovery_sdx.Minzip.Hash.Lookup.{Answer, create-IsValid, lookup-IsValid}

abbrev equal : ℕ → ℕ → Bool
equal a b = a == b

abbrev item : ℕ
item = 7

abbrev two : HashTable ℕ
two = create 1

-- The first entry is added, found and removed; a second one makes the table grow.
abbrev steps : Option (HashTable ℕ)
steps = elim (lookup equal two 5 item true) [ none ↦ none | some r ↦ some r.1 ]

added_found :
    elim steps [
      | none ↦ none
      | some t ↦ elim (lookup equal t 5 item false) [ none ↦ none | some r ↦ r.0 ]
    ]
    ≡ some item
unfolding lookup probe create add_at
added_found = refl

lookup-IsValid_example :
    (res : Option ℕ) × (t' : HashTable ℕ) × (lookup equal two 5 item true ≡ some (res, t'))
    × IsValid t'
    × Answer equal item true res
lookup-IsValid_example = lookup-IsValid equal two 5 item true (create-IsValid 1)

abbrev one : HashTable ℕ
one = record {
  size_bits = 1;
  num_entries = 1;
  num_dead_entries = 0;
  entries = empty ∷ live 5 item ∷ [];
}

one-IsValid : IsValid one
unfolding live_count dead_count
one-IsValid = record { size = refl; lives = refl; deads = refl; load = omega arith }

abbrev visited : ℕ → List ℕ → ℤ × List ℕ
visited d ds = (pos (d - 3), d ∷ ds)

abbrev three : HashTable ℕ
three = record {
  size_bits = 2;
  num_entries = 3;
  num_dead_entries = 0;
  entries = live 1 3 ∷ empty ∷ live 1 item ∷ live 2 9 ∷ [];
}

-- The loop ends behind the first item whose call does not return 0.
second_ends : foreach visited three [] ≡ (pos 4, item ∷ 3 ∷ [])
unfolding foreach foreach_entry
second_ends = refl

all_freed : clear (some ◌∷◌) three [] ≡ (create 2, 9 ∷ item ∷ 3 ∷ [])
unfolding clear clear_entries free_data create
all_freed = refl

hundred : hash_size 100 ≡ 161
unfolding hash_size
hundred = refl
