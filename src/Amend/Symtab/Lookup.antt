-- ===== src/Amend/Symtab/Lookup.antt =====
-- What a symbol table finds after an addition, and the invariant of its entries.
use recovery_sdx.Base.{
  ℕ, ◌≤◌, ◌<◌, ◌≡◌, refl, ◌∙◌, true, false, ◌&&◌, Option, none, some, List, [], ◌∷◌, ◌++◌, Bytes,
  bytes_eq, ◌==◌, if◌then◌else◌, length, arith, Bool-cases, Option-cases, inl, inr, length-append,
  &&-eq-true, bytes_eq_iff, ==_iff,
}
use recovery_sdx.Base.Int.{pos, negsuc}
use recovery_sdx.Amend.Symtab.{
  SymbolTableEntry, SymbolTable, create_symbol_table, is_entry, enlarged, find_entry,
  find_in_symbol_table, grow, insert, added, add_to_symbol_table,
}

abbrev pub or_else : {C : Type 0} → Option C → Option C → Option C
or_else none b = b
or_else (some a) b = some a

module _ {C : Type 0} where
  find_entry-append :
      (symbol : Bytes) (flags : ℕ) (es fs : List (SymbolTableEntry C))
      → find_entry symbol flags (es ++ fs)
        ≡ or_else (find_entry symbol flags es) (find_entry symbol flags fs)
  unfolding find_entry
  find_entry-append symbol flags [] fs = refl
  find_entry-append symbol flags (e ∷ es) fs = elim (Bool-cases (is_entry symbol flags e)) [
    | inl h ↦ rw h
    | inr h ↦ rw h (find_entry-append symbol flags es fs)
  ]

  pub table-grow : (tab : SymbolTable C) → (grow tab).table ≡ tab.table
  unfolding grow
  table-grow tab = elim (Bool-cases (length tab.table == tab.max_size)) [
    | inl h ↦ rw h
    | inr h ↦ rw h
  ]

  -- an entry that is there answers for its own name and flags
  or_else-same :
      (name n : Bytes) (flags f : ℕ) (c old : C) (es : List (SymbolTableEntry C))
      → find_entry name flags es ≡ some old
      → find_entry n f es
        ≡ or_else (find_entry n f es) (if bytes_eq name n && (flags == f) then some c else none)
  or_else-same name n flags f c old es h = elim (Option-cases (find_entry n f es)) [
    | inr (a, e) ↦ rw e
    | inl e ↦ elim (Bool-cases (bytes_eq name n && (flags == f))) [
      | inr t ↦ rw (e, t)
      | inl t ↦ absurd t e
    ]
  ]
    where
      absurd :
          (bytes_eq name n && (flags == f)) ≡ true
          → find_entry n f es ≡ none
          → find_entry n f es
            ≡ or_else (find_entry n f es) (if bytes_eq name n && (flags == f) then some c else none)
      absurd t e =
          let (t₁, t₂) = &&-eq-true (bytes_eq name n) (flags == f) t in
          let p = (bytes_eq_iff name n).0 t₁ in
          let q = (==_iff flags f).0 t₂ in
          let none_too : find_entry name flags es ≡ none = rw (p, q) e in
          ground (arith, h, none_too)

  -- After an addition, whatever its outcome, every name and flags are found as before, but the
  -- added ones give the added pointer where they gave none. It succeeds where they gave none, and
  -- fails with -2 where they gave one.
  pub find-add :
      (tab : SymbolTable C) (name n : Bytes) (flags f : ℕ) (c : C)
      → let found = find_in_symbol_table (some tab) (some name) flags in
        let (ret, tab') = add_to_symbol_table (some tab) (some name) flags (some c) in
        (ret ≡ elim found [ none ↦ pos 0 | some old ↦ negsuc 1 ])
        × (find_in_symbol_table tab' (some n) f
            ≡ or_else
                (find_in_symbol_table (some tab) (some n) f)
                (if bytes_eq name n && (flags == f) then some c else none))
  unfolding find_in_symbol_table add_to_symbol_table find_entry is_entry
  find-add tab name n flags f c = elim (Option-cases (find_entry name flags tab.table)) [
    | inl e ↦ rw e (
      refl,
      rw (table-grow tab) (
          find_entry-append n f tab.table
            (record { symbol = name; cookie = c; flags = flags } ∷ [])),
    )
    | inr (old, e) ↦ rw e (refl, or_else-same name n flags f c old tab.table e)
  ]

  -- No two entries have the same name and flags.
  abbrev pub Distinct : List (SymbolTableEntry C) → Type 0
  Distinct [] = Unit
  Distinct (e ∷ es) = (find_entry e.symbol e.flags es ≡ none) × Distinct es

  -- The entries are distinct and fit the array, which is never smaller than at first.
  pub record IsValid (tab : SymbolTable C) : Type 0 where
    pub distinct : Distinct tab.table
    pub fits : length tab.table ≤ tab.max_size
    pub minimum : 16 ≤ tab.max_size

  is_entry-sym :
      (e new : SymbolTableEntry C)
      → is_entry new.symbol new.flags e ≡ false
      → is_entry e.symbol e.flags new ≡ false
  unfolding is_entry
  is_entry-sym e new h = elim (Bool-cases (is_entry e.symbol e.flags new)) [
    | inl t ↦ ground (arith, bytes_eq_iff new.symbol e.symbol, bytes_eq_iff e.symbol new.symbol)
    | inr t ↦ t
  ]

  Distinct-append :
      (es : List (SymbolTableEntry C)) (new : SymbolTableEntry C)
      → Distinct es
      → find_entry new.symbol new.flags es ≡ none
      → Distinct (es ++ new ∷ [])
  unfolding find_entry
  Distinct-append [] new d h = (refl, tt)
  Distinct-append (e ∷ es) new d h = elim (Bool-cases (is_entry new.symbol new.flags e)) [
    | inl t ↦ ground arith
    | inr t ↦ (
      find_entry-append e.symbol e.flags es (new ∷ []) ∙ rw (d.0, is_entry-sym e new t),
      Distinct-append es new d.1 (ground arith),
    )
  ]

  abbrev pub Valid : Option (SymbolTable C) → Type 0
  Valid none = Unit
  Valid (some tab) = IsValid tab

  grow-IsValid :
      (tab : SymbolTable C)
      → IsValid tab
      → (Distinct (grow tab).table)
        × (length (grow tab).table < (grow tab).max_size)
        × (16 ≤ (grow tab).max_size)
  unfolding grow enlarged
  grow-IsValid tab v =
      let fits = v.fits in
      let minimum = v.minimum in
      elim (Bool-cases (length tab.table == tab.max_size)) [
        | inl h ↦
            rw h (v.distinct, ground (arith, fits, minimum, h), ground (arith, fits, minimum, h))
        | inr h ↦ rw h (v.distinct, ground (arith, fits, minimum, h), minimum)
      ]

  insert-IsValid :
      (tab : SymbolTable C) (name : Bytes) (flags : ℕ) (c : C)
      → IsValid tab
      → find_entry name flags tab.table ≡ none
      → IsValid (insert name flags c (grow tab))
  unfolding insert
  insert-IsValid tab name flags c v e =
      let (d, fits, minimum) = grow-IsValid tab v in
      let new : SymbolTableEntry C = record { symbol = name; cookie = c; flags = flags } in
      record {
        distinct = Distinct-append (grow tab).table new d (rw (table-grow tab) e);
        fits = omega (arith, length-append (grow tab).table (new ∷ []));
        minimum = minimum;
      }

  pub create-IsValid : IsValid (create_symbol_table {C = C})
  unfolding create_symbol_table
  create-IsValid = record { distinct = tt; fits = omega arith; minimum = omega arith }

  -- A valid table stays so whatever is added and whether or not that succeeds: no name has two
  -- entries with the same flags, and the entries fit the array.
  pub add-IsValid :
      (tab : Option (SymbolTable C)) (name : Option Bytes) (flags : ℕ) (c : Option C)
      → Valid tab
      → Valid (add_to_symbol_table tab name flags c).1
  unfolding add_to_symbol_table find_in_symbol_table added
  add-IsValid (some tab) (some name) flags (some c) v =
      elim (Option-cases (find_entry name flags tab.table)) [
        | inl e ↦ rw e (insert-IsValid tab name flags c v e)
        | inr (old, e) ↦ rw e v
      ]
  add-IsValid none none flags none v = v
  add-IsValid none none flags (some c) v = v
  add-IsValid none (some name) flags none v = v
  add-IsValid none (some name) flags (some c) v = v
  add-IsValid (some tab) none flags none v = v
  add-IsValid (some tab) none flags (some c) v = v
  add-IsValid (some tab) (some name) flags none v = v
