-- ===== src/Amend/Symtab.antt =====
-- amend/symtab.c: names, each with a class of flags, to the pointers registered for them.
-- Memory is always given, so the paths on which malloc, realloc or strdup fail are not taken.
pub mod Lookup
use recovery_sdx.Base.{
  ℕ, ◌+◌, ◌*◌, Bool, true, false, ◌&&◌, Option, none, some, List, [], ◌∷◌, ◌++◌, Bytes, bytes_eq,
  ◌==◌, ltb, if◌then◌else◌, length,
}
use recovery_sdx.Base.Int.{ℤ, pos, negsuc, minus_one}

pub record SymbolTableEntry (C : Type 0) : Type 0 where
  pub symbol : Bytes
  pub cookie : C
  pub flags : ℕ

-- `numEntries` is the length of the list: the entries of the array that are in use.
pub record SymbolTable (C : Type 0) : Type 0 where
  pub table : List (SymbolTableEntry C)
  pub max_size : ℕ

abbrev pub default_table_size : ℕ
default_table_size = 16

unfoldable pub enlarged : ℕ → ℕ
enlarged new_size = if ltb new_size default_table_size then default_table_size else new_size

module _ {C : Type 0} where
  unfoldable pub create_symbol_table : SymbolTable C
  create_symbol_table = record { table = []; max_size = default_table_size }

  -- The symbol is the entry's, and so are the flags.
  unfoldable pub is_entry : Bytes → ℕ → SymbolTableEntry C → Bool
  is_entry symbol flags e = bytes_eq e.symbol symbol && (e.flags == flags)

  -- The loop of `findInSymbolTable`.
  unfoldable pub find_entry : Bytes → ℕ → List (SymbolTableEntry C) → Option C
  find_entry symbol flags [] = none
  find_entry symbol flags (e ∷ es) =
      if is_entry symbol flags e then some e.cookie else find_entry symbol flags es

  unfoldable pub find_in_symbol_table : Option (SymbolTable C) → Option Bytes → ℕ → Option C
  find_in_symbol_table none symbol flags = none
  find_in_symbol_table (some tab) none flags = none
  find_in_symbol_table (some tab) (some symbol) flags = find_entry symbol flags tab.table

  -- Room for one more entry.
  unfoldable pub grow : SymbolTable C → SymbolTable C
  unfolding enlarged
  grow tab =
      if length tab.table == tab.max_size
      then record tab { max_size = enlarged (length tab.table * 2) }
      else tab

  unfoldable pub insert : Bytes → ℕ → C → SymbolTable C → SymbolTable C
  insert symbol flags cookie tab = record tab {
    table = tab.table ++ record { symbol = symbol; cookie = cookie; flags = flags } ∷ [];
  }

  unfoldable pub added : SymbolTable C → Bytes → ℕ → C → Option C → ℤ × SymbolTable C
  unfolding grow insert
  added tab symbol flags cookie (some old) = (negsuc 1, tab)
  added tab symbol flags cookie none = (pos 0, insert symbol flags cookie (grow tab))

  -- A null table stays one.
  unfoldable pub add_to_symbol_table :
      Option (SymbolTable C) → Option Bytes → ℕ → Option C → ℤ × Option (SymbolTable C)
  unfolding added find_in_symbol_table
  add_to_symbol_table (some tab) (some symbol) flags (some cookie) =
      let (ret, tab') =
        added tab symbol flags cookie (find_in_symbol_table (some tab) (some symbol) flags) in
      (ret, some tab')
  add_to_symbol_table tab symbol flags cookie = (minus_one, tab)
