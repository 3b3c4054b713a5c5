-- ===== src/Amend/Commands/Registry.antt =====
-- What is found has the hook of what it was registered as.
use recovery_sdx.Base.{
  ℕ, Bool, true, false, ◌&&◌, Option, none, some, List, [], ◌∷◌, ◌++◌, Bytes, ◌==◌, ◌≡◌, refl,
  subst, arith, Bool-cases, Option-cases, inl, inr, eq_of_some,
}
use recovery_sdx.Amend.Symtab.{
  SymbolTableEntry, SymbolTable, create_symbol_table, is_entry, find_entry, find_in_symbol_table,
  added, add_to_symbol_table, insert,
}
use recovery_sdx.Amend.Symtab.Lookup.{table-grow}
use recovery_sdx.Amend.Commands.{
  CommandType, cmd_type_command, cmd_type_function, ArgType, cmd_args_words, type_flags, Hook,
  CommandHook, FunctionHook, command_hook, function_hook, CommandEntry, CommandState, command_init,
  command_cleanup, can_register, add_entry, register_command_internal, register_command,
  register_function, cast,
}

-- The flags 0 go with a command's hook, and 1 with a function's.
abbrev pub fits : {W : Type 0} → ℕ → Hook W → Bool
fits f (command_hook h) = f == 0
fits f (function_hook h) = f == 1

module _ {W : Type 0} where
  abbrev pub AllFit : List (SymbolTableEntry (CommandEntry W)) → Type 0
  AllFit [] = Unit
  AllFit (e ∷ es) = (fits e.flags e.cookie.hook ≡ true) × AllFit es

  abbrev pub TableFits : Option (SymbolTable (CommandEntry W)) → Type 0
  TableFits none = Unit
  TableFits (some tab) = AllFit tab.table

  find_entry-fits :
      (name : Bytes) (f : ℕ) (c : CommandEntry W) (es : List (SymbolTableEntry (CommandEntry W)))
      → AllFit es
      → find_entry name f es ≡ some c
      → fits f c.hook ≡ true
  unfolding find_entry is_entry
  find_entry-fits name f c [] h e = ground arith
  find_entry-fits name f c (x ∷ es) h e = elim (Bool-cases (is_entry name f x)) [
    | inl t ↦
        let p : x.cookie ≡ c = ground arith in
        let q : x.flags ≡ f = ground arith in
        subst (λ v. fits f v.hook ≡ true) p (subst (λ v. fits v x.cookie.hook ≡ true) q h.0)
    | inr t ↦ find_entry-fits name f c es h.1 (ground arith)
  ]

  AllFit-append :
      (es : List (SymbolTableEntry (CommandEntry W))) (x : SymbolTableEntry (CommandEntry W))
      → AllFit es
      → fits x.flags x.cookie.hook ≡ true
      → AllFit (es ++ x ∷ [])
  AllFit-append [] x h k = (k, tt)
  AllFit-append (e ∷ es) x h k = (h.0, AllFit-append es x h.1 k)

  add-TableFits :
      (tab : Option (SymbolTable (CommandEntry W))) (name : Bytes) (e : CommandEntry W)
      → TableFits tab
      → fits (type_flags e.type) e.hook ≡ true
      → TableFits (add_to_symbol_table tab (some name) (type_flags e.type) (some e)).1
  unfolding add_to_symbol_table find_in_symbol_table added insert
  add-TableFits none name e h k = tt
  add-TableFits (some tab) name e h k =
      elim (Option-cases (find_entry name (type_flags e.type) tab.table)) [
        | inl t ↦ rw (t, table-grow tab) (AllFit-append tab.table _ h k)
        | inr (old, t) ↦ rw t h
      ]

  register-TableFits :
      (name : Option Bytes) (t : CommandType) (a : ArgType) (hook : Option (Hook W)) (cookie : ℕ)
      (g : CommandState W)
      → TableFits g.symbol_table
      → ((h : Hook W) → hook ≡ some h → fits (type_flags t) h ≡ true)
      → TableFits (register_command_internal name t a hook cookie g).1.symbol_table
  unfolding register_command_internal add_entry
  register-TableFits (some name) t a (some hook) cookie g h k =
      elim (Bool-cases (g.initialized && can_register t a)) [
        | inl e ↦ rw e (add-TableFits g.symbol_table name _ h (k hook refl))
        | inr e ↦ rw e h
      ]
  register-TableFits none t a none cookie g h k = h
  register-TableFits none t a (some hook) cookie g h k = h
  register-TableFits (some name) t a none cookie g h k = h

-- The states that the calls of amend/commands.h lead to.
pub data Reachable {W : Type 0} : CommandState W → Type 0 where
  start : Reachable (record { symbol_table = none; initialized = false })
  init : (g : CommandState W) → Reachable g → Reachable (command_init g).1
  cleanup : (g : CommandState W) → Reachable g → Reachable (command_cleanup g)
  command :
      (name : Option Bytes) (a : ArgType) (hook : Option (CommandHook W)) (cookie : ℕ)
      (g : CommandState W)
      → Reachable g
      → Reachable (register_command name a hook cookie g).1
  function :
      (name : Option Bytes) (hook : Option (FunctionHook W)) (cookie : ℕ) (g : CommandState W)
      → Reachable g
      → Reachable (register_function name hook cookie g).1

module _ {W : Type 0} where
  cast-command :
      (hook : Option (CommandHook W)) (h : Hook W)
      → cast command_hook hook ≡ some h
      → fits 0 h ≡ true
  cast-command (some k) h e = subst (λ v. fits 0 v ≡ true) (eq_of_some e) refl
  cast-command none h e = ground arith

  cast-function :
      (hook : Option (FunctionHook W)) (h : Hook W)
      → cast function_hook hook ≡ some h
      → fits 1 h ≡ true
  cast-function (some k) h e = subst (λ v. fits 1 v ≡ true) (eq_of_some e) refl
  cast-function none h e = ground arith

  pub Reachable-TableFits : (g : CommandState W) → Reachable g → TableFits g.symbol_table
  unfolding command_init command_cleanup register_command register_function create_symbol_table
  Reachable-TableFits _ start = tt
  Reachable-TableFits _ (init g r) = elim (Bool-cases g.initialized) [
    | inl e ↦ rw e (Reachable-TableFits g r)
    | inr e ↦ rw e tt
  ]
  Reachable-TableFits _ (cleanup g r) = elim (Bool-cases g.initialized) [
    | inl e ↦ rw e tt
    | inr e ↦ rw e (Reachable-TableFits g r)
  ]
  Reachable-TableFits _ (command name a hook cookie g r) =
      register-TableFits name cmd_type_command a (cast command_hook hook) cookie g
        (Reachable-TableFits g r) (cast-command hook)
  Reachable-TableFits _ (function name hook cookie g r) =
      register-TableFits name cmd_type_function cmd_args_words (cast function_hook hook) cookie g
        (Reachable-TableFits g r) (cast-function hook)

  pub find-fits :
      (tab : Option (SymbolTable (CommandEntry W))) (name : Option Bytes) (f : ℕ)
      (e : CommandEntry W)
      → TableFits tab
      → find_in_symbol_table tab name f ≡ some e
      → fits f e.hook ≡ true
  unfolding find_in_symbol_table
  find-fits (some tab) (some name) f e h p = find_entry-fits name f e tab.table h p
  find-fits none name f e h p = ground arith
  find-fits (some tab) none f e h p = ground arith
