-- ===== src/Amend/Commands/Calls.antt =====
-- What is found can be called as what it was registered as.
use recovery_sdx.Base.{
  ℕ, Bool, true, Option, none, some, List, Bytes, if◌then◌else◌, ◌≡◌, refl, arith, Bool-cases,
  Option-cases, inl, inr, length,
}
use recovery_sdx.Base.Int.{ℤ, is_nonzero}
use recovery_sdx.Amend.Commands.{
  ArgType, cmd_args_unknown, cmd_args_boolean, cmd_args_words, Hook, command_hook, function_hook,
  CommandEntry, CommandState, Run, ok, error, fault, find_command, find_function, call_command,
  call_boolean_command, call_function, non_null, run_command_hook, run_function_hook, returned,
  set_result,
}
use recovery_sdx.Amend.Commands.Registry.{fits, Reachable, Reachable-TableFits, find-fits}

-- The call does nothing that C leaves undefined.
abbrev pub Defined : {W A : Type 0} → Run A × W → Type 0
Defined (ok a, w) = Unit
Defined (error e, w) = Unit
Defined (fault, w) = ⊥

module _ {W : Type 0} where
  returned-Defined : (x : ℤ × W) → Defined (returned x)
  returned-Defined (r, w) = elim (Bool-cases (is_nonzero r)) [ inl e ↦ rw e tt | inr e ↦ rw e tt ]

  set_result-Defined : (x : (ℤ × Option Bytes) × W) → Defined (set_result x)
  unfolding set_result
  set_result-Defined ((r, v), w) = elim (Bool-cases (is_nonzero r)) [
    | inl e ↦ rw e tt
    | inr e ↦ rw e tt
  ]

  run_command_hook-Defined :
      (h : Hook W) (name : Bytes) (cookie argc : ℕ) (argv : Option (List Bytes)) (w : W)
      → fits 0 h ≡ true
      → Defined (run_command_hook h name cookie argc argv w)
  unfolding run_command_hook
  run_command_hook-Defined (command_hook f) name cookie argc argv w k =
      returned-Defined (f name cookie argc argv w)
  run_command_hook-Defined (function_hook f) name cookie argc argv w k = ground arith

  run_function_hook-Defined :
      (h : Hook W) (name : Bytes) (cookie : ℕ) (args : List Bytes) (w : W)
      → fits 1 h ≡ true
      → Defined (run_function_hook h name cookie args w)
  unfolding run_function_hook
  run_function_hook-Defined (function_hook f) name cookie args w k =
      set_result-Defined (f name cookie args w)
  run_function_hook-Defined (command_hook f) name cookie args w k = ground arith

  call_command-Defined :
      (t : ArgType) (e : CommandEntry W) (args : List (Option Bytes)) (w : W)
      → e.arg_type ≡ t
      → fits 0 e.hook ≡ true
      → Defined (call_command (some e) args w)
  unfolding call_command
  call_command-Defined cmd_args_words e args w p k = elim (Option-cases (non_null args)) [
    | inl n ↦ rw (p, n) tt
    | inr (argv, n) ↦
        rw (p, n) (run_command_hook-Defined e.hook e.name e.cookie (length argv) (some argv) w k)
  ]
  call_command-Defined cmd_args_boolean e args w p k = rw p tt
  call_command-Defined cmd_args_unknown e args w p k = rw p tt

  call_boolean_command-Defined :
      (t : ArgType) (e : CommandEntry W) (b : Bool) (w : W)
      → e.arg_type ≡ t
      → fits 0 e.hook ≡ true
      → Defined (call_boolean_command (some e) b w)
  unfolding call_boolean_command
  call_boolean_command-Defined cmd_args_boolean e b w p k =
      rw p (run_command_hook-Defined e.hook e.name e.cookie (if b then 1 else 0) none w k)
  call_boolean_command-Defined cmd_args_words e b w p k = rw p tt
  call_boolean_command-Defined cmd_args_unknown e b w p k = rw p tt

  call_function-Defined :
      (t : ArgType) (e : CommandEntry W) (args : List (Option Bytes)) (w : W)
      → e.arg_type ≡ t
      → fits 1 e.hook ≡ true
      → Defined (call_function (some e) args w)
  unfolding call_function
  call_function-Defined cmd_args_words e args w p k = elim (Option-cases (non_null args)) [
    | inl n ↦ rw (p, n) tt
    | inr (argv, n) ↦ rw (p, n) (run_function_hook-Defined e.hook e.name e.cookie argv w k)
  ]
  call_function-Defined cmd_args_boolean e args w p k = rw p tt
  call_function-Defined cmd_args_unknown e args w p k = rw p tt

  -- Whatever is registered, and however often the state is set up and cleaned up: an entry found
  -- as a command can be called as one, with any words or any truth value, since its hook is one of
  -- a command.
  pub found_command-Defined :
      (g : CommandState W) (name : Option Bytes) (e : CommandEntry W) (args : List (Option Bytes))
      (b : Bool) (w : W)
      → Reachable g
      → find_command name g ≡ some e
      → Defined (call_command (some e) args w) × Defined (call_boolean_command (some e) b w)
  unfolding find_command
  found_command-Defined g name e args b w r p =
      let k = find-fits g.symbol_table name 0 e (Reachable-TableFits g r) p in
      (
        call_command-Defined e.arg_type e args w refl k,
        call_boolean_command-Defined e.arg_type e b w refl k,
      )

  -- The same holds of functions: an entry found as one in a state that the registration calls lead
  -- to can be called as one.
  pub found_function-Defined :
      (g : CommandState W) (name : Option Bytes) (e : CommandEntry W) (args : List (Option Bytes))
      (w : W)
      → Reachable g
      → find_function name g ≡ some e
      → Defined (call_function (some e) args w)
  unfolding find_function
  found_function-Defined g name e args w r p =
      call_function-Defined e.arg_type e args w refl
        (find-fits g.symbol_table name 1 e (Reachable-TableFits g r) p)
