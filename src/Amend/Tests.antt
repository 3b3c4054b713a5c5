-- ===== src/Amend/Tests.antt =====
-- amend on a table with one command, which counts its calls, and one function.
use recovery_sdx.Base.{
  ℕ, ◌+◌, ◌≡◌, ◌↔◌, refl, none, some, List, [], ◌∷◌, codes, true, false, if◌then◌else◌, bytes_eq,
  ◌==◌, ◌&&◌,
}
use recovery_sdx.Base.Int.{pos, negsuc}
use recovery_sdx.Amend.Symtab.{
  create_symbol_table, add_to_symbol_table, find_in_symbol_table, find_entry, is_entry,
}
use recovery_sdx.Amend.Symtab.Lookup.{or_else, find-add}
use recovery_sdx.Amend.Commands.{
  CommandState, CommandEntry, CommandHook, FunctionHook, command_hook, function_hook,
  cmd_args_words, cmd_type_command, cmd_type_function, find_command, find_function,
  register_command_internal, get_command_argument_type, command_init, register_command,
  register_function, ok, error, call_command, call_boolean_command,
}
use recovery_sdx.Amend.Commands.Registry.{Reachable, start, init, command, function}
use recovery_sdx.Amend.Commands.Calls.{Defined, found_command-Defined}
use recovery_sdx.Amend.Execute.{
  Command, words, literal, BooleanValue, string_comparison, am_sop_lt, exec_command,
  exec_command_list,
}
use recovery_sdx.Amend.Execute.Script.{Runs, Stops, exec_command_list_iff}

abbrev seven : ℕ
seven = 7

find-add_example :
    let found = find_in_symbol_table {C = ℕ} (some create_symbol_table) (some (codes "a")) 0 in
    let (ret, tab') =
      add_to_symbol_table (some create_symbol_table) (some (codes "a")) 0 (some seven) in
    (ret ≡ elim found [ none ↦ pos 0 | some old ↦ negsuc 1 ])
    × (find_in_symbol_table tab' (some (codes "a")) 1
        ≡ or_else
            (find_in_symbol_table (some create_symbol_table) (some (codes "a")) 1)
            (if bytes_eq (codes "a") (codes "a") && (0 == 1) then some seven else none))
find-add_example = find-add create_symbol_table (codes "a") (codes "a") 0 1 seven

-- A command that counts its calls, and fails at the second.
abbrev tick : CommandHook ℕ
tick name cookie argc argv n = (if n == 1 then negsuc 4 else pos 0, n + 1)

abbrev blank : FunctionHook ℕ
blank name cookie args n = ((pos 0, some []), n)

abbrev empty : CommandState ℕ
empty = record { symbol_table = none; initialized = false }

abbrev registered : CommandState ℕ
registered =
    (register_function (some (codes "blank")) (some blank) 0
      (register_command (some (codes "tick")) cmd_args_words (some tick) 0
        (command_init empty).1).1).1

registered-Reachable : Reachable registered
registered-Reachable =
    function (some (codes "blank")) (some blank) 0 _
      (command (some (codes "tick")) cmd_args_words (some tick) 0 _ (init empty start))

abbrev tick_entry : CommandEntry ℕ
tick_entry = record {
  name = codes "tick";
  cookie = 0;
  type = cmd_type_command;
  arg_type = cmd_args_words;
  hook = command_hook tick;
}

abbrev blank_entry : CommandEntry ℕ
blank_entry = record {
  name = codes "blank";
  cookie = 0;
  type = cmd_type_function;
  arg_type = cmd_args_words;
  hook = function_hook blank;
}

tick_found : find_command (some (codes "tick")) registered ≡ some tick_entry
unfolding find_command find_function find_in_symbol_table register_function
    register_command_internal register_command command_init add_to_symbol_table find_entry
    create_symbol_table is_entry bytes_eq
tick_found = refl

blank_found : find_function (some (codes "blank")) registered ≡ some blank_entry
unfolding find_command find_function find_in_symbol_table register_function
    register_command_internal register_command command_init add_to_symbol_table find_entry
    create_symbol_table is_entry bytes_eq
blank_found = refl

found_command-Defined_example :
    Defined (call_command (some tick_entry) (some (codes "x") ∷ []) 0)
    × Defined (call_boolean_command (some tick_entry) true 0)
found_command-Defined_example =
    found_command-Defined registered (some (codes "tick")) tick_entry (some (codes "x") ∷ []) true 0
      registered-Reachable tick_found

abbrev ticks : List (Command ℕ)
ticks =
    record { line = 3; cmd = some tick_entry; args = words [] }
    ∷ record { line = 5; cmd = some tick_entry; args = words [] }
    ∷ record { line = 8; cmd = some tick_entry; args = words [] }
    ∷ []

-- The second call fails, and the third is not made.
ticks_run : exec_command_list ticks 0 ≡ (error (pos 5), 2)
unfolding exec_command_list exec_command get_command_argument_type call_command
ticks_run = refl

exec_command_list_iff_example :
    ((exec_command_list ticks 0 ≡ (ok tt, 2)) ↔ Runs ticks 0 2)
    × ((exec_command_list ticks 0 ≡ (error (pos 5), 2)) ↔ Stops ticks 0 (pos 5) 2)
exec_command_list_iff_example = exec_command_list_iff ticks 0 2 (pos 5)

abbrev less : BooleanValue ℕ
less = string_comparison am_sop_lt (literal (codes "a")) (literal (codes "b"))
