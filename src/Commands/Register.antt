-- ===== src/Commands/Register.antt =====
-- `register_update_commands` of commands.c.
pub mod Found
use recovery_sdx.Base.{
  ℕ, ◌≡◌, refl, Bool, true, false, Option, none, some, List, [], ◌∷◌, ◌++◌, Bytes, if◌then◌else◌,
  codes, bytes_eq, length, ◌==◌, ltb,
}
use recovery_sdx.Base.Int.{ℤ, pos, negsuc, minus_one, is_nonzero, is_negative}
use recovery_sdx.Amend.Symtab.{
  create_symbol_table, is_entry, find_entry, find_in_symbol_table, added, add_to_symbol_table,
  insert, grow, enlarged,
}
use recovery_sdx.Amend.Commands.{
  CommandHook, FunctionHook, ArgType, cmd_args_boolean, cmd_args_words, command_hook, function_hook,
  Hook, CommandState, CommandEntry, command_init, register_command, register_function,
  register_command_internal, find_command, find_function, can_register, add_entry,
}
use recovery_sdx.Os.{Os}
use recovery_sdx.Commands.{
  cmd_assert, cmd_fails, pure, compatible_with, update_forced, get_mark, hash_dir, matches, concat,
  Readings, getprop, file_contains, Answer,
}
use recovery_sdx.Commands.Device.{
  System, World, cmd_format, cmd_delete, cmd_copy_dir, cmd_run_program, cmd_set_perm,
  cmd_show_progress, cmd_symlink, cmd_write_firmware_image, cmd_write_raw_image,
}

-- `CHECK_WORDS`: argv may be null only if there are no arguments.
unfoldable pub words : {S : Type 0} → (Bytes → List Bytes → S → ℤ × S) → CommandHook S
words f name cookie argc (some argv) s = f name argv s
words f name cookie argc none s = let run = f name [] s in if argc == 0 then run else (minus_one, s)

-- A call of `registerCommand` or of `registerFunction`.
pub data Registration (W : Type 0) : Type 0 where
  command : Bytes → ArgType → CommandHook (World W) → Registration W
  function : Bytes → FunctionHook (World W) → Registration W

module _ {W : Type 0} where
  -- A command that only changes the system.
  unfoldable pub on_system : (W → ℤ × W) → World W → ℤ × World W
  on_system f s = let (ret, w) = f s.sys in (ret, record s { sys = w })

  unfoldable pub reading : (List Bytes → W → Answer × W) → FunctionHook (World W)
  reading f name cookie args s = let (a, w) = f args s.sys in (a, record s { sys = w })

  -- `ctx` is the cookie.
  unfoldable pub register_one :
      ℕ → Registration W → CommandState (World W) → ℤ × CommandState (World W)
  register_one ctx (command name args hook) g = register_command (some name) args (some hook) ctx g
  register_one ctx (function name hook) g = register_function (some name) (some hook) ctx g

  -- Each call in turn, up to one that fails.
  unfoldable pub register_all :
      ℕ → List (Registration W) → CommandState (World W) → ℤ × CommandState (World W)
  register_all ctx [] g = (pos 0, g)
  register_all ctx (r ∷ rs) g =
      let (ret, g') = register_one ctx r g in
      let rest = register_all ctx rs g' in if is_negative ret then (ret, g') else rest

  module _ (os : Os W) (system : System W) (readings : Readings W) where
    abbrev pub commands : List (Registration W)
    commands =
        command (codes "assert") cmd_args_boolean cmd_assert
        ∷ command (codes "delete") cmd_args_words
            (words λ name args. on_system (cmd_delete os system name args))
        ∷ command (codes "delete_recursive") cmd_args_words
            (words λ name args. on_system (cmd_delete os system name args))
        ∷ command (codes "copy_dir") cmd_args_words
            (words λ name args. on_system (cmd_copy_dir os system args))
        ∷ command (codes "run_program") cmd_args_words
            (words λ name args. on_system (cmd_run_program os system args))
        ∷ command (codes "set_perm") cmd_args_words
            (words λ name args. on_system (cmd_set_perm os system name args))
        ∷ command (codes "set_perm_recursive") cmd_args_words
            (words λ name args. on_system (cmd_set_perm os system name args))
        ∷ command (codes "show_progress") cmd_args_words
            (words λ name args. cmd_show_progress os system args)
        ∷ command (codes "symlink") cmd_args_words
            (words λ name args. on_system (cmd_symlink os system args))
        ∷ command (codes "format") cmd_args_words
            (words λ name args. on_system (cmd_format os system args))
        ∷ command (codes "write_radio_image") cmd_args_words
            (words (cmd_write_firmware_image os system))
        ∷ command (codes "write_hboot_image") cmd_args_words
            (words (cmd_write_firmware_image os system))
        ∷ command (codes "write_raw_image") cmd_args_words
            (words λ name args. on_system (cmd_write_raw_image os system args))
        ∷ command (codes "mark") cmd_args_words cmd_fails
        ∷ command (codes "done") cmd_args_words cmd_fails
        ∷ []

    abbrev pub functions : List (Registration W)
    functions =
        function (codes "compatible_with") (pure compatible_with)
        ∷ function (codes "update_forced") (pure update_forced)
        ∷ function (codes "get_mark") (pure get_mark)
        ∷ function (codes "hash_dir") (pure hash_dir)
        ∷ function (codes "matches") (pure matches)
        ∷ function (codes "concat") (pure concat)
        ∷ function (codes "getprop") (reading (getprop os readings))
        ∷ function (codes "file_contains") (reading (file_contains os readings))
        ∷ []

    unfoldable pub register_update_commands :
        ℕ → CommandState (World W) → ℤ × CommandState (World W)
    register_update_commands ctx g =
        let (ret, g') = command_init g in
        let rest = register_all ctx (commands ++ functions) g' in
        if is_negative ret then (ret, g') else rest
