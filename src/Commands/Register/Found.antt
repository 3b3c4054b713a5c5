-- ===== src/Commands/Register/Found.antt =====
-- What the registration leads to.
use recovery_sdx.Base.{
  ℕ, ◌≡◌, refl, Bool, true, false, ◌&&◌, Option, none, some, List, [], ◌∷◌, Bytes, codes, bytes_eq,
  if◌then◌else◌,
}
use recovery_sdx.Base.Int.{pos}
use recovery_sdx.Amend.Symtab.{
  SymbolTableEntry, create_symbol_table, is_entry, find_entry, find_in_symbol_table, added,
  add_to_symbol_table,
}
use recovery_sdx.Amend.Commands.{
  CommandType, cmd_type_unknown, cmd_type_command, cmd_type_function, ArgType, cmd_args_boolean,
  cmd_args_words, type_flags, CommandHook, FunctionHook, command_hook, function_hook, CommandState,
  CommandEntry, command_init, register_command, register_function, register_command_internal,
  find_command, find_function,
}
use recovery_sdx.Os.{Os}
use recovery_sdx.Commands.{
  Readings, cmd_assert, cmd_fails, pure, compatible_with, update_forced, get_mark, hash_dir,
  matches, concat, getprop, file_contains,
}
use recovery_sdx.Commands.Device.{
  System, World, cmd_format, cmd_delete, cmd_copy_dir, cmd_run_program, cmd_set_perm,
  cmd_show_progress, cmd_symlink, cmd_write_firmware_image, cmd_write_raw_image,
}
use recovery_sdx.Commands.Register.{
  words, on_system, reading, register_one, register_all, register_update_commands,
}

same_type : CommandType → CommandType → Bool
same_type cmd_type_unknown cmd_type_unknown = true
same_type cmd_type_command cmd_type_command = true
same_type cmd_type_function cmd_type_function = true
same_type _ _ = false

module _ {W : Type 0} where
  -- The first entry of this name and type.
  unfoldable pub first_of :
      Bytes → CommandType → List (CommandEntry (World W)) → Option (CommandEntry (World W))
  unfolding same_type
  first_of name t [] = none
  first_of name t (e ∷ es) =
      if bytes_eq e.name name && same_type e.type t then some e else first_of name t es

  rows_of : List (CommandEntry (World W)) → List (SymbolTableEntry (CommandEntry (World W)))
  rows_of [] = []
  rows_of (e ∷ es) = record { symbol = e.name; cookie = e; flags = type_flags e.type } ∷ rows_of es

  same_row :
      (name : Bytes) (t : CommandType) (e : CommandEntry (World W)) (u : CommandType)
      → is_entry name (type_flags t) (record { symbol = e.name; cookie = e; flags = type_flags u })
        ≡ (bytes_eq e.name name && same_type u t)
  unfolding is_entry same_type
  same_row name cmd_type_unknown e cmd_type_unknown = refl
  same_row name cmd_type_unknown e cmd_type_command = refl
  same_row name cmd_type_unknown e cmd_type_function = refl
  same_row name cmd_type_command e cmd_type_unknown = refl
  same_row name cmd_type_command e cmd_type_command = refl
  same_row name cmd_type_command e cmd_type_function = refl
  same_row name cmd_type_function e cmd_type_unknown = refl
  same_row name cmd_type_function e cmd_type_command = refl
  same_row name cmd_type_function e cmd_type_function = refl

  find_entry-first_of :
      (name : Bytes) (t : CommandType) (es : List (CommandEntry (World W)))
      → find_entry name (type_flags t) (rows_of es) ≡ first_of name t es
  unfolding find_entry rows_of first_of
  find_entry-first_of name t [] = refl
  find_entry-first_of name t (e ∷ es) =
      rw (same_row name t e e.type, find_entry-first_of name t es) refl

  module _ (os : Os W) (system : System W) (readings : Readings W) (ctx : ℕ) where
    command_entry : Bytes → ArgType → CommandHook (World W) → CommandEntry (World W)
    command_entry name a f = record {
      name = name;
      cookie = ctx;
      type = cmd_type_command;
      arg_type = a;
      hook = command_hook f;
    }

    function_entry : Bytes → FunctionHook (World W) → CommandEntry (World W)
    function_entry name f = record {
      name = name;
      cookie = ctx;
      type = cmd_type_function;
      arg_type = cmd_args_words;
      hook = function_hook f;
    }

    -- The commands and functions of update scripts.
    unfoldable pub language : List (CommandEntry (World W))
    unfolding command_entry function_entry
    language =
        command_entry (codes "assert") cmd_args_boolean cmd_assert
        ∷ command_entry (codes "delete") cmd_args_words
            (words λ name args. on_system (cmd_delete os system name args))
        ∷ command_entry (codes "delete_recursive") cmd_args_words
            (words λ name args. on_system (cmd_delete os system name args))
        ∷ command_entry (codes "copy_dir") cmd_args_words
            (words λ name args. on_system (cmd_copy_dir os system args))
        ∷ command_entry (codes "run_program") cmd_args_words
            (words λ name args. on_system (cmd_run_program os system args))
        ∷ command_entry (codes "set_perm") cmd_args_words
            (words λ name args. on_system (cmd_set_perm os system name args))
        ∷ command_entry (codes "set_perm_recursive") cmd_args_words
            (words λ name args. on_system (cmd_set_perm os system name args))
        ∷ command_entry (codes "show_progress") cmd_args_words
            (words λ name args. cmd_show_progress os system args)
        ∷ command_entry (codes "symlink") cmd_args_words
            (words λ name args. on_system (cmd_symlink os system args))
        ∷ command_entry (codes "format") cmd_args_words
            (words λ name args. on_system (cmd_format os system args))
        ∷ command_entry (codes "write_radio_image") cmd_args_words
            (words (cmd_write_firmware_image os system))
        ∷ command_entry (codes "write_hboot_image") cmd_args_words
            (words (cmd_write_firmware_image os system))
        ∷ command_entry (codes "write_raw_image") cmd_args_words
            (words λ name args. on_system (cmd_write_raw_image os system args))
        ∷ command_entry (codes "mark") cmd_args_words cmd_fails
        ∷ command_entry (codes "done") cmd_args_words cmd_fails
        ∷ function_entry (codes "compatible_with") (pure compatible_with)
        ∷ function_entry (codes "update_forced") (pure update_forced)
        ∷ function_entry (codes "get_mark") (pure get_mark)
        ∷ function_entry (codes "hash_dir") (pure hash_dir)
        ∷ function_entry (codes "matches") (pure matches)
        ∷ function_entry (codes "concat") (pure concat)
        ∷ function_entry (codes "getprop") (reading (getprop os readings))
        ∷ function_entry (codes "file_contains") (reading (file_contains os readings))
        ∷ []

    registered :
        (g : CommandState (World W))
        → g.initialized ≡ false
        → register_update_commands os system readings ctx g ≡ (
          pos 0,
          record {
            symbol_table = some (record { table = rows_of language; max_size = 32 });
            initialized = true;
          },
        )
    unfolding register_update_commands command_init register_all register_one register_command
        register_function register_command_internal add_to_symbol_table added find_entry is_entry
        bytes_eq create_symbol_table rows_of language
    registered g h = rw h refl

    -- From a state that is not set up, the registration succeeds. Whatever name is then looked up as a
    -- command, the first command of this name in the list of the commands and functions of update
    -- scripts is found, with its hook, the kind of its arguments and the cookie of the registration, and
    -- a name that no command has in the list is not found; and likewise for the functions.
    pub register_update_commands-language :
        (name : Bytes) (g : CommandState (World W))
        → g.initialized ≡ false
        → let (ret, g') = register_update_commands os system readings ctx g in
          (ret ≡ pos 0)
          × (find_command (some name) g' ≡ first_of name cmd_type_command language)
          × (find_function (some name) g' ≡ first_of name cmd_type_function language)
    unfolding find_command find_function find_in_symbol_table
    register_update_commands-language name g h = rw (registered g h) (
      refl,
      find_entry-first_of name cmd_type_command language,
      find_entry-first_of name cmd_type_function language,
    )
