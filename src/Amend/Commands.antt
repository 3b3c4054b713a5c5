-- ===== src/Amend/Commands.antt =====
-- amend/commands.c: the commands and functions that a program registers, and their calls.
pub mod Registry
pub mod Calls
use recovery_sdx.Base.{
  ℕ, Bool, true, false, not, ◌&&◌, Option, none, some, List, [], ◌∷◌, Bytes, length, if◌then◌else◌,
}
use recovery_sdx.Base.Int.{ℤ, pos, negsuc, minus_one, is_nonzero}
use recovery_sdx.Amend.Symtab.{
  SymbolTable, create_symbol_table, find_in_symbol_table, add_to_symbol_table,
}

pub data CommandType : Type 0 where
  cmd_type_unknown cmd_type_command cmd_type_function : CommandType

pub data ArgType : Type 0 where
  cmd_args_unknown cmd_args_boolean cmd_args_words : ArgType

-- The enumeration's value, as an unsigned int.
abbrev pub type_flags : CommandType → ℕ
type_flags cmd_type_unknown = 4294967295
type_flags cmd_type_command = 0
type_flags cmd_type_function = 1

-- A `CommandHook` gets the name, the cookie, argc and argv; a `FunctionHook` also sets a result.
-- One is stored as the other, and must not be called so. `W` is the state that hooks change.
abbrev pub CommandHook : Type 0 → Type 0
CommandHook W = Bytes → ℕ → ℕ → Option (List Bytes) → W → ℤ × W

abbrev pub FunctionHook : Type 0 → Type 0
FunctionHook W = Bytes → ℕ → List Bytes → W → (ℤ × Option Bytes) × W

pub data Hook (W : Type 0) : Type 0 where
  command_hook : CommandHook W → Hook W
  function_hook : FunctionHook W → Hook W

pub record CommandEntry (W : Type 0) : Type 0 where
  pub name : Bytes
  pub cookie : ℕ
  pub type : CommandType
  pub arg_type : ArgType
  pub hook : Hook W

-- The flag `commandStateInitialized` is set exactly when there is a table.
pub record CommandState (W : Type 0) : Type 0 where
  pub symbol_table : Option (SymbolTable (CommandEntry W))
  pub initialized : Bool

-- What a call gives: a value, an error number other than 0, or a call or read that C leaves
-- undefined.
pub data Run (A : Type 0) : Type 0 where
  ok : A → Run A
  error : ℤ → Run A
  fault : Run A

unfoldable pub can_register : CommandType → ArgType → Bool
can_register cmd_type_unknown a = false
can_register t cmd_args_unknown = false
can_register t a = true

-- The arguments, if none of them is null.
unfoldable pub non_null : List (Option Bytes) → Option (List Bytes)
non_null [] = some []
non_null (none ∷ args) = none
non_null (some a ∷ args) = elim (non_null args) [ none ↦ none | some more ↦ some (a ∷ more) ]

abbrev pub cast : {A B : Type 0} → (A → B) → Option A → Option B
cast f none = none
cast f (some a) = some (f a)

module _ {W : Type 0} where
  unfoldable pub command_init : CommandState W → ℤ × CommandState W
  command_init g =
      if g.initialized
      then (minus_one, g)
      else (pos 0, record { symbol_table = some create_symbol_table; initialized = true })

  unfoldable pub command_cleanup : CommandState W → CommandState W
  command_cleanup g =
      if g.initialized then record { symbol_table = none; initialized = false } else g

  unfoldable pub add_entry : CommandEntry W → CommandState W → ℤ × CommandState W
  add_entry e g =
      let (ret, tab) =
        add_to_symbol_table g.symbol_table (some e.name) (type_flags e.type) (some e) in
      (if is_nonzero ret then minus_one else pos 0, record g { symbol_table = tab })

  unfoldable pub register_command_internal :
      Option Bytes
      → CommandType
      → ArgType
      → Option (Hook W)
      → ℕ
      → CommandState W
      → ℤ × CommandState W
  unfolding can_register add_entry
  register_command_internal (some name) t a (some hook) cookie g =
      if g.initialized && can_register t a
      then add_entry (record { name = name; cookie = cookie; type = t; arg_type = a; hook = hook })
          g
      else (minus_one, g)
  register_command_internal name t a hook cookie g = (minus_one, g)

  unfoldable pub register_command :
      Option Bytes → ArgType → Option (CommandHook W) → ℕ → CommandState W → ℤ × CommandState W
  register_command name a hook cookie g =
      register_command_internal name cmd_type_command a (cast command_hook hook) cookie g

  unfoldable pub register_function :
      Option Bytes → Option (FunctionHook W) → ℕ → CommandState W → ℤ × CommandState W
  register_function name hook cookie g =
      register_command_internal name cmd_type_function cmd_args_words (cast function_hook hook)
        cookie g

  unfoldable pub find_command : Option Bytes → CommandState W → Option (CommandEntry W)
  find_command name g = find_in_symbol_table g.symbol_table name (type_flags cmd_type_command)

  unfoldable pub find_function : Option Bytes → CommandState W → Option (CommandEntry W)
  find_function name g = find_in_symbol_table g.symbol_table name (type_flags cmd_type_function)

  unfoldable pub get_command_argument_type : Option (CommandEntry W) → ArgType
  get_command_argument_type none = cmd_args_unknown
  get_command_argument_type (some e) = e.arg_type

  -- `ret`, with 0 for success.
  abbrev pub returned : ℤ × W → Run Unit × W
  returned (ret, w) = (if is_nonzero ret then error ret else ok tt, w)

  unfoldable pub run_command_hook : Hook W → Bytes → ℕ → ℕ → Option (List Bytes) → W → Run Unit × W
  run_command_hook (command_hook f) name cookie argc argv w = returned (f name cookie argc argv w)
  run_command_hook (function_hook f) name cookie argc argv w = (fault, w)

  unfoldable pub set_result : (ℤ × Option Bytes) × W → Run (Option Bytes) × W
  set_result ((ret, result), w) = (if is_nonzero ret then error ret else ok result, w)

  unfoldable pub run_function_hook : Hook W → Bytes → ℕ → List Bytes → W → Run (Option Bytes) × W
  unfolding set_result
  run_function_hook (command_hook f) name cookie args w = (fault, w)
  run_function_hook (function_hook f) name cookie args w = set_result (f name cookie args w)

  unfoldable pub call_command : Option (CommandEntry W) → List (Option Bytes) → W → Run Unit × W
  unfolding run_command_hook non_null
  call_command none args w = (error minus_one, w)
  call_command (some e) args w = elim e.arg_type [
    | cmd_args_words ↦ elim (non_null args) [
      | none ↦ (error minus_one, w)
      | some argv ↦ run_command_hook e.hook e.name e.cookie (length argv) (some argv) w
    ]
    | cmd_args_boolean ↦ (error minus_one, w)
    | cmd_args_unknown ↦ (error minus_one, w)
  ]

  unfoldable pub call_boolean_command : Option (CommandEntry W) → Bool → W → Run Unit × W
  unfolding run_command_hook
  call_boolean_command none b w = (error minus_one, w)
  call_boolean_command (some e) b w = elim e.arg_type [
    | cmd_args_boolean ↦ run_command_hook e.hook e.name e.cookie (if b then 1 else 0) none w
    | cmd_args_words ↦ (error minus_one, w)
    | cmd_args_unknown ↦ (error minus_one, w)
  ]

  -- The caller always asks for the result.
  unfoldable pub call_function :
      Option (CommandEntry W) → List (Option Bytes) → W → Run (Option Bytes) × W
  unfolding run_function_hook non_null
  call_function none args w = (error minus_one, w)
  call_function (some e) args w = elim e.arg_type [
    | cmd_args_words ↦ elim (non_null args) [
      | none ↦ (error minus_one, w)
      | some argv ↦ run_function_hook e.hook e.name e.cookie argv w
    ]
    | cmd_args_boolean ↦ (error minus_one, w)
    | cmd_args_unknown ↦ (error minus_one, w)
  ]
