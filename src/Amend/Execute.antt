-- ===== src/Amend/Execute.antt =====
-- amend/execute.c: the execution of the commands that the parser built (amend/ast.h). Its checks for
-- null pointers and unknown operators, which no tree of the parser meets, are left out.
pub mod Script
pub mod Conditions
use recovery_sdx.Base.{
  ℕ, zero, suc, Bool, true, false, not, ◌&&◌, ◌||◌, Option, none, some, List, [], ◌∷◌, Bytes, ltb,
  ◌==◌, if◌then◌else◌,
}
use recovery_sdx.Base.Int.{ℤ, pos, negsuc, minus_one, is_nonzero, is_negative}
use recovery_sdx.Amend.Commands.{
  ArgType, cmd_args_boolean, cmd_args_words, cmd_args_unknown, CommandEntry, Run, ok, error, fault,
  get_command_argument_type, call_command, call_boolean_command, call_function,
}

pub data StringOp : Type 0 where
  am_sop_lt am_sop_le am_sop_gt am_sop_ge am_sop_eq am_sop_ne : StringOp

-- AM_BOP_NOT has its own constructor below.
pub data BooleanOp : Type 0 where
  am_bop_eq am_bop_ne am_bop_and am_bop_or : BooleanOp

mutual
  pub data StringValue (W : Type 0) : Type 0 where
    literal : Bytes → StringValue W
    function : Option (CommandEntry W) → StringValues W → StringValue W

  pub data StringValues (W : Type 0) : Type 0 where
    nil : StringValues W
    cons : StringValue W → StringValues W → StringValues W

pub data BooleanValue (W : Type 0) : Type 0 where
  am_bop_not : BooleanValue W → BooleanValue W
  expression : BooleanOp → BooleanValue W → BooleanValue W → BooleanValue W
  string_comparison : StringOp → StringValue W → StringValue W → BooleanValue W

-- The union of `AmCommandArguments`.
pub data Arguments (W : Type 0) : Type 0 where
  words : List (Option Bytes) → Arguments W
  boolean : BooleanValue W → Arguments W

pub record Command (W : Type 0) : Type 0 where
  pub line : ℕ
  pub cmd : Option (CommandEntry W)
  pub args : Arguments W

-- The sign of `strcmp`.
unfoldable pub strcmp : Bytes → Bytes → ℤ
strcmp [] [] = pos 0
strcmp [] (d ∷ t) = minus_one
strcmp (c ∷ s) [] = pos 1
strcmp (c ∷ s) (d ∷ t) = if ltb c d then minus_one else if ltb d c then pos 1 else strcmp s t

-- `cmp > 0`
abbrev pub is_positive : ℤ → Bool
is_positive (pos zero) = false
is_positive (pos (suc n)) = true
is_positive (negsuc n) = false

unfoldable pub apply_string_op : StringOp → ℤ → Bool
apply_string_op am_sop_lt cmp = is_negative cmp
apply_string_op am_sop_le cmp = not (is_positive cmp)
apply_string_op am_sop_gt cmp = is_positive cmp
apply_string_op am_sop_ge cmp = not (is_negative cmp)
apply_string_op am_sop_eq cmp = not (is_nonzero cmp)
apply_string_op am_sop_ne cmp = is_nonzero cmp

abbrev pub bool_eq : Bool → Bool → Bool
bool_eq true b = b
bool_eq false b = not b

unfoldable pub apply_boolean_op : BooleanOp → Bool → Bool → Bool
apply_boolean_op am_bop_eq a b = bool_eq a b
apply_boolean_op am_bop_ne a b = not (bool_eq a b)
apply_boolean_op am_bop_and a b = a && b
apply_boolean_op am_bop_or a b = a || b

-- `if (ret != 0) return ret;`
infixl 5 ◌>>=◌
abbrev pub pass : {W A B : Type 0} → Run A × W → (A → W → Run B × W) → Run B × W
pass (ok a, w) f = f a w
pass (error e, w) f = (error e, w)
pass (fault, w) f = (fault, w)

abbrev pub ◌>>=◌ : {W A B : Type 0} → (W → Run A × W) → (A → W → Run B × W) → W → Run B × W
◌>>=◌ m f w = pass (m w) f

abbrev pub ret : {W A : Type 0} → A → W → Run A × W
ret a w = (ok a, w)

-- `strcmp` of a null pointer is undefined.
unfoldable pub compare_strings :
    {W : Type 0} → StringOp → Option Bytes → Option Bytes → W → Run Bool × W
compare_strings op (some a) (some b) w = (ok (apply_string_op op (strcmp a b)), w)
compare_strings op a b w = (fault, w)

-- `line > 0 ? line : ret`
abbrev pub failed_at : ℕ → ℤ → ℤ
failed_at line e = if ltb 0 line then pos line else e

module _ {W : Type 0} where
  unfoldable mutual
    pub exec_string_value : StringValue W → W → Run (Option Bytes) × W
    exec_string_value (literal s) = ret (some s)
    exec_string_value (function fn args) =
        exec_function_arguments args >>= λ argv. call_function fn argv

    pub exec_function_arguments : StringValues W → W → Run (List (Option Bytes)) × W
    exec_function_arguments nil = ret []
    exec_function_arguments (cons v vs) =
        exec_string_value v >>= λ s. exec_function_arguments vs >>= λ rest. ret (s ∷ rest)

  unfoldable pub exec_boolean_value : BooleanValue W → W → Run Bool × W
  unfolding compare_strings
  exec_boolean_value (am_bop_not a) = exec_boolean_value a >>= λ x. ret (not x)
  exec_boolean_value (expression op a b) =
      exec_boolean_value a >>= λ x. exec_boolean_value b >>= λ y. ret (apply_boolean_op op x y)
  exec_boolean_value (string_comparison op a b) =
      exec_string_value a >>= λ s. exec_string_value b >>= λ t. compare_strings op s t

  exec_boolean_command : Command W → Arguments W → W → Run Unit × W
  exec_boolean_command c (boolean b) = exec_boolean_value b >>= λ v. call_boolean_command c.cmd v
  exec_boolean_command c (words argv) = λ w. (fault, w)

  exec_words_command : Command W → Arguments W → W → Run Unit × W
  exec_words_command c (words argv) = call_command c.cmd argv
  exec_words_command c (boolean b) = λ w. (fault, w)

  -- The arguments are read as the registered type says; the unknown type is an error of line 295.
  unfoldable pub exec_command : Command W → W → Run Unit × W
  unfolding exec_boolean_command exec_words_command
  exec_command c w = elim (get_command_argument_type c.cmd) [
    | cmd_args_boolean ↦ exec_boolean_command c c.args w
    | cmd_args_words ↦ exec_words_command c c.args w
    | cmd_args_unknown ↦ (error (negsuc 294), w)
  ]

  -- What the loop of `execCommandList` does with the result of a command.
  abbrev pub go_on : ℕ → Run Unit × W → (W → Run Unit × W) → Run Unit × W
  go_on line (ok u, w) rest = rest w
  go_on line (error e, w) rest = (error (failed_at line e), w)
  go_on line (fault, w) rest = (fault, w)

  unfoldable pub exec_command_list : List (Command W) → W → Run Unit × W
  exec_command_list [] w = (ok tt, w)
  exec_command_list (c ∷ cs) w = go_on c.line (exec_command c w) (exec_command_list cs)
