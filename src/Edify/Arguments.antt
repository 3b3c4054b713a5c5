-- ===== src/Edify/Arguments.antt =====
-- `ReadArgs`, `ReadVarArgs` and `ErrorAbort` of edify/expr.c, for the functions that an application
-- registers. What is done with the arguments that were read is the last parameter.
use recovery_sdx.Base.{List, [], ◌∷◌, Bytes, take}
use recovery_sdx.Edify.Expr.{M, ◌>>=◌, undefined, abort_with, Arg}

module _ {W : Type 0} where
  -- The message has room for 4095 bytes.
  unfoldable pub error_abort : Bytes → M W
  error_abort msg = abort_with (take 4095 msg)

  -- `ReadArgs` reads as many arguments as it is asked for, whether they are there or not.
  unfoldable pub read_one : List (Arg W) → (Bytes → M W) → M W
  read_one [] k = undefined
  read_one (a ∷ more) k = a.run >>= k

  unfoldable pub read_two : List (Arg W) → (Bytes → Bytes → M W) → M W
  unfolding read_one
  read_two [] k = undefined
  read_two (a ∷ more) k = a.run >>= λ v. read_one more (k v)

  unfoldable pub read_three : List (Arg W) → (Bytes → Bytes → Bytes → M W) → M W
  unfolding read_two
  read_three [] k = undefined
  read_three (a ∷ more) k = a.run >>= λ v. read_two more (k v)

  -- `ReadVarArgs`
  unfoldable pub read_var_args : List (Arg W) → (List Bytes → M W) → M W
  read_var_args [] k = k []
  read_var_args (a ∷ more) k = a.run >>= λ v. read_var_args more λ vs. k (v ∷ vs)
