-- ===== src/Edify/Expr.antt =====
-- edify/expr.h and the evaluator of edify/expr.c: expressions, the state of a run, and `Evaluate`.
-- The functions that an application registers are the parameter `app`.
use recovery_sdx.Base.{ℕ, Option, some, List, Bytes}
use recovery_sdx.Base.Int.{ℤ}

-- `State`, with what a run has printed and how long it was asked to sleep. `W` is what the
-- application's cookie leads to, and the system that its functions work on.
pub record State (W : Type 0) : Type 0 where
  pub script : Bytes
  pub errmsg : Option Bytes
  pub out : Bytes
  pub sleeps : List ℤ
  pub cookie : W

-- A string, a null pointer, or a read out of bounds, of which the language says nothing.
pub data Result : Type 0 where
  value : Bytes → Result
  null : Result
  fault : Result

-- A call that may return NULL.
abbrev pub M : Type 0 → Type 0
M W = State W → Result × State W

-- A null result of a part is the result of the whole.
infixl 5 ◌>>=◌
abbrev pub pass : {W : Type 0} → Result × State W → (Bytes → M W) → Result × State W
pass (value v, s) f = f v s
pass (null, s) f = (null, s)
pass (fault, s) f = (fault, s)

abbrev pub ◌>>=◌ : {W : Type 0} → M W → (Bytes → M W) → M W
◌>>=◌ m f s = pass (m s) f

abbrev pub ret : {W : Type 0} → Bytes → M W
ret v s = (value v, s)

abbrev pub undefined : {W : Type 0} → M W
undefined s = (fault, s)

-- `free(state->errmsg); state->errmsg = msg; return NULL;`
abbrev pub abort_with : {W : Type 0} → Bytes → M W
abort_with msg s = (null, record s { errmsg = some msg })

-- An argument as a function sees it: `Evaluate` of it, and its place in the script.
pub record Arg (W : Type 0) : Type 0 where
  pub run : M W
  pub start : ℕ
  pub end_ : ℕ

pub data Function : Type 0 where
  literal concat_fn if_else_fn abort_fn assert_fn sleep_fn stdout_fn : Function
  logical_and_fn logical_or_fn logical_not_fn substring_fn equality_fn inequality_fn : Function
  sequence_fn less_than_int_fn greater_than_int_fn : Function
  registered : ℕ → Function

mutual
  pub data Expr : Type 0 where
    node : Function → Bytes → Exprs → ℕ → ℕ → Expr

  pub data Exprs : Type 0 where
    nil : Exprs
    cons : Expr → Exprs → Exprs
