-- ===== src/Edify/Table.antt =====
-- The table of functions of edify/expr.c: registration, and the search for a name.
pub mod Named
use recovery_sdx.Base.{
  ℕ, ◌+◌, ◌*◌, Option, none, some, List, [], ◌∷◌, ◌++◌, Bytes, leb, if◌then◌else◌, codes, length,
  ◌>>=◌,
}
use recovery_sdx.Base.Int.{ℤ}
use recovery_sdx.Edify.Expr.{
  Function, concat_fn, if_else_fn, abort_fn, assert_fn, sleep_fn, stdout_fn, substring_fn,
  less_than_int_fn, greater_than_int_fn,
}

pub record NamedFunction : Type 0 where
  pub name : Bytes
  pub function : Function

-- `fn_entries` is the length of the list.
pub record FunctionTable : Type 0 where
  pub fn_table : List NamedFunction
  pub fn_size : ℕ

-- The calls of the C library. `bsearch` is given the comparison of its key with an entry.
pub record Library : Type 0 where
  pub strcmp : Bytes → Bytes → ℤ
  pub qsort : (NamedFunction → NamedFunction → ℤ) → List NamedFunction → List NamedFunction
  pub bsearch : (NamedFunction → ℤ) → List NamedFunction → Option NamedFunction

abbrev pub no_functions : FunctionTable
no_functions = record { fn_table = []; fn_size = 0 }

unfoldable pub grown : FunctionTable → ℕ
grown t = if leb t.fn_size (length t.fn_table) then t.fn_size * 2 + 1 else t.fn_size

unfoldable pub register_function : Bytes → Function → FunctionTable → FunctionTable
unfolding grown
register_function name fn t = record {
  fn_table = t.fn_table ++ (record { name = name; function = fn } ∷ []);
  fn_size = grown t;
}

-- One call of `RegisterFunction` for each of the functions.
unfoldable pub register_each : List (Bytes × Function) → FunctionTable → FunctionTable
unfolding register_function
register_each [] t = t
register_each ((name, fn) ∷ fs) t = register_each fs (register_function name fn t)

-- The functions of `RegisterBuiltins`, in their order.
unfoldable pub builtins : List (Bytes × Function)
builtins =
    (codes "ifelse", if_else_fn)
    ∷ (codes "abort", abort_fn)
    ∷ (codes "assert", assert_fn)
    ∷ (codes "concat", concat_fn)
    ∷ (codes "is_substring", substring_fn)
    ∷ (codes "stdout", stdout_fn)
    ∷ (codes "sleep", sleep_fn)
    ∷ (codes "less_than_int", less_than_int_fn)
    ∷ (codes "greater_than_int", greater_than_int_fn)
    ∷ []

unfoldable pub register_builtins : FunctionTable → FunctionTable
unfolding register_each builtins
register_builtins t = register_each builtins t

module _ (lib : Library) where
  unfoldable pub fn_entry_compare : NamedFunction → NamedFunction → ℤ
  fn_entry_compare a b = lib.strcmp a.name b.name

  unfoldable pub finish_registration : FunctionTable → FunctionTable
  unfolding fn_entry_compare
  finish_registration t = record t { fn_table = lib.qsort fn_entry_compare t.fn_table }

  unfoldable pub find_function : Bytes → FunctionTable → Option Function
  find_function name t =
      lib.bsearch (λ e. lib.strcmp name e.name) t.fn_table >>= λ nf. some nf.function
