-- ===== src/Edify/Functions.antt =====
-- The functions of edify/expr.c, over the arguments that they evaluate.
use recovery_sdx.Base.{
  ℕ, ◌-◌, Bool, false, not, ◌&&◌, Option, none, some, List, [], ◌∷◌, ◌++◌, Bytes, leb,
  if◌then◌else◌, length, take, drop, codes, bytes_eq,
}
use recovery_sdx.Base.Int.{ℤ, ltb_ℤ}
use recovery_sdx.Edify.Strings.{boolean_string, of_bool, strstr, strtol}
use recovery_sdx.Edify.Expr.{
  State, Result, value, null, fault, M, ◌>>=◌, ret, undefined, abort_with, Arg, Function, literal,
  concat_fn, if_else_fn, abort_fn, assert_fn, sleep_fn, stdout_fn, logical_and_fn, logical_or_fn,
  logical_not_fn, substring_fn, equality_fn, inequality_fn, sequence_fn, less_than_int_fn,
  greater_than_int_fn, registered, Expr, Exprs, node, nil, cons,
}

-- The first loop of `ConcatFn` stops at a null string.
unfoldable pub concat_args : {W : Type 0} → List (Arg W) → M W
concat_args [] = ret []
concat_args (a ∷ more) = a.run >>= λ v. concat_args more >>= λ rest. ret (v ++ rest)

unfoldable pub if_else : {W : Type 0} → List (Arg W) → M W
if_else (c ∷ t ∷ []) = c.run >>= λ v. if boolean_string v then t.run else ret v
if_else (c ∷ t ∷ e ∷ []) = c.run >>= λ v. if boolean_string v then t.run else e.run
if_else _ = abort_with (codes "ifelse expects 2 or 3 arguments")

unfoldable pub aborted : {W : Type 0} → Result × State W → Result × State W
aborted (value msg, s) = abort_with msg s
aborted (null, s) = abort_with (codes "called abort()") s
aborted (fault, s) = (fault, s)

unfoldable pub abort_args : {W : Type 0} → List (Arg W) → M W
unfolding aborted
abort_args [] s = abort_with (codes "called abort()") s
abort_args (a ∷ more) s = aborted (a.run s)

-- The text of the failed argument is copied from the script.
unfoldable pub assert_failed : {W : Type 0} → Arg W → M W
assert_failed a s =
    if leb a.start a.end_ && leb a.end_ (length s.script)
    then abort_with (codes "assert failed: " ++ take (a.end_ - a.start) (drop a.start s.script)) s
    else (fault, s)

unfoldable pub assert_args : {W : Type 0} → List (Arg W) → M W
unfolding assert_failed
assert_args [] = ret []
assert_args (a ∷ more) =
    a.run >>= λ v. if boolean_string v then assert_args more else assert_failed a

unfoldable pub do_sleep : {W : Type 0} → Bytes → M W
do_sleep v s = (value v, record s { sleeps = s.sleeps ++ (strtol v).0 ∷ [] })

unfoldable pub sleep_args : {W : Type 0} → List (Arg W) → M W
unfolding do_sleep
sleep_args [] = undefined
sleep_args (a ∷ more) = a.run >>= do_sleep

unfoldable pub print : {W : Type 0} → Bytes → M W
print v s = (value [], record s { out = s.out ++ v })

unfoldable pub stdout_args : {W : Type 0} → List (Arg W) → M W
unfolding print
stdout_args [] = ret []
stdout_args (a ∷ more) = a.run >>= λ v. print v >>= λ _. stdout_args more

-- The operators read argv[0] and argv[1].
unfoldable pub with_two : {W : Type 0} → (M W → M W → M W) → List (Arg W) → M W
with_two f (a ∷ b ∷ more) = f a.run b.run
with_two f (a ∷ []) = f a.run undefined
with_two f [] = undefined

unfoldable pub logical_and : {W : Type 0} → M W → M W → M W
logical_and l r = l >>= λ v. if boolean_string v then r else ret v

unfoldable pub logical_or : {W : Type 0} → M W → M W → M W
logical_or l r = l >>= λ v. if boolean_string v then ret v else r

unfoldable pub logical_not : {W : Type 0} → List (Arg W) → M W
logical_not [] = undefined
logical_not (a ∷ more) = a.run >>= λ v. ret (of_bool (not (boolean_string v)))

unfoldable pub substring : {W : Type 0} → M W → M W → M W
substring needle haystack = needle >>= λ n. haystack >>= λ h. ret (of_bool (strstr n h))

unfoldable pub equality : {W : Type 0} → M W → M W → M W
equality l r = l >>= λ v. r >>= λ u. ret (of_bool (bytes_eq v u))

unfoldable pub inequality : {W : Type 0} → M W → M W → M W
inequality l r = l >>= λ v. r >>= λ u. ret (of_bool (not (bytes_eq v u)))

unfoldable pub sequence : {W : Type 0} → M W → M W → M W
sequence l r = l >>= λ _. r

-- an int is a string that strtol reads to its end
unfoldable pub as_int : Bytes → Option ℤ
as_int [] = none
as_int (c ∷ s) = let (n, rest) = strtol (c ∷ s) in if boolean_string rest then none else some n

unfoldable pub int_less : Option ℤ → Option ℤ → Bool
int_less none r = false
int_less (some l) none = false
int_less (some l) (some r) = ltb_ℤ l r

unfoldable pub less_than : {W : Type 0} → M W → M W → M W
unfolding as_int int_less
less_than l r = l >>= λ v. r >>= λ u. ret (of_bool (int_less (as_int v) (as_int u)))

unfoldable pub less_than_int : {W : Type 0} → List (Arg W) → M W
unfolding less_than
less_than_int (a ∷ b ∷ []) = less_than a.run b.run
less_than_int _ = abort_with (codes "less_than_int expects 2 arguments")

-- The arguments are handed to `LessThanIntFn` in the other order.
unfoldable pub greater_than_int : {W : Type 0} → List (Arg W) → M W
unfolding less_than_int
greater_than_int (a ∷ b ∷ []) = less_than_int (b ∷ a ∷ [])
greater_than_int _ = abort_with (codes "greater_than_int expects 2 arguments")

module _ {W : Type 0} (app : ℕ → Bytes → List (Arg W) → M W) where
  unfoldable pub apply : Function → Bytes → List (Arg W) → M W
  apply literal name args = ret name
  apply concat_fn name args = concat_args args
  apply if_else_fn name args = if_else args
  apply abort_fn name args = abort_args args
  apply assert_fn name args = assert_args args
  apply sleep_fn name args = sleep_args args
  apply stdout_fn name args = stdout_args args
  apply logical_and_fn name args = with_two logical_and args
  apply logical_or_fn name args = with_two logical_or args
  apply logical_not_fn name args = logical_not args
  apply substring_fn name args = with_two substring args
  apply equality_fn name args = with_two equality args
  apply inequality_fn name args = with_two inequality args
  apply sequence_fn name args = with_two sequence args
  apply less_than_int_fn name args = less_than_int args
  apply greater_than_int_fn name args = greater_than_int args
  apply (registered f) name args = app f name args

unfoldable pub start_of : Expr → ℕ
start_of (node f name args s e) = s

unfoldable pub end_of : Expr → ℕ
end_of (node f name args s e) = e

module _ {W : Type 0} (app : ℕ → Bytes → List (Arg W) → M W) where
  unfoldable mutual
    unfolding start_of end_of

    pub evaluate : Expr → M W
    evaluate (node f name args s e) = apply app f name (arguments args)

    pub arguments : Exprs → List (Arg W)
    arguments nil = []
    arguments (cons x xs) =
        record { run = evaluate x; start = start_of x; end_ = end_of x } ∷ arguments xs
