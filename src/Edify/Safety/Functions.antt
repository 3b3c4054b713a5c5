-- ===== src/Edify/Safety/Functions.antt =====
-- Each function of edify/expr.c has an outcome when its arguments have one.
use recovery_sdx.Base.{
  Bool, ℕ, ◌≡◌, ◌≤◌, refl, sym, subst, true, not, ◌&&◌, List, [], ◌∷◌, ◌++◌, Bytes, leb, length,
  arith, bytes_eq,
}
use mathlib.Core.List.{append-nil}
use recovery_sdx.Edify.Strings.{boolean_string, of_bool, strstr}
use recovery_sdx.Edify.Expr.{
  State, Result, value, null, fault, M, ◌>>=◌, ret, Arg, Function, literal, concat_fn, if_else_fn,
  abort_fn, assert_fn, sleep_fn, stdout_fn, logical_and_fn, logical_or_fn, logical_not_fn,
  substring_fn, equality_fn, inequality_fn, sequence_fn, less_than_int_fn, greater_than_int_fn,
  registered,
}
use recovery_sdx.Edify.Functions.{
  concat_args, if_else, aborted, abort_args, assert_failed, assert_args, do_sleep, sleep_args,
  print, stdout_args, with_two, logical_and, logical_or, logical_not, substring, equality,
  inequality, sequence, less_than, less_than_int, greater_than_int, apply, int_less, as_int,
}
use recovery_sdx.Edify.Safety.{
  accepts, Outcome, Safe, bind-Safe, ret-Safe, abort_with-Safe, if-Safe,
}

-- The argument's text lies inside the script, and its evaluation has an outcome.
pub record SafeArg {W : Type 0} (script : Bytes) (a : Arg W) : Type 0 where
  pub run : Safe script a.run
  pub starts : a.start ≤ a.end_
  pub stops : a.end_ ≤ length script

abbrev pub SafeArgs : {W : Type 0} → Bytes → List (Arg W) → Type 0
SafeArgs script [] = Unit
SafeArgs script (a ∷ more) = SafeArg script a × SafeArgs script more

pub aborted-Outcome :
    {W : Type 0} → (s : State W) (x : Result × State W) → Outcome s x → Outcome s (aborted x)
unfolding aborted
aborted-Outcome s (value v, s') o = record {
  script_same = o.script_same;
  printed = o.printed;
  out_grows = o.out_grows;
  ends = (v, refl);
}
aborted-Outcome s (null, s') o = record {
  script_same = o.script_same;
  printed = o.printed;
  out_grows = o.out_grows;
  ends = (_, refl);
}
aborted-Outcome s (fault, s') o = o

in_script :
    {W : Type 0}
    → (a : Arg W) (script : Bytes) → SafeArg script a
    → (leb a.start a.end_ && leb a.end_ (length script)) ≡ true
in_script a script h = let p = h.starts in let q = h.stops in ground arith

module _ {W : Type 0} {script : Bytes} where
  pub concat_args-Safe :
      (args : List (Arg W)) → SafeArgs script args → Safe script (concat_args args)
  unfolding concat_args
  concat_args-Safe [] h = ret-Safe []
  concat_args-Safe (a ∷ more) h =
      bind-Safe a.run _ h.0.run
        λ v. bind-Safe (concat_args more) _ (concat_args-Safe more h.1) λ rest. ret-Safe (v ++ rest)

  pub if_else-Safe : (args : List (Arg W)) → SafeArgs script args → Safe script (if_else args)
  unfolding if_else
  if_else-Safe [] h = abort_with-Safe _
  if_else-Safe (c ∷ []) h = abort_with-Safe _
  if_else-Safe (c ∷ t ∷ []) h =
      bind-Safe c.run _ h.0.run λ v. if-Safe (boolean_string v) t.run (ret v) h.1.0.run (ret-Safe v)
  if_else-Safe (c ∷ t ∷ e ∷ []) h =
      bind-Safe c.run _ h.0.run λ v. if-Safe (boolean_string v) t.run e.run h.1.0.run h.1.1.0.run
  if_else-Safe (c ∷ t ∷ e ∷ f ∷ more) h = abort_with-Safe _

  pub abort_args-Safe : (args : List (Arg W)) → SafeArgs script args → Safe script (abort_args args)
  unfolding abort_args
  abort_args-Safe [] h = abort_with-Safe _
  abort_args-Safe (a ∷ more) h = λ s e. aborted-Outcome s (a.run s) (h.0.run s e)

  pub assert_failed-Safe : (a : Arg W) → SafeArg script a → Safe script (assert_failed a)
  unfolding assert_failed
  assert_failed-Safe a h s e =
      rw (in_script a s.script (subst (λ p. SafeArg p a) (sym e) h)) (abort_with-Safe _ s e)

  pub assert_args-Safe :
      (args : List (Arg W)) → SafeArgs script args → Safe script (assert_args args)
  unfolding assert_args
  assert_args-Safe [] h = ret-Safe []
  assert_args-Safe (a ∷ more) h = bind-Safe a.run _ h.0.run λ v.
      if-Safe (boolean_string v) (assert_args more) (assert_failed a) (assert_args-Safe more h.1)
        (assert_failed-Safe a h.0)

  pub do_sleep-Safe : (v : Bytes) → Safe {W = W} script (do_sleep v)
  unfolding do_sleep
  do_sleep-Safe v s e = record {
    script_same = refl;
    printed = [];
    out_grows = sym (append-nil s.out);
    ends = tt;
  }

  pub print-Safe : (v : Bytes) → Safe {W = W} script (print v)
  unfolding print
  print-Safe v s e = record { script_same = refl; printed = v; out_grows = refl; ends = tt }

  pub stdout_args-Safe :
      (args : List (Arg W)) → SafeArgs script args → Safe script (stdout_args args)
  unfolding stdout_args
  stdout_args-Safe [] h = ret-Safe []
  stdout_args-Safe (a ∷ more) h =
      bind-Safe a.run _ h.0.run
        λ v. bind-Safe (print v) _ (print-Safe v) λ _. stdout_args-Safe more h.1

  pub two-Safe :
      (l r : M W) (f : Bytes → Bytes → Bytes)
      → Safe script l
      → Safe script r
      → Safe script (l >>= λ v. r >>= λ u. ret (f v u))
  two-Safe l r f h k = bind-Safe l _ h λ v. bind-Safe r _ k λ u. ret-Safe (f v u)

  pub and-Safe : (l r : M W) → Safe script l → Safe script r → Safe script (logical_and l r)
  unfolding logical_and
  and-Safe l r h k = bind-Safe l _ h λ v. if-Safe (boolean_string v) r (ret v) k (ret-Safe v)

  pub or-Safe : (l r : M W) → Safe script l → Safe script r → Safe script (logical_or l r)
  unfolding logical_or
  or-Safe l r h k = bind-Safe l _ h λ v. if-Safe (boolean_string v) (ret v) r (ret-Safe v) k

  with_two-Safe :
      (f : M W → M W → M W)
      → ((l r : M W) → Safe script l → Safe script r → Safe script (f l r))
      → (args : List (Arg W)) → SafeArgs script args
      → leb 2 (length args) ≡ true
      → Safe script (with_two f args)
  unfolding with_two
  with_two-Safe f k [] h n = ground arith
  with_two-Safe f k (a ∷ []) h n = ground arith
  with_two-Safe f k (a ∷ b ∷ more) h n = k a.run b.run h.0.run h.1.0.run

  less_than_int-Safe :
      (args : List (Arg W)) → SafeArgs script args → Safe script (less_than_int args)
  unfolding less_than_int less_than
  less_than_int-Safe [] h = abort_with-Safe _
  less_than_int-Safe (a ∷ []) h = abort_with-Safe _
  less_than_int-Safe (a ∷ b ∷ []) h =
      two-Safe a.run b.run (λ v u. of_bool (int_less (as_int v) (as_int u))) h.0.run h.1.0.run
  less_than_int-Safe (a ∷ b ∷ c ∷ more) h = abort_with-Safe _

  greater_than_int-Safe :
      (args : List (Arg W)) → SafeArgs script args → Safe script (greater_than_int args)
  unfolding greater_than_int
  greater_than_int-Safe [] h = abort_with-Safe _
  greater_than_int-Safe (a ∷ []) h = abort_with-Safe _
  greater_than_int-Safe (a ∷ b ∷ []) h = less_than_int-Safe (b ∷ a ∷ []) (h.1.0, (h.0, tt))
  greater_than_int-Safe (a ∷ b ∷ c ∷ more) h = abort_with-Safe _

  module _ (app_accepts : ℕ → Bytes → ℕ → Bool) (app : ℕ → Bytes → List (Arg W) → M W)
      (app-Safe : (f : ℕ) (name : Bytes) (args : List (Arg W))
        → SafeArgs script args
        → app_accepts f name (length args) ≡ true
        → Safe script (app f name args)) where
    pub apply-Safe :
        (f : Function) (name : Bytes) (args : List (Arg W))
        → SafeArgs script args
        → accepts app_accepts f name (length args) ≡ true
        → Safe script (apply app f name args)
    unfolding apply accepts sequence substring equality inequality logical_not sleep_args
    apply-Safe literal name args h n = ret-Safe name
    apply-Safe concat_fn name args h n = concat_args-Safe args h
    apply-Safe if_else_fn name args h n = if_else-Safe args h
    apply-Safe abort_fn name args h n = abort_args-Safe args h
    apply-Safe assert_fn name args h n = assert_args-Safe args h
    apply-Safe sleep_fn name [] h n = ground arith
    apply-Safe sleep_fn name (a ∷ more) h n = bind-Safe a.run _ h.0.run do_sleep-Safe
    apply-Safe stdout_fn name args h n = stdout_args-Safe args h
    apply-Safe logical_and_fn name args h n = with_two-Safe logical_and and-Safe args h n
    apply-Safe logical_or_fn name args h n = with_two-Safe logical_or or-Safe args h n
    apply-Safe logical_not_fn name [] h n = ground arith
    apply-Safe logical_not_fn name (a ∷ more) h n =
        bind-Safe a.run _ h.0.run λ v. ret-Safe (of_bool (not (boolean_string v)))
    apply-Safe substring_fn name args h n =
        with_two-Safe substring (λ l r. two-Safe l r (λ v u. of_bool (strstr v u))) args h n
    apply-Safe equality_fn name args h n =
        with_two-Safe equality (λ l r. two-Safe l r (λ v u. of_bool (bytes_eq v u))) args h n
    apply-Safe inequality_fn name args h n =
        with_two-Safe inequality (λ l r. two-Safe l r (λ v u. of_bool (not (bytes_eq v u)))) args h
          n
    apply-Safe sequence_fn name args h n =
        with_two-Safe sequence (λ l r k₁ k₂. bind-Safe l _ k₁ λ _. k₂) args h n
    apply-Safe less_than_int_fn name args h n = less_than_int-Safe args h
    apply-Safe greater_than_int_fn name args h n = greater_than_int-Safe args h
    apply-Safe (registered f) name args h n = app-Safe f name args h n
