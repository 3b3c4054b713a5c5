-- ===== src/Amend/Execute/Conditions.antt =====
-- What a negated condition means.
use recovery_sdx.Base.{Bool, true, false, not, Option, none, some, Bytes, ◌≡◌, refl, ap, arith}
use recovery_sdx.Base.Int.{ℤ}
use recovery_sdx.Amend.Commands.{Run, ok, error, fault}
use recovery_sdx.Amend.Execute.{
  StringOp, am_sop_lt, am_sop_le, am_sop_gt, am_sop_ge, am_sop_eq, am_sop_ne, am_bop_eq, am_bop_ne,
  am_bop_and, am_bop_or, BooleanValue, am_bop_not, expression, string_comparison, strcmp,
  apply_string_op, apply_boolean_op, pass, ret, compare_strings, exec_string_value,
  exec_boolean_value,
}

abbrev pub opposite : StringOp → StringOp
opposite am_sop_lt = am_sop_ge
opposite am_sop_le = am_sop_gt
opposite am_sop_gt = am_sop_le
opposite am_sop_ge = am_sop_lt
opposite am_sop_eq = am_sop_ne
opposite am_sop_ne = am_sop_eq

opposite_lem :
    (op : StringOp) (n : ℤ) → apply_string_op (opposite op) n ≡ not (apply_string_op op n)
unfolding apply_string_op
opposite_lem am_sop_lt n = refl
opposite_lem am_sop_le n = ground arith
opposite_lem am_sop_gt n = refl
opposite_lem am_sop_ge n = ground arith
opposite_lem am_sop_eq n = ground arith
opposite_lem am_sop_ne n = refl

-- The condition with its negation pushed down to the comparisons.
pub negate : {W : Type 0} → BooleanValue W → BooleanValue W
negate (am_bop_not a) = a
negate (expression am_bop_eq a b) = expression am_bop_ne a b
negate (expression am_bop_ne a b) = expression am_bop_eq a b
negate (expression am_bop_and a b) = expression am_bop_or (negate a) (negate b)
negate (expression am_bop_or a b) = expression am_bop_and (negate a) (negate b)
negate (string_comparison op a b) = string_comparison (opposite op) a b

abbrev negated : {W : Type 0} → Run Bool × W → Run Bool × W
negated x = pass x (λ v. ret (not v))

module _ {W : Type 0} where
  twice : (x : Run Bool × W) → x ≡ negated (negated x)
  twice (ok true, w) = refl
  twice (ok false, w) = refl
  twice (error e, w) = refl
  twice (fault, w) = refl

  -- Both sides are always evaluated: the first, then the second.
  abbrev combined : (Bool → Bool → Bool) → Run Bool × W → (W → Run Bool × W) → Run Bool × W
  combined f x r = pass x (λ a. λ w. pass (r w) (λ v. ret (f a v)))

  unnegated-second :
      (f g : Bool → Bool → Bool) (a : Bool) (y : Run Bool × W)
      → ((a v : Bool) → g a v ≡ not (f a v))
      → pass y (λ v. ret (g a v)) ≡ negated (pass y (λ v. ret (f a v)))
  unnegated-second f g a (ok v, w) h = ap (λ c. (ok c, w)) (h a v)
  unnegated-second f g a (error e, w) h = refl
  unnegated-second f g a (fault, w) h = refl

  combined-unnegated :
      (f g : Bool → Bool → Bool) (x : Run Bool × W) (r : W → Run Bool × W)
      → ((a v : Bool) → g a v ≡ not (f a v))
      → combined g x r ≡ negated (combined f x r)
  combined-unnegated f g (ok a, w) r h = unnegated-second f g a (r w) h
  combined-unnegated f g (error e, w) r h = refl
  combined-unnegated f g (fault, w) r h = refl

  negated-second :
      (f g : Bool → Bool → Bool) (a : Bool) (y : Run Bool × W)
      → ((a v : Bool) → g (not a) (not v) ≡ not (f a v))
      → pass (negated y) (λ v. ret (g (not a) v)) ≡ negated (pass y (λ v. ret (f a v)))
  negated-second f g a (ok v, w) h = ap (λ c. (ok c, w)) (h a v)
  negated-second f g a (error e, w) h = refl
  negated-second f g a (fault, w) h = refl

  combined-negated :
      (f g : Bool → Bool → Bool) (x : Run Bool × W) (r r' : W → Run Bool × W)
      → ((a v : Bool) → g (not a) (not v) ≡ not (f a v))
      → ((w : W) → r' w ≡ negated (r w))
      → combined g (negated x) r' ≡ negated (combined f x r)
  combined-negated f g (ok a, w) r r' h k = rw (k w) (negated-second f g a (r w) h)
  combined-negated f g (error e, w) r r' h k = refl
  combined-negated f g (fault, w) r r' h k = refl

  compared :
      (op : StringOp) (s t : Option Bytes) (w : W)
      → compare_strings (opposite op) s t w ≡ negated (compare_strings op s t w)
  unfolding compare_strings apply_string_op
  compared op (some a) (some b) w = ap (λ c. (ok c, w)) (opposite_lem op (strcmp a b))
  compared op none none w = refl
  compared op none (some b) w = refl
  compared op (some a) none w = refl

  second_string :
      (op : StringOp) (s : Option Bytes) (y : Run (Option Bytes) × W)
      → pass y (λ t. compare_strings (opposite op) s t)
        ≡ negated (pass y (λ t. compare_strings op s t))
  second_string op s (ok t, w) = compared op s t w
  second_string op s (error e, w) = refl
  second_string op s (fault, w) = refl

  first_string :
      (op : StringOp) (x : Run (Option Bytes) × W) (r : W → Run (Option Bytes) × W)
      → pass x (λ s. λ w. pass (r w) (λ t. compare_strings (opposite op) s t))
        ≡ negated (pass x (λ s. λ w. pass (r w) (λ t. compare_strings op s t)))
  first_string op (ok s, w) r = second_string op s (r w)
  first_string op (error e, w) r = refl
  first_string op (fault, w) r = refl

  -- Pushing a negation down to the comparisons changes no condition: not its value, its errors,
  -- nor what the functions it calls do, in their order.
  pub exec_boolean_value-negate :
      (b : BooleanValue W) (w : W)
      → exec_boolean_value (negate b) w ≡ exec_boolean_value (am_bop_not b) w
  unfolding exec_boolean_value negate apply_boolean_op
  exec_boolean_value-negate (am_bop_not a) w = twice (exec_boolean_value a w)
  exec_boolean_value-negate (expression am_bop_eq a b) w =
      combined-unnegated (apply_boolean_op am_bop_eq) (apply_boolean_op am_bop_ne)
        (exec_boolean_value a w) (exec_boolean_value b) (λ u v. refl)
  exec_boolean_value-negate (expression am_bop_ne a b) w =
      combined-unnegated (apply_boolean_op am_bop_ne) (apply_boolean_op am_bop_eq)
        (exec_boolean_value a w) (exec_boolean_value b) (λ u v. ground arith)
  exec_boolean_value-negate (expression am_bop_and a b) w = rw (exec_boolean_value-negate a w) (
      combined-negated (apply_boolean_op am_bop_and) (apply_boolean_op am_bop_or)
        (exec_boolean_value a w) (exec_boolean_value b) (exec_boolean_value (negate b))
        (λ u v. ground arith) (exec_boolean_value-negate b))
  exec_boolean_value-negate (expression am_bop_or a b) w = rw (exec_boolean_value-negate a w) (
      combined-negated (apply_boolean_op am_bop_or) (apply_boolean_op am_bop_and)
        (exec_boolean_value a w) (exec_boolean_value b) (exec_boolean_value (negate b))
        (λ u v. ground arith) (exec_boolean_value-negate b))
  exec_boolean_value-negate (string_comparison op a b) w =
      first_string op (exec_string_value a w) (exec_string_value b)
