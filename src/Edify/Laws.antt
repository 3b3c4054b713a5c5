-- ===== src/Edify/Laws.antt =====
-- What the operators of edify/expr.c compute.
use recovery_sdx.Base.{
  ℕ, arith, ◌≡◌, refl, not, List, [], ◌∷◌, ltb, codes, Bytes, if◌then◌else◌, some,
}
use recovery_sdx.Base.Int.{pos}
use recovery_sdx.Edify.Strings.{boolean_string, of_bool}
use recovery_sdx.Edify.Strings.Decimal.{IsNumeral, place_value, strtol-place_value}
use recovery_sdx.Edify.Expr.{
  State, Result, value, null, fault, M, pass, ret, Arg, Function, Expr, node, nil, cons,
  logical_and_fn, logical_or_fn, logical_not_fn,
}
use recovery_sdx.Edify.Functions.{
  with_two, logical_and, logical_or, logical_not, less_than, as_int, int_less, less_than_int,
  greater_than_int, evaluate, arguments, apply,
}

as_int-place_value : (s : Bytes) → IsNumeral s → as_int s ≡ some (pos (place_value s))
unfolding as_int
as_int-place_value [] h = ground (arith, h.written)
as_int-place_value (c ∷ s) h = rw (strtol-place_value (c ∷ s) h)

-- Arguments that evaluate to decimal numerals below 2^31 compare as their values.
pub less_than_int-place_value :
    {W : Type 0}
    → (a b : Arg W) (l r : Bytes) (s s₁ s₂ : State W) → IsNumeral l
    → IsNumeral r
    → a.run s ≡ (value l, s₁)
    → b.run s₁ ≡ (value r, s₂)
    → less_than_int (a ∷ b ∷ []) s ≡ (value (of_bool (ltb (place_value l) (place_value r))), s₂)
unfolding less_than_int less_than int_less
less_than_int-place_value a b l r s s₁ s₂ h k e d =
    rw (e, d, as_int-place_value l h, as_int-place_value r k)

-- Of two arguments, the second is evaluated first; where they evaluate to decimal numerals below
-- 2^31, the answer is whether the first is the greater one.
pub greater_than_int-place_value :
    {W : Type 0}
    → (a b : Arg W) (l r : Bytes) (s s₁ s₂ : State W) → IsNumeral l
    → IsNumeral r
    → b.run s ≡ (value r, s₁)
    → a.run s₁ ≡ (value l, s₂)
    → greater_than_int (a ∷ b ∷ []) s ≡ (value (of_bool (ltb (place_value r) (place_value l))), s₂)
unfolding greater_than_int
greater_than_int-place_value a b l r s s₁ s₂ h k e d =
    less_than_int-place_value b a r l s s₁ s₂ k h e d

abbrev pub unary : Function → Expr → Expr
unary f x = node f (codes "(operator)") (cons x nil) 0 0

abbrev pub binary : Function → Expr → Expr → Expr
binary f x y = node f (codes "(operator)") (cons x (cons y nil)) 0 0

-- `not` of a result, as `logical_not` takes it on.
abbrev negated : {W : Type 0} → Result × State W → Result × State W
negated x = pass x (λ v. ret (of_bool (not (boolean_string v))))

not-and :
    {W : Type 0}
    → (x : Result × State W) (r : M W)
    → negated (pass x (λ v. if boolean_string v then r else ret v))
      ≡ pass (negated x) (λ v. if boolean_string v then ret v else λ s. negated (r s))
not-and (value [], s) r = refl
not-and (value (c ∷ v), s) r = refl
not-and (null, s) r = refl
not-and (fault, s) r = refl

not-or :
    {W : Type 0}
    → (x : Result × State W) (r : M W)
    → negated (pass x (λ v. if boolean_string v then ret v else r))
      ≡ pass (negated x) (λ v. if boolean_string v then (λ s. negated (r s)) else ret v)
not-or (value [], s) r = refl
not-or (value (c ∷ v), s) r = refl
not-or (null, s) r = refl
not-or (fault, s) r = refl

module _ {W : Type 0} (app : ℕ → Bytes → List (Arg W) → M W) where
  -- The laws of De Morgan hold for every two expressions, with their failures, their output and
  -- the expressions that are not evaluated.
  pub de_morgan :
      (x y : Expr) (s : State W)
      → (evaluate app (unary logical_not_fn (binary logical_and_fn x y)) s
          ≡ evaluate app (binary logical_or_fn (unary logical_not_fn x) (unary logical_not_fn y)) s)
        × (evaluate app (unary logical_not_fn (binary logical_or_fn x y)) s
            ≡ evaluate app
                (binary logical_and_fn (unary logical_not_fn x) (unary logical_not_fn y))
                s)
  unfolding evaluate arguments apply with_two logical_not logical_and logical_or
  de_morgan x y s =
      (not-and (evaluate app x s) (evaluate app y), not-or (evaluate app x s) (evaluate app y))
