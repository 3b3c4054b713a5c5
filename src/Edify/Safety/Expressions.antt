-- ===== src/Edify/Safety/Expressions.antt =====
-- Expressions whose functions get the arguments they read, and what evaluating one leaves behind.
use recovery_sdx.Base.{
  Bool, ℕ, suc, ◌≡◌, ◌≤◌, refl, sym, subst, ap, Bool, true, ◌&&◌, List, Bytes, leb, length, arith,
  &&-eq-true,
}
use recovery_sdx.Edify.Expr.{State, M, Arg, Expr, Exprs, node, nil, cons}
use recovery_sdx.Edify.Functions.{start_of, end_of, evaluate, arguments}
use recovery_sdx.Edify.Safety.{accepts, Outcome, Safe}
use recovery_sdx.Edify.Safety.Functions.{SafeArgs, apply-Safe}

count : Exprs → ℕ
count nil = 0
count (cons x xs) = suc (count xs)

module _ (app_accepts : ℕ → Bytes → ℕ → Bool) where
  -- The text of every part lies inside a script of `n` bytes.
  unfoldable mutual
    unfolding count accepts

    pub well_formed : ℕ → Expr → Bool
    well_formed n (node f name args s e) =
        (leb s e && leb e n) && (accepts app_accepts f name (count args) && all_well_formed n args)

    pub all_well_formed : ℕ → Exprs → Bool
    all_well_formed n nil = true
    all_well_formed n (cons x xs) = well_formed n x && all_well_formed n xs

module _ {W : Type 0} (app_accepts : ℕ → Bytes → ℕ → Bool) (app : ℕ → Bytes → List (Arg W) → M W)
    (script : Bytes)
    (app-Safe : (f : ℕ) (name : Bytes) (args : List (Arg W))
      → SafeArgs script args
      → app_accepts f name (length args) ≡ true
      → Safe script (app f name args)) where
  length-arguments : (xs : Exprs) → length (arguments app xs) ≡ count xs
  unfolding arguments count
  length-arguments nil = refl
  length-arguments (cons x xs) = ap suc (length-arguments xs)

  spans :
      (x : Expr)
      → well_formed app_accepts (length script) x ≡ true
      → (start_of x ≤ end_of x) × (end_of x ≤ length script)
  unfolding start_of end_of well_formed
  spans (node f name args s e) h = (ground arith, ground arith)

  mutual
    unfolding evaluate arguments well_formed

    safe :
        (x : Expr) → well_formed app_accepts (length script) x ≡ true → Safe script (evaluate app x)
    safe (node f name args s e) h =
        let (h₁, h₂) = &&-eq-true _ _ h in
        let (h₃, h₄) = &&-eq-true _ _ h₂ in
        apply-Safe app_accepts app app-Safe f name (arguments app args) (all_safe args h₄)
          (subst (λ n. accepts app_accepts f name n ≡ true) (sym (length-arguments args)) h₃)

    all_safe :
        (xs : Exprs)
        → all_well_formed app_accepts (length script) xs ≡ true
        → SafeArgs script (arguments app xs)
    all_safe nil h = tt
    all_safe (cons x xs) h =
        let (h₁, h₂) = &&-eq-true _ _ h in
        (
          record { run = safe x h₁; starts = (spans x h₁).0; stops = (spans x h₁).1 },
          all_safe xs h₂,
        )

-- Let every function of an expression be given the arguments it reads, let every part's text lie
-- inside the script, and let the registered functions keep the same rules when they get as many
-- arguments as they accept. Then evaluating the
-- expression reads nothing out of bounds, leaves the script as it was, takes back nothing that was
-- printed, and a null result leaves an error message.
pub evaluate-Outcome :
    {W : Type 0}
    → (app_accepts : ℕ → Bytes → ℕ → Bool) (app : ℕ → Bytes → List (Arg W) → M W) (script : Bytes)
    → ((f : ℕ) (name : Bytes) (args : List (Arg W))
        → SafeArgs script args
        → app_accepts f name (length args) ≡ true
        → Safe script (app f name args))
    → (x : Expr) (s : State W) → s.script ≡ script
    → well_formed app_accepts (length script) x ≡ true
    → Outcome s (evaluate app x s)
evaluate-Outcome app_accepts app script app-Safe x s e h =
    safe app_accepts app script app-Safe x h s e
