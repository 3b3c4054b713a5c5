-- ===== src/Edify/Tests.antt =====
-- The functions of edify/expr.c on small scripts.
use recovery_sdx.Base.{true, ℕ, ◌≡◌, refl, none, some, List, [], Bytes, codes, arith}
use recovery_sdx.Edify.Strings.Decimal.{IsNumeral, all_digits, place_value}
use recovery_sdx.Edify.Expr.{
  State, null, fault, M, ret, Arg, Expr, node, nil, cons, logical_and_fn, logical_or_fn,
  logical_not_fn, literal, assert_fn, sleep_fn, abort_with,
}
use recovery_sdx.Edify.Functions.{apply, assert_args, sleep_args, evaluate}
use recovery_sdx.Edify.Safety.{Outcome, Safe, abort_with-Safe}
use recovery_sdx.Edify.Safety.Functions.{SafeArgs}
use recovery_sdx.Edify.Safety.Expressions.{well_formed, evaluate-Outcome}
use recovery_sdx.Edify.Laws.{unary, binary, de_morgan}

-- `assert(1 < 2, print)`: no registered function is known.
abbrev unknown : ℕ → Bytes → List (Arg ℕ) → M ℕ
unknown f name args = abort_with (codes "unknown")

unknown-Safe :
    (f : ℕ) (name : Bytes) (args : List (Arg ℕ))
    → SafeArgs (codes "assert(a)") args
    → true ≡ true
    → Safe (codes "assert(a)") (unknown f name args)
unknown-Safe f name args h e = abort_with-Safe (codes "unknown")

abbrev word : Bytes → Expr
word w = node literal w nil 7 8

abbrev start : State ℕ
start = record { script = codes "assert(a)"; errmsg = none; out = []; sleeps = []; cookie = 0 }

abbrev assert_blank : Expr
assert_blank = node assert_fn (codes "assert") (cons (word (codes "a")) (cons (word []) nil)) 0 9

blank_run :
    evaluate unknown assert_blank start
    ≡ (null, record start { errmsg = some (codes "assert failed: a") })
unfolding evaluate apply assert_args
blank_run = refl

evaluate-Outcome_example : Outcome start (evaluate unknown assert_blank start)
unfolding well_formed
evaluate-Outcome_example =
    evaluate-Outcome (λ f name n. true) unknown (codes "assert(a)") unknown-Safe assert_blank start
      refl refl

de_morgan_example :
    (evaluate unknown (unary logical_not_fn (binary logical_and_fn (word []) (word []))) start
      ≡ evaluate unknown
          (binary logical_or_fn (unary logical_not_fn (word [])) (unary logical_not_fn (word [])))
          start)
    × (evaluate unknown (unary logical_not_fn (binary logical_or_fn (word []) (word []))) start
        ≡ evaluate unknown
            (binary logical_and_fn
              (unary logical_not_fn (word []))
              (unary logical_not_fn (word [])))
            start)
de_morgan_example = de_morgan unknown (word []) (word []) start

abbrev number : Bytes → Arg ℕ
number n = record { run = ret n; start = 0; end_ = 0 }

nine-IsNumeral : IsNumeral (codes "9")
unfolding all_digits place_value
nine-IsNumeral = record { written = refl; digits = refl; held = omega arith }

ten-IsNumeral : IsNumeral (codes "10")
unfolding all_digits place_value
ten-IsNumeral = record { written = refl; digits = refl; held = omega arith }

-- With no argument, `sleep` reads one out of bounds.
sleep_without : evaluate unknown (node sleep_fn (codes "sleep") nil 0 7) start ≡ (fault, start)
unfolding evaluate apply sleep_args
sleep_without = refl
