-- ===== src/Edify/Safety.antt =====
-- What a run of edify/expr.c leaves behind, for expressions whose functions get the arguments
-- they read.
pub mod Functions
pub mod Expressions
use recovery_sdx.Base.{
  ℕ, ◌≡◌, refl, sym, ap, ◌∙◌, Bool, true, false, not, ◌&&◌, ◌||◌, Option, none, some, List, [], ◌∷◌,
  ◌++◌, Bytes, leb, if◌then◌else◌, length, &&-eq-true, Bool-cases,
}
use recovery_sdx.Edify.Strings.{boolean_string, of_bool}
use recovery_sdx.Edify.Expr.{
  State, Result, value, null, fault, M, pass, ◌>>=◌, ret, undefined, abort_with, Arg, Function,
  literal, concat_fn, if_else_fn, abort_fn, assert_fn, sleep_fn, stdout_fn, logical_and_fn,
  logical_or_fn, logical_not_fn, substring_fn, equality_fn, inequality_fn, sequence_fn,
  less_than_int_fn, greater_than_int_fn, registered, Expr, Exprs, node, nil, cons,
}
use recovery_sdx.Edify.Functions.{
  concat_args, if_else, aborted, abort_args, assert_failed, assert_args, do_sleep, sleep_args,
  print, stdout_args, with_two, logical_and, logical_or, logical_not, substring, equality,
  inequality, sequence, less_than, less_than_int, greater_than_int, apply, start_of, end_of,
  evaluate, arguments,
}
use mathlib.Core.List.{append_assoc, append-nil}

-- Whether a function of the table finds every argument it reads among `n` of them; for the
-- registered functions, `app_accepts` says so, of the name they are called by.
module _ (app_accepts : ℕ → Bytes → ℕ → Bool) where
  unfoldable pub accepts : Function → Bytes → ℕ → Bool
  accepts sleep_fn name n = leb 1 n
  accepts logical_not_fn name n = leb 1 n
  accepts logical_and_fn name n = leb 2 n
  accepts logical_or_fn name n = leb 2 n
  accepts substring_fn name n = leb 2 n
  accepts equality_fn name n = leb 2 n
  accepts inequality_fn name n = leb 2 n
  accepts sequence_fn name n = leb 2 n
  accepts (registered f) name n = app_accepts f name n
  accepts f name n = true

-- A null result, or a string; never a read out of bounds.
abbrev pub Ends : {W : Type 0} → Result → State W → Type 0
Ends (value v) s = Unit
Ends null s = (msg : Bytes) × (s.errmsg ≡ some msg)
Ends fault s = ⊥

pub record Outcome {W : Type 0} (s : State W) (r : Result × State W) : Type 0 where
  pub script_same : r.1.script ≡ s.script
  pub printed : Bytes
  pub out_grows : r.1.out ≡ s.out ++ printed
  pub ends : Ends r.0 r.1

abbrev pub Safe : {W : Type 0} → Bytes → M W → Type 0
Safe {W = W} script m = (s : State W) → s.script ≡ script → Outcome s (m s)

Unchanged-Outcome : {W : Type 0} → (s : State W) (v : Bytes) → Outcome s (value v, s)
Unchanged-Outcome s v = record {
  script_same = refl;
  printed = [];
  out_grows = sym (append-nil s.out);
  ends = tt;
}

pub pass-Outcome :
    {W : Type 0}
    → (s : State W) (x : Result × State W) (f : Bytes → M W) → Outcome s x
    → ((v : Bytes) (s' : State W) → s'.script ≡ s.script → Outcome s' (f v s'))
    → Outcome s (pass x f)
pass-Outcome s (value v, s') f o k = record {
  script_same = p.script_same ∙ o.script_same;
  printed = o.printed ++ p.printed;
  out_grows =
      p.out_grows ∙ ap (λ l. l ++ p.printed) o.out_grows ∙ append_assoc s.out o.printed p.printed;
  ends = p.ends;
}
  where
    p : Outcome s' (f v s')
    p = k v s' o.script_same
pass-Outcome s (null, s') f o k = o
pass-Outcome s (fault, s') f o k = elim o.ends [ ]

module _ {W : Type 0} {script : Bytes} where
  pub bind-Safe :
      (m : M W) (f : Bytes → M W)
      → Safe script m
      → ((v : Bytes) → Safe script (f v))
      → Safe script (m >>= f)
  bind-Safe m f h k s e = pass-Outcome s (m s) f (h s e) (λ v s' e'. k v s' (e' ∙ e))

  pub ret-Safe : (v : Bytes) → Safe {W = W} script (ret v)
  ret-Safe v s e = Unchanged-Outcome s v

  pub abort_with-Safe : (msg : Bytes) → Safe {W = W} script (abort_with msg)
  abort_with-Safe msg s e = record {
    script_same = refl;
    printed = [];
    out_grows = sym (append-nil s.out);
    ends = (msg, refl);
  }

  pub if-Safe :
      (b : Bool) (m n : M W) → Safe script m → Safe script n → Safe script (if b then m else n)
  if-Safe true m n h k = h
  if-Safe false m n h k = k
