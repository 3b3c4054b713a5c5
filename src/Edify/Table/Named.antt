-- ===== src/Edify/Table/Named.antt =====
-- What a search in the table of functions finds.
use mathlib.Core.List.{append_assoc, append-nil}
use recovery_sdx.Base.{
  ◌≡◌, refl, sym, ap, ◌∙◌, subst, inl, inr, Bool, true, false, not, ◌&&◌, ◌||◌, Option, none, some,
  List, [], ◌∷◌, ◌++◌, Bytes, if◌then◌else◌, bytes_eq, bytes_eq_iff, arith, Bool-cases,
  Option-cases, Among,
}
use recovery_sdx.Base.Int.{is_nonzero}
use recovery_sdx.Edify.Expr.{Function}
use recovery_sdx.Edify.Table.{
  NamedFunction, FunctionTable, Library, no_functions, register_function, register_each,
  fn_entry_compare, finish_registration, find_function,
}

-- What the C library promises: `strcmp` is zero for equal strings only, and `bsearch`, in an array
-- that `qsort` has sorted, gives an entry that compares equal to the key, if there is one.
pub record IsLibrary (lib : Library) : Type 0 where
  pub strcmp_eq : (a b : Bytes) → is_nonzero (lib.strcmp a b) ≡ false → a ≡ b
  pub strcmp_refl : (a : Bytes) → is_nonzero (lib.strcmp a a) ≡ false
  pub bsearch_finds :
      (name : Bytes) (es : List NamedFunction) (e : NamedFunction)
      → lib.bsearch (λ x. lib.strcmp name x.name) (lib.qsort (fn_entry_compare lib) es) ≡ some e
      → Among e es × (is_nonzero (lib.strcmp name e.name) ≡ false)
  pub bsearch_misses :
      (name : Bytes) (es : List NamedFunction) (e : NamedFunction)
      → lib.bsearch (λ x. lib.strcmp name x.name) (lib.qsort (fn_entry_compare lib) es) ≡ none
      → Among e es
      → is_nonzero (lib.strcmp name e.name) ≡ true

-- The function of a name, in a list of names with their functions.
unfoldable pub function_of : Bytes → List (Bytes × Function) → Option Function
function_of name [] = none
function_of name ((k, f) ∷ fs) =
    let rest = function_of name fs in if bytes_eq name k then some f else rest

unfoldable pub mentions : Bytes → List (Bytes × Function) → Bool
mentions name [] = false
mentions name ((k, f) ∷ fs) = bytes_eq name k || mentions name fs

-- No name stands there twice.
unfoldable pub distinct : List (Bytes × Function) → Bool
unfolding mentions
distinct [] = true
distinct ((k, f) ∷ fs) = not (mentions k fs) && distinct fs

unfoldable pub entries_of : List (Bytes × Function) → List NamedFunction
entries_of [] = []
entries_of ((k, f) ∷ fs) = record { name = k; function = f } ∷ entries_of fs

register_each-entries :
    (fs : List (Bytes × Function)) (t : FunctionTable)
    → (register_each fs t).fn_table ≡ t.fn_table ++ entries_of fs
unfolding register_each entries_of
register_each-entries [] t = sym (append-nil t.fn_table)
register_each-entries ((k, f) ∷ fs) t =
    register_each-entries fs (register_function k f t)
    ∙ append_assoc t.fn_table (record { name = k; function = f } ∷ []) (entries_of fs)

Among-mentions :
    (name : Bytes) (e : NamedFunction) (fs : List (Bytes × Function))
    → Among e (entries_of fs)
    → name ≡ e.name
    → mentions name fs ≡ true
unfolding entries_of mentions
Among-mentions name e [] h n = absurd h
Among-mentions name e ((k, f) ∷ fs) (inl same) n =
    ground (arith, (bytes_eq_iff name k).1 (n ∙ ap (λ x. x.name) same))
Among-mentions name e ((k, f) ∷ fs) (inr h) n = ground (arith, Among-mentions name e fs h n)

pub function_of-found :
    (name : Bytes) (e : NamedFunction) (fs : List (Bytes × Function))
    → distinct fs ≡ true
    → Among e (entries_of fs)
    → name ≡ e.name
    → function_of name fs ≡ some e.function
unfolding entries_of function_of distinct
function_of-found name e [] d h n = absurd h
function_of-found name e ((k, f) ∷ fs) d (inl same) n =
    rw ((bytes_eq_iff name k).1 (n ∙ ap (λ x. x.name) same)) (ap (λ x. some x.function) (sym same))
function_of-found name e ((k, f) ∷ fs) d (inr h) n = elim (Bool-cases (bytes_eq name k)) [
  | inl t ↦
      let there =
        subst (λ x. mentions x fs ≡ true) ((bytes_eq_iff name k).0 t)
          (Among-mentions name e fs h n) in
      absurd (ground (arith, d, there))
  | inr u ↦ rw u (function_of-found name e fs (ground (arith, d)) h n)
]

function_of-missed :
    (name : Bytes) (fs : List (Bytes × Function))
    → ((e : NamedFunction) → Among e (entries_of fs) → bytes_eq name e.name ≡ false)
    → function_of name fs ≡ none
unfolding entries_of function_of
function_of-missed name [] h = refl
function_of-missed name ((k, f) ∷ fs) h =
    rw (h (record { name = k; function = f }) (inl refl))
      (function_of-missed name fs (λ e a. h e (inr a)))

module _ (lib : Library) (is : IsLibrary lib) where
  missed : (name k : Bytes) → is_nonzero (lib.strcmp name k) ≡ true → bytes_eq name k ≡ false
  missed name k h = elim (Bool-cases (bytes_eq name k)) [
    | inl t ↦
        let zero_here =
          subst (λ x. is_nonzero (lib.strcmp name x) ≡ false) ((bytes_eq_iff name k).0 t)
            (is.strcmp_refl name) in
        absurd (ground (arith, h, zero_here))
    | inr f ↦ f
  ]

  -- Of functions with different names that are registered, each is found by its name, and no other
  -- name is found.
  pub find_function-registered :
      (fs : List (Bytes × Function)) (name : Bytes)
      → distinct fs ≡ true
      → find_function lib name (finish_registration lib (register_each fs no_functions))
        ≡ function_of name fs
  unfolding find_function finish_registration
  find_function-registered fs name d =
      rw (register_each-entries fs no_functions)
        (elim (Option-cases (
          lib.bsearch (λ x. lib.strcmp name x.name)
            (lib.qsort (fn_entry_compare lib) (entries_of fs)))) [
              | inl n ↦ rw n (
                  sym (
                    function_of-missed name fs
                      (λ e a. missed name e.name (is.bsearch_misses name (entries_of fs) e n a))))
              | inr (e, found) ↦
                  let (among, same) = is.bsearch_finds name (entries_of fs) e found in
                  rw found
                    (sym (function_of-found name e fs d among (is.strcmp_eq name e.name same)))
            ])
