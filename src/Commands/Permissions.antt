-- ===== src/Commands/Permissions.antt =====
-- The paths behind the first one that `set_perm` is given.
use recovery_sdx.Base.{
  ℕ, zero, suc, ◌-◌, ◌≤◌, ◌<◌, ◌≡◌, refl, false, List, [], ◌∷◌, ◌++◌, Bytes, length, ltb, get_or,
  arith, length-append,
}
use recovery_sdx.Os.{Os}
use recovery_sdx.Commands.Device.{System, cmd_set_perm, numbers, min_args}

get_or-append :
    (xs ys : List Bytes) (i : ℕ) → i < length xs → get_or (xs ++ ys) i [] ≡ get_or xs i []
get_or-append [] ys i h = absurd (omega arith)
get_or-append (x ∷ xs) ys zero h = refl
get_or-append (x ∷ xs) ys (suc i) h = get_or-append xs ys i (omega arith)

module _ {W : Type 0} (os : Os W) (system : System W) where
  numbers-append :
      (n : ℕ) (xs ys : List Bytes)
      → n ≤ length xs
      → numbers os system n (xs ++ ys) ≡ numbers os system n xs
  unfolding numbers
  numbers-append zero xs ys h = refl
  numbers-append (suc n) [] ys h = absurd (omega arith)
  numbers-append (suc n) (x ∷ xs) ys h = rw (numbers-append n xs ys (omega arith)) refl

  min_args-pos : (name : Bytes) → 0 < min_args os system name
  unfolding min_args
  min_args-pos name = ground arith

  -- With enough arguments, further paths make no difference to `set_perm` and `set_perm_recursive`: only
  -- the first path is handled.
  pub cmd_set_perm-append :
      (name : Bytes) (args more : List Bytes) (w : W)
      → min_args os system name ≤ length args
      → cmd_set_perm os system name (args ++ more) w ≡ cmd_set_perm os system name args w
  unfolding cmd_set_perm
  cmd_set_perm-append name args more w h =
      let some_args = min_args-pos name in
      let long : ltb (length (args ++ more)) (min_args os system name) ≡ false =
        ground (arith, length-append args more) in
      let enough : ltb (length args) (min_args os system name) ≡ false = ground arith in
      rw
        (
          long,
          enough,
          numbers-append (min_args os system name - 1) args more (omega arith),
          get_or-append args more (min_args os system name - 1) (omega (arith, some_args)),
        )
        refl
