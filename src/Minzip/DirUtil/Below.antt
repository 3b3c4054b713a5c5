-- ===== src/Minzip/DirUtil/Below.antt =====
-- The paths that `dirUnlinkHierarchy` and `dirSetHierarchyPermissions` go into.
use mathlib.Core.List.{append_assoc}
use recovery_sdx.Base.{
  ℕ, zero, suc, ◌-◌, ◌≤◌, ◌≡◌, ◌≢◌, refl, sym, ap, ◌∙◌, Bool, true, false, Option, some, List, [],
  ◌∷◌, ◌++◌, Bytes, if◌then◌else◌, starts_with, codes, bytes_eq_iff, arith, length, take, Among,
}
use recovery_sdx.Base.Int.{ℤ}
use recovery_sdx.Minzip.DirUtil.{Calls, child, is_dots, give_up, result, path_max}

-- The name of an entry: not "." and not "..", and without a slash.
abbrev pub IsName : Bytes → Type 0
IsName name = (name ≢ codes ".") × (name ≢ codes "..") × (¬ Among b'/' name)

abbrev pub AllNames : List Bytes → Type 0
AllNames [] = Unit
AllNames (n ∷ ns) = IsName n × AllNames ns

-- The path that goes down from the root through the names, the last one first.
abbrev pub down : Bytes → List Bytes → Bytes
down root [] = root
down root (n ∷ ns) = down root ns ++ codes "/" ++ n

-- The path itself, or one that goes down from it through names of entries, as far as a buffer of
-- `PATH_MAX` bytes holds it.
abbrev pub Within : Bytes → Bytes → Type 0
Within root q = (ns : List Bytes) × AllNames ns × (q ≡ take (path_max - 1) (down root ns))

pub starts_with-prefix : (p r q : Bytes) → starts_with (p ++ r) q ≡ true → starts_with p q ≡ true
unfolding starts_with
starts_with-prefix [] r q h = refl
starts_with-prefix (x ∷ p) r [] h = ground arith
starts_with-prefix (x ∷ p) r (y ∷ q) h = ground (arith, starts_with-prefix p r q)

pub starts_with_trans :
    (a b c : Bytes) → starts_with a b ≡ true → starts_with b c ≡ true → starts_with a c ≡ true
unfolding starts_with
starts_with_trans [] b c h k = refl
starts_with_trans (x ∷ a) [] c h k = ground arith
starts_with_trans (x ∷ a) (y ∷ b) [] h k = ground arith
starts_with_trans (x ∷ a) (y ∷ b) (z ∷ c) h k = ground (arith, starts_with_trans a b c)

take-short : (n : ℕ) (s : Bytes) → length s ≤ n → take n s ≡ s
take-short zero [] h = refl
take-short zero (c ∷ s) h = absurd (omega arith)
take-short (suc n) [] h = refl
take-short (suc n) (c ∷ s) h = ap (λ x. c ∷ x) (take-short n s (omega arith))

-- What is cut off twice is cut off once.
take-cut : (n : ℕ) (a b : Bytes) → take n (take n a ++ b) ≡ take n (a ++ b)
take-cut zero a b = refl
take-cut (suc n) [] b = refl
take-cut (suc n) (c ∷ a) b = ap (λ x. c ∷ x) (take-cut n a b)

pub root-Within : (root : Bytes) → length root ≤ path_max - 1 → Within root root
root-Within root h = ([], tt, sym (take-short (path_max - 1) root h))

cut-child :
    (n : ℕ) (a q name : Bytes)
    → q ≡ take n a
    → take n (q ++ codes "/" ++ name) ≡ take n (a ++ codes "/" ++ name)
cut-child n a q name e =
    ap (λ x. take n (x ++ codes "/" ++ name)) e
    ∙ ap (take n) (append_assoc (take n a) (codes "/") name)
    ∙ take-cut n a (codes "/" ++ name)
    ∙ ap (take n) (sym (append_assoc a (codes "/") name))

pub is_dots-IsName : (name : Bytes) → is_dots name ≡ false → ¬ Among b'/' name → IsName name
unfolding is_dots
is_dots-IsName name t s = (
  λ e. ground (arith, t, (bytes_eq_iff name (codes ".")).1 e),
  λ e. ground (arith, t, (bytes_eq_iff name (codes "..")).1 e),
  s,
)

-- A property of the state that holds whatever is asked and listed; and no name that is listed has a
-- slash in it.
pub record Asks {W D : Type 0} (sys : Calls W D) (Inv : W → Type 0) : Type 0 where
  pub set_errno_keeps : (e : ℤ) (w : W) → Inv w → Inv (sys.set_errno e w)
  pub lstat_keeps : (q : Bytes) (w : W) → Inv w → Inv (sys.lstat q w).1
  pub opendir_keeps : (q : Bytes) (w : W) → Inv w → Inv (sys.opendir q w).1
  pub readdir_keeps : (d : D) (w : W) → Inv w → Inv (sys.readdir d w).1
  pub listed_names :
      (d : D) (w : W) (name : Bytes) → (sys.readdir d w).0 ≡ some name → ¬ Among b'/' name
  pub closedir_keeps : (d : D) (w : W) → Inv w → Inv (sys.closedir d w).1

module _ {W D : Type 0} (sys : Calls W D) (Inv : W → Type 0) (root : Bytes)
    (asks : Asks sys Inv) where
  pub if-Inv :
      {A : Type 0} (b : Bool) (x y : A × W) → Inv x.1 → Inv y.1 → Inv (if b then x else y).1
  if-Inv true x y h k = h
  if-Inv false x y h k = k

  -- A path that the functions go into.
  abbrev pub Visits : Bytes → Type 0
  Visits q = Within root q

  -- What is done by the call for an entry keeps the property.
  abbrev pub Child : (Bytes → W → Option ℤ × W) → Type 0
  Child f = (q : Bytes) (w : W) → Visits q → Inv w → Inv (f q w).1

  -- A name that `snprintf` cuts off still stands below the directory, or is the directory.
  pub child-Visits : (path name : Bytes) → Visits path → IsName name → Visits (child path name)
  unfolding child
  child-Visits path name (ns, all, e) n =
      (name ∷ ns, (n, all), cut-child (path_max - 1) (down root ns) path name e)

  pub give_up-Inv : (d : D) (w : W) → Inv w → Inv (give_up sys d w).1
  unfolding give_up
  give_up-Inv d w h = asks.set_errno_keeps (sys.errno w) _ (asks.closedir_keeps d w h)

  pub result-Inv : (o : ℤ × W) → Inv o.1 → Inv (result sys o).1
  unfolding result
  result-Inv (r, w) h = h
