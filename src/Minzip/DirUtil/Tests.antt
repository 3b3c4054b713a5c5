-- ===== src/Minzip/DirUtil/Tests.antt =====
-- Directories made in a list of them, and a directory with a file and a link removed and changed.
use recovery_sdx.Base.{
  subst, sym, ap, get_elem?, ℕ, zero, suc, Among, eq_of_some, ◌≡◌, refl, inl, inr, Bool, true,
  false, ◌||◌, Option, none, some, List, [], ◌∷◌, ◌++◌, Bytes, if◌then◌else◌, codes, starts_with,
  starts_with-append, bytes_eq, arith, Bool-cases,
}
use mathlib.Core.List.{append-nil}
use recovery_sdx.Base.Int.{ℤ, pos, minus_one}
use recovery_sdx.Minzip.DirUtil.{
  Calls, Kind, directory, link, other, dir_create_hierarchy, dir_unlink_hierarchy,
  dir_set_hierarchy_permissions, is_error, make_levels, is_dots, child,
}
use recovery_sdx.Minzip.DirUtil.Above.{ends_in_name, is_above}
use recovery_sdx.Minzip.DirUtil.Below.{Within, Asks, starts_with_trans, starts_with-prefix}
use recovery_sdx.Minzip.DirUtil.Hierarchy.{Holds, dir_create_hierarchy-IsDir}
use recovery_sdx.Minzip.DirUtil.Unlinked.{Removes, dir_unlink_hierarchy-Within}
use recovery_sdx.Minzip.DirUtil.Permissions.{Sets, dir_set_hierarchy_permissions-Within}

-- The paths made, and those above them.
is_dir : Bytes → List Bytes → Bool
is_dir p [] = false
is_dir p (d ∷ ds) = is_above p (d ++ codes "/") || is_dir p ds

abbrev IsDir : Bytes → List Bytes → Type 0
IsDir p w = is_dir p w ≡ true

abbrev maker : Calls (List Bytes) ℕ
unfolding is_dir
maker = record {
  errno = λ w. pos 2;
  set_errno = λ e w. w;
  stat = λ p w. (if is_dir p w then some directory else none, w);
  lstat = λ p w. (if is_dir p w then some directory else none, w);
  mkdir = λ p m w. (pos 0, p ∷ w);
  utime = λ p t w. (pos 0, w);
  unlink = λ p w. (minus_one, w);
  rmdir = λ p w. (minus_one, w);
  chown = λ p u g w. (pos 0, w);
  chmod = λ p m w. (pos 0, w);
  opendir = λ p w. (none, w);
  readdir = λ d w. (none, w);
  closedir = λ d w. (pos 0, w);
}

is_dir-above :
    (q p : Bytes) (w : List Bytes) → is_above q p ≡ true → is_dir p w ≡ true → is_dir q w ≡ true
unfolding is_dir
is_dir-above q p [] a h = ground arith
is_dir-above q p (d ∷ ds) a h = elim (Bool-cases (is_above p (d ++ codes "/"))) [
  | inl t ↦ ground (
    arith,
    starts_with_trans (q ++ codes "/") p (d ++ codes "/") a
        (starts_with-prefix p (codes "/") (d ++ codes "/") t),
  )
  | inr f ↦ ground (arith, is_dir-above q p ds a)
]

found : (p : Bytes) (w w' : List Bytes) → maker.stat p w ≡ (some directory, w') → is_dir p w' ≡ true
unfolding maker
found p w w' e = elim (Bool-cases (is_dir p w)) [
  | inl t ↦ subst (λ x. is_dir p x ≡ true) (ap (λ x. x.1) e) t
  | inr f ↦ absurd (ground (arith, ap (λ x. x.0) (rw f at e)))
]

maker-Holds : Holds maker IsDir
unfolding maker is_dir
maker-Holds = record {
  stat_finds = found;
  mkdir_makes = λ p m w e. ground (
    arith,
    subst (λ x. is_above p x ≡ true) (append-nil (p ++ codes "/"))
        (starts_with-append (p ++ codes "/") []),
  );
  stat_keeps = λ p q w h. h;
  mkdir_keeps = λ p q m w h. ground (arith, h);
  utime_keeps = λ p q t w h. h;
  above = λ q p w n a h. is_dir-above q p w a h;
}

two_levels :
    dir_create_hierarchy maker (codes "/a/b/c.txt") 493 none true []
    ≡ (pos 0, codes "/a/b" ∷ codes "/a" ∷ [])
unfolding dir_create_hierarchy maker is_error make_levels starts_with
two_levels = refl

-- A name without a directory is refused, and so is one in the root.
in_root : (dir_create_hierarchy maker (codes "/c.txt") 493 none true []).0 ≡ minus_one
unfolding dir_create_hierarchy
in_root = refl

dir_create_hierarchy-IsDir_example : IsDir (codes "/a") (codes "/a/b" ∷ codes "/a" ∷ [])
unfolding ends_in_name starts_with
dir_create_hierarchy-IsDir_example =
    dir_create_hierarchy-IsDir maker IsDir maker-Holds 493 none (codes "/a/b/c.txt") true []
      (codes "/a/b" ∷ codes "/a" ∷ []) (codes "/a") two_levels refl (inl refl)

-- What was changed, the last change first, and how much of the directory was listed.
record Log : Type 0 where
  pub listed : ℕ
  pub changed : List Bytes

-- The names in the directory.
abbrev name_at : ℕ → Option Bytes
name_at = get_elem? (codes "." ∷ codes "f" ∷ codes "l" ∷ [])

abbrev kind_of : Bytes → Option Kind
kind_of p =
    if bytes_eq p (codes "/d")
    then some directory
    else if bytes_eq p (codes "/d/f")
    then some other
    else if bytes_eq p (codes "/d/l")
    then some link
    else none

abbrev changes : Bytes → Log → ℤ × Log
changes p w = (pos 0, record w { changed = p ∷ w.changed })

abbrev walker : Calls Log ℕ
walker = record {
  errno = λ w. pos 0;
  set_errno = λ e w. w;
  stat = λ p w. (kind_of p, w);
  lstat = λ p w. (kind_of p, w);
  mkdir = λ p m w. (minus_one, w);
  utime = λ p t w. (minus_one, w);
  unlink = changes;
  rmdir = changes;
  chown = λ p u g. changes p;
  chmod = λ p m w. (pos 0, w);
  opendir = λ p w. (some 0, w);
  readdir = λ d w. (name_at w.listed, record w { listed = suc w.listed });
  closedir = λ d w. (pos 0, w);
}

abbrev root : Bytes
root = codes "/d"

abbrev new : Log
new = record { listed = 0; changed = [] }

abbrev AllWithin : List Bytes → Type 0
AllWithin [] = Unit
AllWithin (p ∷ ps) = Within root p × AllWithin ps

abbrev Confined : Log → Type 0
Confined w = AllWithin w.changed

removed :
    dir_unlink_hierarchy walker 5 root new
    ≡ (some (pos 0), record { listed = 4; changed = root ∷ codes "/d/l" ∷ codes "/d/f" ∷ [] })
unfolding dir_unlink_hierarchy bytes_eq is_dots child
removed = refl

given :
    dir_set_hierarchy_permissions walker 1 2 493 420 5 root new
    ≡ (some (pos 0), record { listed = 4; changed = codes "/d/f" ∷ root ∷ [] })
unfolding dir_set_hierarchy_permissions bytes_eq is_dots child
given = refl

listed_names : (i : ℕ) (name : Bytes) → name_at i ≡ some name → ¬ Among b'/' name
listed_names zero name e m = elim (subst (λ x. Among b'/' x) (sym (eq_of_some e)) m) [
  | inl p ↦ absurd (omega arith)
  | inr k ↦ elim k [ ]
]
listed_names (suc zero) name e m = elim (subst (λ x. Among b'/' x) (sym (eq_of_some e)) m) [
  | inl p ↦ absurd (omega arith)
  | inr k ↦ elim k [ ]
]
listed_names (suc (suc zero)) name e m = elim (subst (λ x. Among b'/' x) (sym (eq_of_some e)) m) [
  | inl p ↦ absurd (omega arith)
  | inr k ↦ elim k [ ]
]
listed_names (suc (suc (suc i))) name e m = absurd (ground (arith, e))

walker-Asks : Asks walker Confined
walker-Asks = record {
  set_errno_keeps = λ e w h. h;
  lstat_keeps = λ q w h. h;
  opendir_keeps = λ q w h. h;
  readdir_keeps = λ d w h. h;
  listed_names = λ d w name e. listed_names w.listed name e;
  closedir_keeps = λ d w h. h;
}

walker-Removes : Removes walker Confined root
walker-Removes = record {
  unlink_keeps = λ q k w w' i n e h. (i, h);
  rmdir_keeps = λ q w i h. (i, h);
}

walker-Sets : Sets walker Confined root 1 2 493 420
walker-Sets = record {
  chown_keeps = λ q k w w' i n e h. (i, h);
  chmod_dir_keeps = λ q w w' i e h. h;
  chmod_file_keeps = λ q w w' i e h. h;
}

dir_unlink_hierarchy-Within_example : Confined (dir_unlink_hierarchy walker 5 root new).1
dir_unlink_hierarchy-Within_example =
    dir_unlink_hierarchy-Within walker Confined root walker-Asks walker-Removes 5 new (omega arith)
      tt

dir_set_hierarchy_permissions-Within_example :
    Confined (dir_set_hierarchy_permissions walker 1 2 493 420 5 root new).1
dir_set_hierarchy_permissions-Within_example =
    dir_set_hierarchy_permissions-Within walker Confined root walker-Asks 1 2 493 420 walker-Sets 5
      new (omega arith) tt
