-- ===== src/Minzip/DirUtil/Unlinked.antt =====
-- Where `dirUnlinkHierarchy` changes the file system.
use recovery_sdx.Minzip.DirUtil.Below.{
  Within, Asks, Visits, Child, if-Inv, root-Within, is_dots-IsName, child-Visits, give_up-Inv,
  result-Inv,
}
use recovery_sdx.Base.{
  ℕ, zero, suc, ◌-◌, ◌≤◌, ◌≡◌, refl, inl, inr, ◌≢◌, Among, Bool-cases, Bool, true, ◌||◌, Option,
  none, some, Bytes, arith, length,
}
use recovery_sdx.Base.Int.{ℤ, pos, minus_one, is_negative}
use recovery_sdx.Minzip.DirUtil.{
  Calls, Kind, directory, link, other, child, is_dots, give_up, judged, unlink_entry,
  unlink_entries, remove_dir, unlinked_entries, unlink_dir, unlink_kind, dir_unlink_hierarchy,
  path_max,
}

-- It holds through the removal of `root` and of what is below it: of a file, when `lstat` has just
-- said that it is no directory.
pub record Removes {W D : Type 0} (sys : Calls W D) (Inv : W → Type 0) (root : Bytes) : Type 0 where
  pub unlink_keeps :
      (q : Bytes) (k : Kind) (w w' : W)
      → Within root q
      → k ≢ directory
      → sys.lstat q w ≡ (some k, w')
      → Inv w'
      → Inv (sys.unlink q w').1
  pub rmdir_keeps : (q : Bytes) (w : W) → Within root q → Inv w → Inv (sys.rmdir q w).1

module _ {W D : Type 0} (sys : Calls W D) (Inv : W → Type 0) (root : Bytes)
    (asks : Asks sys Inv) where
  module _ (f : Bytes → W → Option ℤ × W) (c : Child sys Inv root asks f) where
    judged-Inv :
        (again : W → Option Bool × W) (o : Option ℤ × W)
        → ((w : W) → Inv w → Inv (again w).1)
        → Inv o.1
        → Inv (judged sys f again o).1
    unfolding judged
    judged-Inv again (none, w) a h = h
    judged-Inv again (some r, w) a h =
        if-Inv sys Inv root asks (is_negative r) (some true, w) _ h
          (a (sys.set_errno (pos 0) w) (asks.set_errno_keeps (pos 0) w h))

    unlink_entry-Inv :
        (again : W → Option Bool × W) (path : Bytes) (o : Option Bytes × W)
        → ((name : Bytes) → o.0 ≡ some name → ¬ Among b'/' name)
        → ((w : W) → Inv w → Inv (again w).1)
        → Visits sys Inv root asks path
        → Inv o.1
        → Inv (unlink_entry sys f again path o).1
    unfolding unlink_entry
    unlink_entry-Inv again path (none, w) s a v h = h
    unlink_entry-Inv again path (some name, w) s a v h = elim (Bool-cases (is_dots name)) [
      | inl t ↦ rw t (a w h)
      | inr t ↦
          let below =
            child-Visits sys Inv root asks path name v (is_dots-IsName name t (s name refl)) in
          rw t (judged-Inv again _ a (c (child path name) w below h))
    ]

    unlink_entries-Inv :
        (n : ℕ) (path : Bytes) (d : D) (w : W)
        → Visits sys Inv root asks path
        → Inv w
        → Inv (unlink_entries sys f n path d w).1
    unfolding unlink_entries
    unlink_entries-Inv zero path d w v h = h
    unlink_entries-Inv (suc n) path d w v h =
        unlink_entry-Inv (unlink_entries sys f n path d) path (sys.readdir d w)
          (asks.listed_names d w) (λ w' k. unlink_entries-Inv n path d w' v k) v
          (asks.readdir_keeps d w h)

  remove_dir-Inv :
      Removes sys Inv root
      → (path : Bytes) (o : ℤ × W) → Visits sys Inv root asks path
      → Inv o.1
      → Inv (remove_dir sys path o).1
  unfolding remove_dir
  remove_dir-Inv removes path (r, w) v h =
      if-Inv sys Inv root asks (is_negative r) (some minus_one, w) _ h
        (result-Inv sys Inv root asks (sys.rmdir path w) (removes.rmdir_keeps path w v h))

  unlinked_entries-Inv :
      Removes sys Inv root
      → (path : Bytes) (d : D) (o : Option Bool × W) → Visits sys Inv root asks path
      → Inv o.1
      → Inv (unlinked_entries sys path d o).1
  unfolding unlinked_entries
  unlinked_entries-Inv removes path d (none, w) v h = h
  unlinked_entries-Inv removes path d (some fail, w) v h =
      if-Inv sys Inv root asks (fail || is_negative (sys.errno w)) (give_up sys d w) _
        (give_up-Inv sys Inv root asks d w h)
        (remove_dir-Inv removes path (sys.closedir d w) v (asks.closedir_keeps d w h))

  unlink_dir-Inv :
      Removes sys Inv root
      → (f : Bytes → W → Option ℤ × W) (n : ℕ) (path : Bytes) (o : Option D × W)
      → Child sys Inv root asks f
      → Visits sys Inv root asks path
      → Inv o.1
      → Inv (unlink_dir sys f n path o).1
  unfolding unlink_dir
  unlink_dir-Inv removes f n path (none, w) c v h = h
  unlink_dir-Inv removes f n path (some d, w) c v h =
      unlinked_entries-Inv removes path d _ v
        (unlink_entries-Inv f c n path d _ v (asks.set_errno_keeps (pos 0) w h))

  unlink_kind-Inv :
      Removes sys Inv root
      → (f : Bytes → W → Option ℤ × W) (n : ℕ) (path : Bytes) (w : W) (o : Option Kind × W)
      → sys.lstat path w ≡ o
      → Child sys Inv root asks f
      → Visits sys Inv root asks path
      → Inv o.1
      → Inv (unlink_kind sys f n path o).1
  unfolding unlink_kind
  unlink_kind-Inv removes f n path w (none, w') e c v h = h
  unlink_kind-Inv removes f n path w (some directory, w') e c v h =
      unlink_dir-Inv removes f n path (sys.opendir path w') c v (asks.opendir_keeps path w' h)
  unlink_kind-Inv removes f n path w (some link, w') e c v h =
      result-Inv sys Inv root asks (sys.unlink path w')
        (removes.unlink_keeps path link w w' v (λ k. ground (arith, k)) e h)
  unlink_kind-Inv removes f n path w (some other, w') e c v h =
      result-Inv sys Inv root asks (sys.unlink path w')
        (removes.unlink_keeps path other w w' v (λ k. ground (arith, k)) e h)

  unlink-Inv :
      Removes sys Inv root
      → (n : ℕ) (path : Bytes) (w : W) → Visits sys Inv root asks path
      → Inv w
      → Inv (dir_unlink_hierarchy sys n path w).1
  unfolding dir_unlink_hierarchy
  unlink-Inv removes zero path w v h = h
  unlink-Inv removes (suc n) path w v h =
      unlink_kind-Inv removes (dir_unlink_hierarchy sys n) n path w (sys.lstat path w) refl
        (λ q w' v' k. unlink-Inv removes n q w' v' k) v (asks.lstat_keeps path w h)

  -- At whatever point a call of `dirUnlinkHierarchy` has come to, returned or not, it has removed
  -- nothing but the path, which `PATH_MAX` must have room for, and paths that go down from it through
  -- names of entries, none of which is "." or ".." or has a slash, as far as the buffer holds them, and
  -- has unlinked only what `lstat` had just said to be no directory: a property of the state that such removals
  -- keep, and all that is asked and listed, still holds.
  pub dir_unlink_hierarchy-Within :
      Removes sys Inv root
      → (n : ℕ) (w : W) → length root ≤ path_max - 1
      → Inv w
      → Inv (dir_unlink_hierarchy sys n root w).1
  dir_unlink_hierarchy-Within removes n w fits h =
      unlink-Inv removes n root w (root-Within root fits) h
