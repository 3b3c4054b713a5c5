-- ===== src/Minzip/DirUtil/Permissions.antt =====
-- Where `dirSetHierarchyPermissions` changes the file system.
use recovery_sdx.Minzip.DirUtil.Below.{
  Within, Asks, Visits, Child, if-Inv, root-Within, is_dots-IsName, child-Visits, give_up-Inv,
}
use recovery_sdx.Base.{
  ℕ, zero, suc, ◌-◌, ◌≤◌, ◌≡◌, refl, inl, inr, ◌≢◌, Among, Bool, true, false, Option, none, some,
  Bytes, arith, Bool-cases, length,
}
use recovery_sdx.Base.Int.{ℤ, pos, minus_one, is_nonzero}
use recovery_sdx.Minzip.DirUtil.{
  Calls, Kind, directory, link, other, child, is_dots, give_up, errno_of, child_set, set_entry,
  set_entries, closed, set_all, set_dir, set_below, mode_of, set_node, set_kind,
  dir_set_hierarchy_permissions, path_max,
}

-- It holds when `root` and what is below it get the owner and their mode, but for the links.
pub record Sets {W D : Type 0} (sys : Calls W D) (Inv : W → Type 0) (root : Bytes)
    (uid gid dir_mode file_mode : ℕ) : Type 0 where
  pub chown_keeps :
      (q : Bytes) (k : Kind) (w w' : W)
      → Within root q
      → k ≢ link
      → sys.lstat q w ≡ (some k, w')
      → Inv w'
      → Inv (sys.chown q uid gid w').1
  pub chmod_dir_keeps :
      (q : Bytes) (w w' : W)
      → Within root q
      → sys.lstat q w ≡ (some directory, w')
      → Inv (sys.chown q uid gid w').1
      → Inv (sys.chmod q dir_mode (sys.chown q uid gid w').1).1
  pub chmod_file_keeps :
      (q : Bytes) (w w' : W)
      → Within root q
      → sys.lstat q w ≡ (some other, w')
      → Inv (sys.chown q uid gid w').1
      → Inv (sys.chmod q file_mode (sys.chown q uid gid w').1).1

module _ {W D : Type 0} (sys : Calls W D) (Inv : W → Type 0) (root : Bytes)
    (asks : Asks sys Inv) where
  module _ (f : Bytes → W → Option ℤ × W) (c : Child sys Inv root asks f) where
    errno_of-Inv : (r : ℤ) (w : W) → Inv w → Inv (errno_of sys f r w)
    unfolding errno_of
    errno_of-Inv r w h = elim (Bool-cases (is_nonzero r)) [
      | inl t ↦ elim (Bool-cases (is_nonzero (sys.errno w))) [
        | inl k ↦ rw (t, k) h
        | inr k ↦ rw (t, k) (asks.set_errno_keeps minus_one w h)
      ]
      | inr t ↦ rw t (asks.set_errno_keeps (pos 0) w h)
    ]

    child_set-Inv :
        (again : W → Bool × W) (o : Option ℤ × W)
        → ((w : W) → Inv w → Inv (again w).1)
        → Inv o.1
        → Inv (child_set sys f again o).1
    unfolding child_set
    child_set-Inv again (none, w) a h = h
    child_set-Inv again (some r, w) a h = a (errno_of sys f r w) (errno_of-Inv r w h)

    set_entry-Inv :
        (again : W → Bool × W) (path : Bytes) (o : Option Bytes × W)
        → ((name : Bytes) → o.0 ≡ some name → ¬ Among b'/' name)
        → ((w : W) → Inv w → Inv (again w).1)
        → Visits sys Inv root asks path
        → Inv o.1
        → Inv (set_entry sys f again path o).1
    unfolding set_entry
    set_entry-Inv again path (none, w) s a v h = h
    set_entry-Inv again path (some name, w) s a v h = elim (Bool-cases (is_dots name)) [
      | inl t ↦ rw t (a w h)
      | inr t ↦
          let below =
            child-Visits sys Inv root asks path name v (is_dots-IsName name t (s name refl)) in
          rw t (child_set-Inv again _ a (c (child path name) w below h))
    ]

    set_entries-Inv :
        (n : ℕ) (path : Bytes) (d : D) (w : W)
        → Visits sys Inv root asks path
        → Inv w
        → Inv (set_entries sys f n path d w).1
    unfolding set_entries
    set_entries-Inv zero path d w v h = h
    set_entries-Inv (suc n) path d w v h =
        if-Inv sys Inv root asks (is_nonzero (sys.errno w)) (true, w) _ h
          (set_entry-Inv (set_entries sys f n path d) path (sys.readdir d w) (asks.listed_names d w)
            (λ w' k. set_entries-Inv n path d w' v k) v (asks.readdir_keeps d w h))

  closed-Inv : (o : ℤ × W) → Inv o.1 → Inv (closed sys o).1
  unfolding closed
  closed-Inv (r, w) h = h

  set_all-Inv : (d : D) (o : Bool × W) → Inv o.1 → Inv (set_all sys d o).1
  unfolding set_all
  set_all-Inv d (false, w) h = h
  set_all-Inv d (true, w) h =
      if-Inv sys Inv root asks (is_nonzero (sys.errno w)) (give_up sys d w) _
        (give_up-Inv sys Inv root asks d w h)
        (closed-Inv (sys.closedir d w) (asks.closedir_keeps d w h))

  set_dir-Inv :
      (f : Bytes → W → Option ℤ × W) (n : ℕ) (path : Bytes) (o : Option D × W)
      → Child sys Inv root asks f
      → Visits sys Inv root asks path
      → Inv o.1
      → Inv (set_dir sys f n path o).1
  unfolding set_dir
  set_dir-Inv f n path (none, w) c v h = h
  set_dir-Inv f n path (some d, w) c v h =
      set_all-Inv d _ (set_entries-Inv f c n path d _ v (asks.set_errno_keeps (pos 0) w h))

  set_below-Inv :
      (f : Bytes → W → Option ℤ × W) (n : ℕ) (path : Bytes) (k : Kind) (w : W)
      → Child sys Inv root asks f
      → Visits sys Inv root asks path
      → Inv w
      → Inv (set_below sys f n path k w).1
  unfolding set_below
  set_below-Inv f n path directory w c v h =
      set_dir-Inv f n path (sys.opendir path w) c v (asks.opendir_keeps path w h)
  set_below-Inv f n path link w c v h = h
  set_below-Inv f n path other w c v h = h

  module _ (uid gid dir_mode file_mode : ℕ)
      (sets : Sets sys Inv root uid gid dir_mode file_mode) where
    set_node-Inv :
        (f : Bytes → W → Option ℤ × W) (n : ℕ) (path : Bytes) (k : Kind) (w w' : W)
        → Child sys Inv root asks f
        → Visits sys Inv root asks path
        → Inv (sys.chown path uid gid w').1
        → Inv
            (sys.chmod path
              (mode_of sys uid gid dir_mode file_mode k)
              (sys.chown path uid gid w').1).1
        → Inv (set_node sys uid gid dir_mode file_mode f n path k w').1
    unfolding set_node
    set_node-Inv f n path k w w' c v owned changed =
        let w₁ = (sys.chown path uid gid w').1 in
        let o₂ = sys.chmod path (mode_of sys uid gid dir_mode file_mode k) w₁ in
        if-Inv sys Inv root asks (is_nonzero (sys.chown path uid gid w').0) (some minus_one, w₁) _
          owned
          (if-Inv sys Inv root asks (is_nonzero o₂.0) (some minus_one, o₂.1) _ changed
            (set_below-Inv f n path k o₂.1 c v changed))

    set_kind-Inv :
        (f : Bytes → W → Option ℤ × W) (n : ℕ) (path : Bytes) (w : W) (o : Option Kind × W)
        → sys.lstat path w ≡ o
        → Child sys Inv root asks f
        → Visits sys Inv root asks path
        → Inv o.1
        → Inv (set_kind sys uid gid dir_mode file_mode f n path o).1
    unfolding set_kind mode_of
    set_kind-Inv f n path w (none, w') e c v h = h
    set_kind-Inv f n path w (some link, w') e c v h = h
    set_kind-Inv f n path w (some directory, w') e c v h =
        let owned = sets.chown_keeps path directory w w' v (λ k. ground (arith, k)) e h in
        set_node-Inv f n path directory w w' c v owned (sets.chmod_dir_keeps path w w' v e owned)
    set_kind-Inv f n path w (some other, w') e c v h =
        let owned = sets.chown_keeps path other w w' v (λ k. ground (arith, k)) e h in
        set_node-Inv f n path other w w' c v owned (sets.chmod_file_keeps path w w' v e owned)

    set-Inv :
        (n : ℕ) (path : Bytes) (w : W)
        → Visits sys Inv root asks path
        → Inv w
        → Inv (dir_set_hierarchy_permissions sys uid gid dir_mode file_mode n path w).1
    unfolding dir_set_hierarchy_permissions
    set-Inv zero path w v h = h
    set-Inv (suc n) path w v h =
        set_kind-Inv (dir_set_hierarchy_permissions sys uid gid dir_mode file_mode n) n path w
          (sys.lstat path w) refl (λ q w' v' k. set-Inv n q w' v' k) v (asks.lstat_keeps path w h)

    -- At whatever point a call of `dirSetHierarchyPermissions` has come to, returned or not, it has
    -- changed nothing but the path, which `PATH_MAX` must have room for, and paths that go down from
    -- it through names of entries, none of which is "." or ".." or has a slash, as far as the buffer
    -- holds them; no link among them, and each by the owner, and the mode of a directory or a file, that `lstat` had
    -- just said it is: a property of the state that such changes keep, and all that is asked and
    -- listed, still holds.
    pub dir_set_hierarchy_permissions-Within :
        (n : ℕ) (w : W)
        → length root ≤ path_max - 1
        → Inv w
        → Inv (dir_set_hierarchy_permissions sys uid gid dir_mode file_mode n root w).1
    dir_set_hierarchy_permissions-Within n w fits h = set-Inv n root w (root-Within root fits) h
