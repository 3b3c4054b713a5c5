-- ===== src/Minzip/DirUtil/Hierarchy.antt =====
-- What `dirCreateHierarchy` has made when it returns zero.
use mathlib.Core.List.{append-nil, append_assoc}
use recovery_sdx.Minzip.DirUtil.Above.{
  ends_in_name, is_above, starts_with-snoc, snoc_inj, ends_at_slash, above_nothing, asked-is_above,
}
use recovery_sdx.Base.{
  Option-cases, ℕ, ◌≡◌, refl, sym, ap, ◌∙◌, subst, inl, inr, ◌⊎◌, Bool, true, false, Option, none,
  some, [], ◌∷◌, ◌++◌, Bytes, ◌==◌, codes, arith, Bool-cases,
}
use recovery_sdx.Base.Int.{ℤ, pos, is_nonzero}
use recovery_sdx.Minzip.DirUtil.{
  Calls, Kind, directory, link, other, dir_status, get_path_dir_status, stamp, make_level, proceed,
  make_levels, make_below, make_hierarchy, cpath_of, dir_create_hierarchy, is_error,
}

-- A file system, by the directories it has: what `stat` and `mkdir` report, that the calls here
-- remove none, and that what stands below a path stands in a directory.
pub record Holds {W D : Type 0} (sys : Calls W D) (IsDir : Bytes → W → Type 0) : Type 0 where
  pub stat_finds : (p : Bytes) (w w' : W) → sys.stat p w ≡ (some directory, w') → IsDir p w'
  pub mkdir_makes :
      (p : Bytes) (m : ℕ) (w : W)
      → is_nonzero (sys.mkdir p m w).0 ≡ false
      → IsDir p (sys.mkdir p m w).1
  pub stat_keeps : (p q : Bytes) (w : W) → IsDir q w → IsDir q (sys.stat p w).1
  pub mkdir_keeps : (p q : Bytes) (m : ℕ) (w : W) → IsDir q w → IsDir q (sys.mkdir p m w).1
  pub utime_keeps : (p q : Bytes) (t : ℕ) (w : W) → IsDir q w → IsDir q (sys.utime p t w).1
  pub above :
      (q p : Bytes) (w : W) → ends_in_name q ≡ true → is_above q p ≡ true → IsDir p w → IsDir q w

module _ {W D : Type 0} (sys : Calls W D) (IsDir : Bytes → W → Type 0) (fs : Holds sys IsDir)
    (mode : ℕ) (timestamp : Option ℕ) where
  -- Every directory above the path is there.
  AllAbove : Bytes → W → Type 0
  AllAbove path w = (q : Bytes) → ends_in_name q ≡ true → is_above q path ≡ true → IsDir q w

  AllAbove-snoc :
      (before : Bytes) (c : ℕ) (w : W)
      → AllAbove before w
      → ((c ≡ b'/') → ends_in_name before ≡ true → IsDir before w)
      → AllAbove (before ++ (c ∷ [])) w
  unfolding AllAbove
  AllAbove-snoc before c w h last q n above =
      elim (starts_with-snoc (q ++ codes "/") before c above) [
        | inl a ↦ h q n a
        | inr e ↦
            let (same, slash) = snoc_inj q before b'/' c e in
            subst (λ x. IsDir x w) (sym same)
              (last (sym slash) (subst (λ x. ends_in_name x ≡ true) same n))
      ]

  stamp-keeps :
      (o : Option ℕ) (path q : Bytes) (w w' : W)
      → stamp sys o path w ≡ (true, w')
      → IsDir q w
      → IsDir q w'
  unfolding stamp
  stamp-keeps none path q w w' e h = subst (IsDir q) (ap (λ x. x.1) e) h
  stamp-keeps (some t) path q w w' e h =
      subst (IsDir q) (ap (λ x. x.1) e) (fs.utime_keeps path q t w h)

  -- A level that is passed is a directory, and those that were there still are.
  make_level-IsDir :
      (path : Bytes) (w w' : W) (o : Option Kind × W)
      → sys.stat path w ≡ o
      → make_level sys mode timestamp path (dir_status sys o) ≡ (true, w')
      → IsDir path w' × ((q : Bytes) → IsDir q w → IsDir q w')
  unfolding make_level dir_status
  make_level-IsDir path w w' (some directory, w₁) found e = (
    subst (IsDir path) (ap (λ x. x.1) e) (fs.stat_finds path w w₁ found),
    λ q h. subst (IsDir q) (ap (λ x. x.1) found ∙ ap (λ x. x.1) e) (fs.stat_keeps path q w h),
  )
  make_level-IsDir path w w' (some link, w₁) found e = absurd (ground (arith, ap (λ x. x.0) e))
  make_level-IsDir path w w' (some other, w₁) found e = absurd (ground (arith, ap (λ x. x.0) e))
  make_level-IsDir path w w' (none, w₁) found e = elim (Bool-cases (is_error 2 (sys.errno w₁))) [
    | inl t ↦ elim (Bool-cases (is_nonzero (sys.mkdir path mode w₁).0)) [
      | inl bad ↦ absurd (ground (arith, ap (λ x. x.0) (rw (t, bad) at e)))
      | inr good ↦
          let stamped = stamp-keeps timestamp path in
          let w₂ = (sys.mkdir path mode w₁).1 in
          (
            stamped path w₂ w' (rw (t, good) at e) (fs.mkdir_makes path mode w₁ good),
            λ q h. stamped q w₂ w' (rw (t, good) at e) (
                fs.mkdir_keeps path q mode w₁
                  (subst (IsDir q) (ap (λ x. x.1) found) (fs.stat_keeps path q w h))),
          )
    ]
    | inr t ↦ absurd (ground (arith, ap (λ x. x.0) (rw t at e)))
  ]

  proceed-zero :
      (r : Bool × W) (k : W → ℤ × W) (w' : W)
      → proceed sys r k ≡ (pos 0, w')
      → (r ≡ (true, r.1)) × (k r.1 ≡ (pos 0, w'))
  proceed-zero (true, w) k w' e = (refl, e)
  proceed-zero (false, w) k w' e = absurd (ground (arith, ap (λ x. x.0) e))

  -- The loop ends at a slash or in a component, and has passed every level on the way.
  make_levels-AllAbove :
      (before rest : Bytes) (inside : Bool) (w w' : W)
      → make_levels sys mode timestamp before inside rest w ≡ (pos 0, w')
      → (inside ≡ false → ends_in_name before ≡ false)
      → AllAbove before w
      → AllAbove (before ++ rest) w'
  unfolding make_levels get_path_dir_status AllAbove
  make_levels-AllAbove before [] inside w w' e out h =
      subst (AllAbove (before ++ [])) (ap (λ x. x.1) e)
        (subst (λ x. AllAbove x w) (sym (append-nil before)) h)
  make_levels-AllAbove before (c ∷ s) false w w' e out h =
      let above = AllAbove-snoc before c w h (λ slash n. absurd (ground (arith, out refl))) in
      subst (λ x. AllAbove x w') (append_assoc before (c ∷ []) s)
        (elim (Bool-cases (c == b'/')) [
          | inl t ↦
              make_levels-AllAbove (before ++ (c ∷ [])) s false w w' (rw t at e)
                (λ i. ends_at_slash before c t) above
          | inr t ↦
              make_levels-AllAbove (before ++ (c ∷ [])) s true w w' (rw t at e)
                (λ i. absurd (ground arith)) above
        ])
  make_levels-AllAbove before (c ∷ s) true w w' e out h =
      subst (λ x. AllAbove x w') (append_assoc before (c ∷ []) s)
        (elim (Bool-cases (c == b'/')) [
          | inr t ↦
              make_levels-AllAbove (before ++ (c ∷ [])) s true w w' (rw t at e)
                (λ i. absurd (ground arith))
                (AllAbove-snoc before c w h (λ slash n. absurd (ground (arith, t))))
          | inl t ↦
              let level = make_level sys mode timestamp before (get_path_dir_status sys before w) in
              let (passed, went) = proceed-zero level _ w' (rw t at e) in
              let (made, keeps) =
                make_level-IsDir before w level.1 (sys.stat before w) refl passed in
              make_levels-AllAbove (before ++ (c ∷ [])) s false level.1 w' went
                (λ i. ends_at_slash before c t)
                (AllAbove-snoc before c level.1 (λ q n a. keeps q (h q n a)) (λ slash n. made))
        ])

  make_below-AllAbove :
      (cpath : Bytes) (w w' : W) (o : Option Kind × W)
      → sys.stat cpath w ≡ o
      → make_below sys mode timestamp cpath (dir_status sys o) ≡ (pos 0, w')
      → AllAbove cpath w'
  unfolding make_below dir_status AllAbove ends_in_name
  make_below-AllAbove cpath w w' (some directory, w₁) found e = λ q n a.
      subst (IsDir q) (ap (λ x. x.1) e) (fs.above q cpath w₁ n a (fs.stat_finds cpath w w₁ found))
  make_below-AllAbove cpath w w' (some link, w₁) found e = absurd (ground (arith, ap (λ x. x.0) e))
  make_below-AllAbove cpath w w' (some other, w₁) found e = absurd (ground (arith, ap (λ x. x.0) e))
  make_below-AllAbove cpath w w' (none, w₁) found e =
      elim (Bool-cases (is_error 2 (sys.errno w₁))) [
        | inl t ↦
            make_levels-AllAbove [] cpath false w₁ w' (rw t at e) (λ i. refl)
              (λ q n a. absurd (above_nothing q n a))
        | inr t ↦ absurd (ground (arith, ap (λ x. x.0) (rw t at e)))
      ]

  -- When `dirCreateHierarchy` returns zero, every directory above the path is there, and the path
  -- itself is one unless its last name was to be left out.
  pub dir_create_hierarchy-IsDir :
      (path : Bytes) (strip : Bool) (w w' : W) (q : Bytes)
      → dir_create_hierarchy sys path mode timestamp strip w ≡ (pos 0, w')
      → ends_in_name q ≡ true
      → (is_above q path ≡ true) ⊎ ((strip ≡ false) × (q ≡ path))
      → IsDir q w'
  unfolding dir_create_hierarchy make_hierarchy get_path_dir_status AllAbove
  dir_create_hierarchy-IsDir path strip w w' q e n which =
      elim (Option-cases (cpath_of strip path)) [
        | inl m ↦ absurd (ground (arith, ap (λ x. x.0) (rw m at e)))
        | inr (cpath, found) ↦
            make_below-AllAbove cpath w w' (sys.stat cpath w) refl (rw found at e) q n
              (asked-is_above strip q path cpath n found which)
      ]
