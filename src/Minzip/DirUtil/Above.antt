-- ===== src/Minzip/DirUtil/Above.antt =====
-- The directories above a path, and what stands below one.
use mathlib.Core.List.{append-nil}
use recovery_sdx.Base.{
  ==_iff, starts_with-append, Option-cases, ℕ, ◌≡◌, refl, sym, ap, ◌∙◌, subst, inl, inr, ◌⊎◌, Bool,
  true, false, not, some, [], ◌∷◌, ◌++◌, Bytes, ◌==◌, starts_with, codes, arith, eq_of_some,
}
use recovery_sdx.Minzip.DirUtil.{cpath_of, strip_file_name, up_to_slash}

-- A path that ends in a name, not in a slash.
unfoldable pub ends_in_name : Bytes → Bool
ends_in_name [] = false
ends_in_name (c ∷ []) = not (c == b'/')
ends_in_name (c ∷ d ∷ s) = ends_in_name (d ∷ s)

-- The directory of that path holds the rest of `path`.
abbrev pub is_above : Bytes → Bytes → Bool
is_above q path = starts_with (q ++ codes "/") path

pub starts_with-snoc :
    (p b : Bytes) (c : ℕ)
    → starts_with p (b ++ (c ∷ [])) ≡ true
    → (starts_with p b ≡ true) ⊎ (p ≡ b ++ (c ∷ []))
unfolding starts_with
starts_with-snoc [] b c h = inl refl
starts_with-snoc (x ∷ []) [] c h = inr (ground arith)
starts_with-snoc (x ∷ y ∷ p) [] c h = ground arith
starts_with-snoc (x ∷ p) (y ∷ b) c h = ground (arith, starts_with-snoc p b c)

pub snoc_inj : (q b : Bytes) (c d : ℕ) → q ++ (c ∷ []) ≡ b ++ (d ∷ []) → (q ≡ b) × (c ≡ d)
snoc_inj [] [] c d h = ground arith
snoc_inj [] (y ∷ []) c d h = ground arith
snoc_inj [] (y ∷ z ∷ b) c d h = ground arith
snoc_inj (x ∷ []) [] c d h = ground arith
snoc_inj (x ∷ z ∷ q) [] c d h = ground arith
snoc_inj (x ∷ q) (y ∷ b) c d h = ground (arith, snoc_inj q b c d)

ends_in_name-slash : (b : Bytes) → ends_in_name (b ++ (b'/' ∷ [])) ≡ false
unfolding ends_in_name
ends_in_name-slash [] = refl
ends_in_name-slash (x ∷ []) = refl
ends_in_name-slash (x ∷ y ∷ b) = ends_in_name-slash (y ∷ b)

pub ends_at_slash : (b : Bytes) (c : ℕ) → (c == b'/') ≡ true → ends_in_name (b ++ (c ∷ [])) ≡ false
ends_at_slash b c t =
    subst (λ x. ends_in_name (b ++ (x ∷ [])) ≡ false) (sym ((==_iff c b'/').0 t))
      (ends_in_name-slash b)

starts_with-append_right : (p s t : Bytes) → starts_with p s ≡ true → starts_with p (s ++ t) ≡ true
unfolding starts_with
starts_with-append_right [] s t h = refl
starts_with-append_right (x ∷ p) [] t h = ground arith
starts_with-append_right (x ∷ p) (y ∷ s) t h = ground (arith, starts_with-append_right p s t)

up_to_slash-is_above :
    (q s : Bytes)
    → is_above q s ≡ true
    → (t : Bytes) × (up_to_slash s ≡ some t) × (is_above q t ≡ true)
unfolding up_to_slash starts_with
up_to_slash-is_above q [] h = absurd (above_none q h)
  where
    above_none : (q : Bytes) → is_above q [] ≡ true → ⊥
    above_none [] h = ground arith
    above_none (x ∷ q) h = ground arith
up_to_slash-is_above [] (c ∷ s) h = elim (Option-cases (up_to_slash s)) [
  | inl n ↦ (c ∷ [], rw n (ground arith), ground arith)
  | inr (t, e) ↦ (c ∷ t, rw e refl, ground arith)
]
up_to_slash-is_above (x ∷ q) (c ∷ s) h =
    let (t, e, above) = up_to_slash-is_above q s (ground arith) in
    (c ∷ t, rw e refl, ground (arith, above))

-- Each directory above the path is one above `cpath`.
cpath_of-is_above :
    (strip : Bool) (q path cpath : Bytes)
    → ends_in_name q ≡ true
    → is_above q path ≡ true
    → cpath_of strip path ≡ some cpath
    → is_above q cpath ≡ true
unfolding cpath_of strip_file_name ends_in_name starts_with
cpath_of-is_above false q [] cpath n h e = ground arith
cpath_of-is_above false q (c ∷ s) cpath n h e =
    subst (λ x. is_above q x ≡ true) (eq_of_some e)
      (starts_with-append_right (q ++ codes "/") (c ∷ s) (codes "/") h)
cpath_of-is_above true q [] cpath n h e = ground arith
cpath_of-is_above true [] (c ∷ s) cpath n h e = ground arith
cpath_of-is_above true (x ∷ q) (c ∷ s) cpath n h e =
    let (t, found, above) = up_to_slash-is_above q s (ground arith) in
    subst (λ y. is_above (x ∷ q) y ≡ true) (eq_of_some (rw found at e)) (ground (arith, above))

pub above_nothing : (q : Bytes) → ends_in_name q ≡ true → is_above q [] ≡ true → ⊥
unfolding ends_in_name starts_with
above_nothing [] n a = ground arith
above_nothing (x ∷ q) n a = ground arith

pub asked-is_above :
    (strip : Bool) (q path cpath : Bytes)
    → ends_in_name q ≡ true
    → cpath_of strip path ≡ some cpath
    → (is_above q path ≡ true) ⊎ ((strip ≡ false) × (q ≡ path))
    → is_above q cpath ≡ true
unfolding ends_in_name cpath_of
asked-is_above strip q path cpath n e (inl a) = cpath_of-is_above strip q path cpath n a e
asked-is_above true q path cpath n e (inr (s, same)) = absurd (ground (arith, s))
asked-is_above false q [] cpath n e (inr (s, same)) =
    absurd (ground (arith, subst (λ x. ends_in_name x ≡ true) same n))
asked-is_above false q (c ∷ p) cpath n e (inr (s, same)) =
    subst (λ x. is_above q x ≡ true) (ap (λ x. x ++ codes "/") same ∙ eq_of_some e)
      (subst (λ x. starts_with (q ++ codes "/") x ≡ true) (append-nil (q ++ codes "/"))
        (starts_with-append (q ++ codes "/") []))
