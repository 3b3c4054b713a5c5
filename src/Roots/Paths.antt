-- ===== src/Roots/Paths.antt =====
-- Which root a path names, and what a path is translated to.
use mathlib.Core.List.{append_assoc}
use recovery_sdx.Base.{
  ℕ, zero, suc, ◌+◌, ◌≤◌, ◌≡◌, ◌≢◌, ◌==◌, ==_iff, refl, sym, ap, ◌∙◌, inl, inr, true, not, some,
  List, [], ◌∷◌, ◌++◌, Bytes, ltb, if◌then◌else◌, length, take, drop, codes, bytes_eq, bytes_eq_iff,
  arith, take_all, take-append-drop, take-take, ◌↔◌, Bool-cases, Among, length-append, drop-length,
  >>=-eq-some, guard-eq-some, subst, eq_of_some,
}
use recovery_sdx.Roots.{
  RootInfo, g_roots, colon_index, find_root, get_root_info_for_path, skip_slashes, ends_in_slash,
  translate_root_path,
}

-- The name's only colon is its last byte.
abbrev IsRootName : Bytes → Type 0
IsRootName n = (k : ℕ) × (colon_index n ≡ some k) × (length n ≡ suc k)

abbrev AllNamed : List RootInfo → Type 0
AllNamed [] = Unit
AllNamed (r ∷ rs) = IsRootName r.name × AllNamed rs

g_roots-AllNamed : AllNamed g_roots
unfolding g_roots colon_index
g_roots-AllNamed = (
  (4, refl, refl),
  (
    (6, refl, refl),
    (
      (4, refl, refl),
      (
        (5, refl, refl),
        ((7, refl, refl), ((8, refl, refl), ((6, refl, refl), ((3, refl, refl), tt)))),
      ),
    ),
  ),
)

colon_index-take :
    (a b : Bytes) (j : ℕ)
    → colon_index b ≡ some j
    → take (suc j) a ≡ take (suc j) b
    → colon_index a ≡ some j
unfolding colon_index
colon_index-take [] [] j h e = h
colon_index-take [] (y ∷ b) j h e = cc
colon_index-take (x ∷ a) [] j h e = cc
colon_index-take (x ∷ a) (y ∷ b) zero h e = ground arith
colon_index-take (x ∷ a) (y ∷ b) (suc j) h e = ground (arith, colon_index-take a b j)

find_root-Among :
    (path : Bytes) (j : ℕ) (rs : List RootInfo) (r : RootInfo)
    → AllNamed rs
    → colon_index path ≡ some j
    → find_root (suc j) path rs ≡ some r
    → Among r rs × (r.name ≡ take (suc j) path)
unfolding find_root
find_root-Among path j [] r ok c h = absurd (ground arith)
find_root-Among path j (x ∷ rs) r ((k, kc, kl), ok) c h =
    elim (Bool-cases (bytes_eq (take (suc j) x.name) (take (suc j) path))) [
      | inl e ↦
          let same = (bytes_eq_iff _ _).0 e in
          let at : some k ≡ some j = sym kc ∙ colon_index-take x.name path j c same in
          let whole = take_all (suc j) x.name (ground arith) in
          let it : x ≡ r = ground arith in
          (inl (sym it), sym (ap (λ y. y.name) it) ∙ sym whole ∙ same)
      | inr e ↦ let (m, n) = find_root-Among path j rs r ok c (ground arith) in (inr m, n)
    ]

AllNamed-Among : (rs : List RootInfo) (r : RootInfo) → AllNamed rs → Among r rs → IsRootName r.name
AllNamed-Among [] r ok m = elim m [ ]
AllNamed-Among (x ∷ rs) r ok (inl e) = subst (λ y. IsRootName y.name) (sym e) ok.0
AllNamed-Among (x ∷ rs) r ok (inr m) = AllNamed-Among rs r ok.1 m

root_found :
    (rest : Bytes) (r : RootInfo)
    → Among r g_roots
    → get_root_info_for_path (r.name ++ rest) ≡ some r
unfolding get_root_info_for_path bytes_eq
root_found rest r (inl e) = rw e refl
root_found rest r (inr (inl e)) = rw e refl
root_found rest r (inr (inr (inl e))) = rw e refl
root_found rest r (inr (inr (inr (inl e)))) = rw e refl
root_found rest r (inr (inr (inr (inr (inl e))))) = rw e refl
root_found rest r (inr (inr (inr (inr (inr (inl e)))))) = rw e refl
root_found rest r (inr (inr (inr (inr (inr (inr (inl e))))))) = rw e refl
root_found rest r (inr (inr (inr (inr (inr (inr (inr (inl e)))))))) = rw e refl
root_found rest r (inr (inr (inr (inr (inr (inr (inr (inr h)))))))) = elim h [ ]

-- A path names a root of the table exactly when it starts with the root's name, and then that root
-- is the one that is found.
pub get_root_info_for_path_iff :
    (path : Bytes) (r : RootInfo)
    → (get_root_info_for_path path ≡ some r)
      ↔ (Among r g_roots × (rest : Bytes) × (path ≡ r.name ++ rest))
unfolding get_root_info_for_path
get_root_info_for_path_iff path r = (
  λ h.
      let (i, c, f) = >>=-eq-some (colon_index path) _ h in
      let (m, n) = find_root-Among path i g_roots r g_roots-AllNamed c f in
      (
        m,
        drop (suc i) path,
        sym (take-append-drop (suc i) path) ∙ ap (λ p. p ++ drop (suc i) path) (sym n),
      ),
  λ h. ap get_root_info_for_path h.2 ∙ root_found h.1 r h.0,
)

not-ltb : (a b : ℕ) → not (ltb a b) ≡ true → b ≤ a
not-ltb a b h = ground arith

-- Nothing but slashes.
abbrev pub AllSlashes : Bytes → Type 0
AllSlashes [] = Unit
AllSlashes (c ∷ s) = (c ≡ b'/') × AllSlashes s

-- The first byte is not a slash.
abbrev pub NoSlashFirst : Bytes → Type 0
NoSlashFirst [] = Unit
NoSlashFirst (c ∷ s) = c ≢ b'/'

-- The text is the mount point and the rest, with one slash between them: the last byte of the mount
-- point, if that is a slash, or one that is put there.
pub data Joined (mp tail out : Bytes) : Type 0 where
  with_its_slash : (front : Bytes) → mp ≡ front ++ codes "/" → out ≡ mp ++ tail → Joined mp tail out
  with_slash :
      ((front : Bytes) → mp ≢ front ++ codes "/")
      → out ≡ (mp ++ codes "/") ++ tail
      → Joined mp tail out

skip_slashes-split :
    (s : Bytes)
    → (slashes : Bytes) × (s ≡ slashes ++ skip_slashes s)
      × AllSlashes slashes
      × NoSlashFirst (skip_slashes s)
unfolding skip_slashes
skip_slashes-split [] = ([], refl, tt, tt)
skip_slashes-split (c ∷ s) =
    let (slashes, split, all, first) = skip_slashes-split s in
    elim (Bool-cases (c == b'/')) [
      | inl t ↦ rw t (c ∷ slashes, ap (λ x. c ∷ x) split, ((==_iff c _).0 t, all), first)
      | inr t ↦ rw t ([], refl, tt, λ e. absurd (ground arith))
    ]

ends_in_slash-front :
    (mp : Bytes) → ends_in_slash mp ≡ true → (front : Bytes) × (mp ≡ front ++ codes "/")
unfolding ends_in_slash
ends_in_slash-front [] h = absurd (ground arith)
ends_in_slash-front (c ∷ []) h = ([], ground arith)
ends_in_slash-front (c ∷ d ∷ s) h =
    let (front, e) = ends_in_slash-front (d ∷ s) h in (c ∷ front, ap (λ x. c ∷ x) e)

ends_in_slash-append : (front : Bytes) → ends_in_slash (front ++ codes "/") ≡ true
unfolding ends_in_slash
ends_in_slash-append [] = refl
ends_in_slash-append (c ∷ []) = refl
ends_in_slash-append (c ∷ d ∷ s) = ends_in_slash-append (d ∷ s)

joined :
    (mp tail out : Bytes)
    → out ≡ (if ends_in_slash mp then mp else mp ++ codes "/") ++ tail
    → Joined mp tail out
joined mp tail out h = elim (Bool-cases (ends_in_slash mp)) [
  | inl t ↦ let (front, e) = ends_in_slash-front mp t in with_its_slash front e (rw t at h)
  | inr t ↦
      with_slash
        (λ front e. absurd (ground (arith, t, ap ends_in_slash e, ends_in_slash-append front)))
        (rw t at h)
]

length-Joined :
    (mp tail out : Bytes) → Joined mp tail out → length out ≤ length mp + 1 + length tail
length-Joined mp tail out (with_its_slash front e o) =
    omega (arith, ap length o, length-append mp tail)
length-Joined mp tail out (with_slash ends o) =
    omega (arith, ap length o, length-append (mp ++ codes "/") tail, length-append mp (codes "/"))

-- What a path below a mounted root is translated to: the mount point and the path behind the root's
-- name, less the slashes in front of it, with one slash between the two; and it fits the buffer, with
-- its terminator.
pub translate_root_path-eq :
    (path out : Bytes) (size : ℕ)
    → translate_root_path path size ≡ some out
    → (r : RootInfo) × (mp : Bytes) × (slashes : Bytes) × (tail : Bytes) × Among r g_roots
      × (path ≡ r.name ++ slashes ++ tail)
      × AllSlashes slashes
      × NoSlashFirst tail
      × (r.mount_point ≡ some mp)
      × Joined mp tail out
      × (length out + 1 ≤ size)
unfolding translate_root_path
translate_root_path-eq path out size h =
    let (room, h₁) = guard-eq-some (not (ltb size 1)) _ h in
    let (r, found, h₂) = >>=-eq-some (get_root_info_for_path path) _ h₁ in
    let (mp, mounted, h₃) = >>=-eq-some r.mount_point _ h₂ in
    let (m, rest, split) = (get_root_info_for_path_iff path r).0 found in
    let base = if ends_in_slash mp then mp else mp ++ codes "/" in
    let tail = ap (drop (length r.name)) split ∙ drop-length r.name rest in
    let (fits, h₄) =
      guard-eq-some
        (not (ltb size (length mp + 1 + length (skip_slashes (drop (length r.name) path)) + 1))) _
        h₃ in
    let made : out ≡ base ++ skip_slashes rest =
      sym (eq_of_some h₄) ∙ ap (λ t. base ++ skip_slashes t) tail in
    let short : length mp + 1 + length (skip_slashes rest) + 1 ≤ size = not-ltb size _ (
      subst (λ t. not (ltb size (length mp + 1 + length (skip_slashes t) + 1)) ≡ true) tail fits) in
    let (slashes, parts, all, first) = skip_slashes-split rest in
    let whole = joined mp (skip_slashes rest) out made in
    (
      r,
      mp,
      slashes,
      skip_slashes rest,
      m,
      split ∙ ap (λ x. r.name ++ x) parts ∙ sym (append_assoc r.name slashes (skip_slashes rest)),
      all,
      first,
      mounted,
      whole,
      omega (arith, length-Joined mp (skip_slashes rest) out whole),
    )

-- The colon that is found in a path is the end of the root's name.
pub colon_index-name :
    (path : Bytes) (r : RootInfo)
    → get_root_info_for_path path ≡ some r
    → (k : ℕ) × (colon_index path ≡ some k) × (length r.name ≡ suc k)
unfolding get_root_info_for_path
colon_index-name path r h =
    let (i, c, f) = >>=-eq-some (colon_index path) _ h in
    let (m, n) = find_root-Among path i g_roots r g_roots-AllNamed c f in
    let (k, kc, kl) = AllNamed-Among g_roots r g_roots-AllNamed m in
    let same : some k ≡ some i =
      sym kc ∙ colon_index-take r.name path i c (ap (take (suc i)) n ∙ take-take (suc i) path) in
    (i, c, kl ∙ ap suc (eq_of_some same))
