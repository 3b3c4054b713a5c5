-- ===== src/Minzip/Zip/Extract/Contiguous.antt =====
-- The loop stops at the first entry that does not match behind one that does, and misses nothing.
use recovery_sdx.Base.{
  ◌≡◌, refl, inl, inr, Bool, true, false, not, ◌&&◌, ◌||◌, List, [], ◌∷◌, Bytes, ltb, ◌==◌,
  if◌then◌else◌, length, arith, Bool-cases, starts_with,
}
use recovery_sdx.Minzip.Zip.{Entry}
use recovery_sdx.Minzip.Zip.Search.{names_of}
use recovery_sdx.Minzip.Zip.Order.{Sorted, AllBehind}
use recovery_sdx.Minzip.Zip.Order.Lex.{lex, Le}
use recovery_sdx.Minzip.Zip.Order.Archive.{names}
use recovery_sdx.Minzip.Zip.Extract.{
  Files, Flags, Round, go_on, failed, stopped, extract_entry, target_entry_path, proceed, walk,
}

-- A name between two that begin with `p` begins with it too.
between :
    (p a b c : Bytes)
    → starts_with p a ≡ true
    → starts_with p c ≡ true
    → Le a b
    → Le b c
    → starts_with p b ≡ true
unfolding starts_with lex
between [] a b c h k le le' = refl
between (x ∷ p) [] b c h k le le' = ground arith
between (x ∷ p) (y ∷ a) b [] h k le le' = ground arith
between (x ∷ p) (y ∷ a) [] (z ∷ c) h k le le' = ground arith
between (x ∷ p) (y ∷ a) (u ∷ b) (z ∷ c) h k le le' = ground (arith, between p a b c)

starts_with-length : (p s : Bytes) → starts_with p s ≡ true → ltb (length s) (length p) ≡ false
unfolding starts_with
starts_with-length [] s h = ground arith
starts_with-length (x ∷ p) [] h = ground arith
starts_with-length (x ∷ p) (y ∷ s) h = ground (arith, starts_with-length p s)

-- The entries below a directory.
pub matching : Bytes → List Entry → List Entry
matching zpath [] = []
matching zpath (e ∷ es) =
    let rest = matching zpath es in if starts_with zpath e.file_name then e ∷ rest else rest

module _ {W : Type 0} (files : Files W) (flags : Flags) (m zpath target_dir : Bytes) where
  -- Each entry of the list, in turn.
  pub extract_all : List Entry → W → Bool × W
  extract_all [] w = (true, w)
  extract_all (e ∷ es) w =
      proceed files flags m (extract_entry files flags m e (target_entry_path target_dir zpath e) w)
        (extract_all es)

pub skips :
    (p n : Bytes) → (ltb (length n) (length p) || not (starts_with p n)) ≡ not (starts_with p n)
skips p n = elim (Bool-cases (starts_with p n)) [
  | inl t ↦ rw (t, starts_with-length p n t)
  | inr t ↦ ground arith
]

-- Behind an entry that does not match, and is itself behind one that does, none matches.
matching-none :
    (p a n : Bytes) (es : List Entry)
    → starts_with p a ≡ true
    → Le a n
    → starts_with p n ≡ false
    → AllBehind n (names es)
    → matching p es ≡ []
unfolding matching names_of
matching-none p a n [] h le out b = refl
matching-none p a n (e ∷ es) h le out b = elim (Bool-cases (starts_with p e.file_name)) [
  | inl t ↦ absurd (ground (arith, between p a n e.file_name h t le b.0))
  | inr t ↦ rw t (matching-none p a n es h le out b.1)
]

module _ {W : Type 0} (files : Files W) (flags : Flags) (m zpath target_dir : Bytes) where
  proceed_cong :
      (r : Round × W) (f g : W → Bool × W)
      → ((w : W) → f w ≡ g w)
      → proceed files flags m r f ≡ proceed files flags m r g
  proceed_cong (go_on, w) f g h = h w
  proceed_cong (failed, w) f g h = refl
  proceed_cong (stopped, w) f g h = refl

  walk-seen :
      (a : Bytes) (es : List Entry) (w : W)
      → starts_with zpath a ≡ true
      → AllBehind a (names es)
      → Sorted (names es)
      → walk files flags m zpath target_dir true es w
        ≡ extract_all files flags m zpath target_dir (matching zpath es) w
  unfolding walk matching extract_all names_of
  walk-seen a [] w h b s = refl
  walk-seen a (e ∷ es) w h b s = elim (Bool-cases (starts_with zpath e.file_name)) [
    | inl t ↦
        rw (skips zpath e.file_name, t)
          (proceed_cong (extract_entry files flags m e (target_entry_path target_dir zpath e) w) _ _
            (λ w'. walk-seen e.file_name es w' t s.0 s.1))
    | inr t ↦ rw (skips zpath e.file_name, t, matching-none zpath a e.file_name es h b.0 t s.0) refl
  ]

  -- Among sorted entries the loop misses none that matches.
  pub walk-extract_all :
      (es : List Entry) (w : W)
      → Sorted (names es)
      → walk files flags m zpath target_dir false es w
        ≡ extract_all files flags m zpath target_dir (matching zpath es) w
  unfolding walk matching extract_all names_of
  walk-extract_all [] w s = refl
  walk-extract_all (e ∷ es) w s = elim (Bool-cases (starts_with zpath e.file_name)) [
    | inl t ↦
        rw (skips zpath e.file_name, t)
          (proceed_cong (extract_entry files flags m e (target_entry_path target_dir zpath e) w) _ _
            (λ w'. walk-seen e.file_name es w' t s.0 s.1))
    | inr t ↦ rw (skips zpath e.file_name, t) (walk-extract_all es w s.1)
  ]

-- The paths that `mzExtractRecursive` accepts.
pub accepts : Bytes → Bytes → Bool
accepts ([]) (t ∷ ts) = t == b'/'
accepts (z ∷ zs) (t ∷ ts) = not (z == b'/') && (t == b'/')
accepts zip_dir [] = false
