-- ===== src/Updater/Lookup/Lines.antt =====
-- Properties as the lines of a file, and what the functions of updater/install.c make of a line.
use mathlib.Core.List.{append_assoc, append-nil}
use recovery_sdx.Base.{
  ℕ, ◌≡◌, refl, ap, ◌∙◌, subst, inl, inr, Bool, true, false, not, ◌&&◌, ◌||◌, some, List, [], ◌∷◌,
  ◌++◌, Bytes, ◌==◌, if◌then◌else◌, bytes_eq, until_nul, arith, Bool-cases, &&-eq-true,
}
use recovery_sdx.Edify.Strings.{is_space, skip_space}
use recovery_sdx.Updater.Screen.{piece, pieces_from, lines_of}
use recovery_sdx.Updater.Properties.{
  trimmed, trim_end, with_first, at_equal, property, property_line, started_line, line_of,
}

-- A byte that is no white space, no equals sign, no number sign and no NUL.
unfoldable pub plain : ℕ → Bool
plain c = not (is_space c) && (not (c == b'=') && (not (c == b'#') && not (c == 0)))

unfoldable pub all_plain : Bytes → Bool
all_plain [] = true
all_plain (c ∷ s) = plain c && all_plain s

-- Keys that are not empty, and values, of plain bytes.
unfoldable pub writable : List (Bytes × Bytes) → Bool
unfolding all_plain
writable [] = true
writable (([], v) ∷ ps) = false
writable ((c ∷ k, v) ∷ ps) = all_plain (c ∷ k) && (all_plain v && writable ps)

-- The text of a line.
unfoldable pub written_line : Bytes → Bytes → Bytes
written_line k v = k ++ (b'=' ∷ v)

unfoldable pub written : List (Bytes × Bytes) → Bytes
unfolding written_line
written [] = []
written ((k, v) ∷ ps) = written_line k v ++ (10 ∷ written ps)

-- The value of the first property with the key, or the empty text.
unfoldable pub value_of : Bytes → List (Bytes × Bytes) → Bytes
value_of key [] = []
value_of key ((k, v) ∷ ps) = let rest = value_of key ps in if bytes_eq key k then v else rest

-- The lines of the text, as `strtok` gives them.
unfoldable pub line_list : List (Bytes × Bytes) → List Bytes
unfolding written_line
line_list [] = []
line_list ((k, v) ∷ ps) = written_line k v ∷ line_list ps

trim_end-plain : (s : Bytes) → all_plain s ≡ true → trim_end s ≡ s
unfolding trim_end all_plain plain trimmed
trim_end-plain [] h = refl
trim_end-plain (c ∷ []) h = elim (Bool-cases (is_space c)) [
  | inl t ↦ absurd (ground (arith, h, t))
  | inr n ↦ rw n refl
]
trim_end-plain (c ∷ d ∷ s) h = rw (trim_end-plain (d ∷ s) (ground (arith, h))) refl

skip_space-plain : (c : ℕ) (s : Bytes) → plain c ≡ true → skip_space (c ∷ s) ≡ c ∷ s
unfolding skip_space plain
skip_space-plain c s h = elim (Bool-cases (is_space c)) [
  | inl t ↦ absurd (ground (arith, h, t))
  | inr n ↦ rw n refl
]

skip_space-all_plain : (s : Bytes) → all_plain s ≡ true → skip_space s ≡ s
unfolding all_plain skip_space
skip_space-all_plain [] h = refl
skip_space-all_plain (c ∷ s) h = skip_space-plain c s ((&&-eq-true _ _ h).0)

at_equal_found : (k v : Bytes) → all_plain k ≡ true → at_equal (k ++ (b'=' ∷ v)) ≡ some (k, v)
unfolding at_equal all_plain plain with_first
at_equal_found [] v h = refl
at_equal_found (c ∷ k) v h = elim (Bool-cases (c == b'=')) [
  | inl t ↦ absurd (ground (arith, h, t))
  | inr n ↦ rw (n, at_equal_found k v (ground (arith, h))) refl
]

plain_first : (c : ℕ) (s : Bytes) → all_plain (c ∷ s) ≡ true → plain c ≡ true
unfolding all_plain
plain_first c s h = (&&-eq-true _ _ h).0

not_comment : (c : ℕ) → plain c ≡ true → (c == b'#') ≡ false
unfolding plain
not_comment c h = ground (arith, h)

pub line_of-written_line :
    (c : ℕ) (k v : Bytes)
    → all_plain (c ∷ k) ≡ true
    → all_plain v ≡ true
    → line_of (written_line (c ∷ k) v) ≡ property (c ∷ k) v
unfolding line_of written_line started_line property_line
line_of-written_line c k v hk hv =
    let hc = plain_first c k hk in
    rw
      (
        skip_space-plain c (k ++ (b'=' ∷ v)) hc,
        not_comment c hc,
        at_equal_found (c ∷ k) v hk,
        trim_end-plain (c ∷ k) hk,
        skip_space-all_plain v hv,
        trim_end-plain v hv,
      )
      refl

-- No byte of the text is the one that is asked about.
unfoldable pub lacks : ℕ → Bytes → Bool
lacks x [] = true
lacks x (c ∷ s) = not (c == x) && lacks x s

lacks-append : (x : ℕ) (s t : Bytes) → lacks x s ≡ true → lacks x t ≡ true → lacks x (s ++ t) ≡ true
unfolding lacks
lacks-append x [] t h k = k
lacks-append x (c ∷ s) t h k = ground (arith, lacks-append x s t, h, k)

lacks-all_plain :
    (x : ℕ) (s : Bytes) → (x == 10) || (x == 0) ≡ true → all_plain s ≡ true → lacks x s ≡ true
unfolding lacks all_plain plain is_space
lacks-all_plain x [] e h = refl
lacks-all_plain x (c ∷ s) e h = ground (arith, lacks-all_plain x s e, h, e)

pieces_from-line :
    (acc l rest : Bytes)
    → lacks 10 l ≡ true
    → pieces_from acc (l ++ (10 ∷ rest)) ≡ piece (acc ++ l) (lines_of rest)
unfolding pieces_from lacks lines_of
pieces_from-line acc [] rest h = rw (append-nil acc) refl
pieces_from-line acc (c ∷ l) rest h = elim (Bool-cases (c == 10)) [
  | inl t ↦ absurd (ground (arith, h, t))
  | inr n ↦ rw n (
      subst (λ x. pieces_from (acc ++ (c ∷ [])) (l ++ (10 ∷ rest)) ≡ piece x (lines_of rest))
        (append_assoc acc (c ∷ []) l)
        (pieces_from-line (acc ++ (c ∷ [])) l rest (ground (arith, h, n))))
]

pub until_nul-lacks : (s : Bytes) → lacks 0 s ≡ true → until_nul s ≡ s
unfolding until_nul lacks
until_nul-lacks [] h = refl
until_nul-lacks (c ∷ s) h = elim (Bool-cases (c == 0)) [
  | inl t ↦ absurd (ground (arith, h, t))
  | inr n ↦ rw n (ap (◌∷◌ c) (until_nul-lacks s (ground (arith, h, n))))
]

equal_lacks :
    (x : ℕ) (v : Bytes)
    → (x == 10) || (x == 0) ≡ true
    → lacks x v ≡ true
    → lacks x (b'=' ∷ v) ≡ true
unfolding lacks
equal_lacks x v e h = ground (arith, e, h)

lacks-written_line :
    (x : ℕ) (k v : Bytes)
    → (x == 10) || (x == 0) ≡ true
    → all_plain k ≡ true
    → all_plain v ≡ true
    → lacks x (written_line k v) ≡ true
unfolding written_line
lacks-written_line x k v e hk hv =
    lacks-append x k (b'=' ∷ v) (lacks-all_plain x k e hk)
      (equal_lacks x v e (lacks-all_plain x v e hv))

-- What a list of properties that can be written is made of.
pub parts :
    (k v : Bytes) (ps : List (Bytes × Bytes))
    → writable ((k, v) ∷ ps) ≡ true
    → (all_plain k ≡ true) × (all_plain v ≡ true) × (writable ps ≡ true)
unfolding writable
parts [] v ps h = absurd (ground (arith, h))
parts (c ∷ k) v ps h =
    let (hk, rest) = &&-eq-true _ _ h in let (hv, hs) = &&-eq-true _ _ rest in (hk, hv, hs)

pub lines_of-written :
    (ps : List (Bytes × Bytes)) → writable ps ≡ true → lines_of (written ps) ≡ line_list ps
unfolding lines_of pieces_from written line_list writable
lines_of-written [] h = refl
lines_of-written (([], v) ∷ ps) h = absurd (ground (arith, h))
lines_of-written ((c ∷ k, v) ∷ ps) h =
    let (hk, hv, hs) = parts (c ∷ k) v ps h in
    pieces_from-line [] (written_line (c ∷ k) v) (written ps)
      (lacks-written_line 10 (c ∷ k) v refl hk hv)
    ∙ ap (◌∷◌ (written_line (c ∷ k) v)) (lines_of-written ps hs)

pub lacks-written : (ps : List (Bytes × Bytes)) → writable ps ≡ true → lacks 0 (written ps) ≡ true
unfolding written lacks
lacks-written [] h = refl
lacks-written ((k, v) ∷ ps) h =
    let (hk, hv, hs) = parts k v ps h in
    lacks-append 0 (written_line k v) (10 ∷ written ps) (lacks-written_line 0 k v refl hk hv)
      (lacks-written ps hs)
