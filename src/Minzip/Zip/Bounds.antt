-- ===== src/Minzip/Zip/Bounds.antt =====
-- No pointer into the mapped file leaves it.
use recovery_sdx.Base.{
  ℕ, zero, suc, ◌+◌, ◌-◌, ◌%◌, ◌^◌, ◌≤◌, ◌<◌, ◌≡◌, refl, sym, subst, inl, inr, ◌⊎◌, Bool, true,
  false, ◌||◌, not, Option, none, some, List, [], ◌∷◌, ◌++◌, Bytes, leb, ltb, ◌==◌, length, get_or,
  take, drop, arith, Bool-cases, Among, length-take, length-drop,
}
use recovery_sdx.Minzip.Zip.{
  Parsed, ok, bad, fault, ◌>>=◌, refuse_if, get_2le, get_4le, Entry, censig, endsig, locsig,
  valid_filename, find_eocd, SafeIop, local_header, header_at, incompatible, entry_at, read_entries,
  parse_zip_archive, open_zip_archive,
}
use recovery_sdx.Minzip.Zip.Search.{insert_sorted}

-- Nothing is read out of bounds, and a value satisfies `P`.
abbrev pub Yields : {A : Type 0} → Parsed A → (A → Type 0) → Type 0
Yields (ok a) P = P a
Yields bad P = Unit
Yields fault P = ⊥

bind-Yields :
    {A B : Type 0} (m : Parsed A) (f : A → Parsed B) (P : A → Type 0) (Q : B → Type 0)
    → Yields m P
    → ((a : A) → m ≡ ok a → P a → Yields (f a) Q)
    → Yields (m >>= f) Q
bind-Yields (ok a) f P Q h k = k a refl h
bind-Yields bad f P Q h k = tt
bind-Yields fault f P Q h k = elim h [ ]

refuse-Yields :
    {B : Type 0} (b : Bool) (f : Unit {0} → Parsed B) (Q : B → Type 0)
    → (b ≡ false → Yields (f tt) Q)
    → Yields (refuse_if b >>= f) Q
refuse-Yields true f Q k = tt
refuse-Yields false f Q k = k refl

-- The elements of the file are bytes.
abbrev pub AllBytes : Bytes → Type 0
AllBytes [] = Unit
AllBytes (c ∷ s) = (c < 256) × AllBytes s

get_or-lt : (m : Bytes) (i : ℕ) → AllBytes m → get_or m i 0 < 256
get_or-lt [] i h = omega arith
get_or-lt (c ∷ m) zero h = h.0
get_or-lt (c ∷ m) (suc i) h = get_or-lt m i h.1

-- What safe_iop promises of a sum of pointers.
pub record IsSafeIop (safe : SafeIop) : Type 0 where
  pub sum : (a b c : ℕ) → safe.add_pointer a b ≡ some c → c ≡ a + b
  pub no_overflow : (a b c : ℕ) → safe.add_pointer a b ≡ some c → c < 2 ^ 32

-- The name and the data of an entry lie in the file.
pub record Inside (m : Bytes) (e : Entry) : Type 0 where
  pub name_valid : valid_filename e.file_name ≡ true
  pub name_inside : e.name_at + length e.file_name ≤ length m
  pub offset_lt : e.offset < 2 ^ 31
  pub comp_len_lt : e.comp_len < 2 ^ 32
  pub data_inside : (e.offset + e.comp_len) % 2 ^ 32 ≤ length m

abbrev pub AllInside : Bytes → List Entry → Type 0
AllInside m es = (e : Entry) → Among e es → Inside m e

-- Putting an element in adds nothing else.
Among-put :
    {A : Type 0} (x e : A) (k : ℕ) (es : List A)
    → Among e (take k es ++ (x ∷ drop k es))
    → (e ≡ x) ⊎ Among e es
Among-put x e zero es h = h
Among-put x e (suc k) [] h = h
Among-put x e (suc k) (y ∷ ys) (inl p) = inr (inl p)
Among-put x e (suc k) (y ∷ ys) (inr h) = elim (Among-put x e k ys h) [
  | inl p ↦ inl p
  | inr q ↦ inr (inr q)
]

module _ (m : Bytes) (bytes : AllBytes m) where
  get_2le-Yields : (p : ℕ) → p + 2 ≤ length m → Yields (get_2le m p) (λ v. v < 65536)
  unfolding get_2le
  get_2le-Yields p h =
      let inside : leb (p + 2) (length m) ≡ true = ground arith in
      rw inside (omega (arith, get_or-lt m p bytes, get_or-lt m (p + 1) bytes))

  get_4le-Yields : (p : ℕ) → p + 4 ≤ length m → Yields (get_4le m p) (λ v. v < 2 ^ 32)
  unfolding get_4le
  get_4le-Yields p h =
      let inside : leb (p + 4) (length m) ≡ true = ground arith in
      rw inside (
        omega (
          arith,
          get_or-lt m p bytes,
          get_or-lt m (p + 1) bytes,
          get_or-lt m (p + 2) bytes,
          get_or-lt m (p + 3) bytes,
        ))

  find_eocd-Yields : (p : ℕ) → p + 22 ≤ length m → Yields (find_eocd m p) (λ q. q + 22 ≤ length m)
  unfolding find_eocd
  find_eocd-Yields zero h =
      bind-Yields (get_4le m zero) _ _ _ (get_4le-Yields zero (omega arith))
        λ v e lt. elim (Bool-cases (v == endsig)) [ inl t ↦ rw t h | inr t ↦ rw t tt ]
  find_eocd-Yields (suc p) h =
      bind-Yields (get_4le m (suc p)) _ _ _ (get_4le-Yields (suc p) (omega arith)) λ v e lt.
        elim (Bool-cases (v == endsig)) [
          | inl t ↦ rw t h
          | inr t ↦ rw t (find_eocd-Yields p (omega arith))
        ]

module _ (safe : SafeIop) (good : IsSafeIop safe) (addr : ℕ) (m : Bytes) (bytes : AllBytes m)
    (mapped : addr + length m + 2 ^ 18 ≤ 2 ^ 32) (small : length m ≤ 2 ^ 30)
    (no_wrap : (p v : ℕ)
      → get_4le m p ≡ ok censig
      → get_4le m (p + 42) ≡ ok v
      → (addr + v + 30 < 2 ^ 32) ⊎ (2 ^ 32 ≤ addr + v)) where
  header_at-Yields :
      (off : ℕ) (sum : Option ℕ)
      → (addr + off + 30 < 2 ^ 32) ⊎ (2 ^ 32 ≤ addr + off)
      → safe.add_pointer addr off ≡ sum
      → Yields (header_at safe addr m sum) (λ h. (h ≡ off) × (h + 30 ≤ length m))
  unfolding header_at
  header_at-Yields off none wrap e = tt
  header_at-Yields off (some local) wrap e =
      let sum = good.sum addr off local e in
      let lt = good.no_overflow addr off local e in
      elim (Bool-cases (ltb ((addr + length m) % 2 ^ 32) ((local + 30) % 2 ^ 32))) [
        | inl t ↦ rw t tt
        | inr t ↦
            let fits : off + 30 ≤ length m = ground (arith, t, wrap, sum, lt, mapped) in
            rw t (
              bind-Yields (get_4le m (local - addr)) _ _ _
                (get_4le-Yields m bytes (local - addr) (omega (arith, fits, sum)))
                λ v e' lt'. elim (Bool-cases (v == locsig)) [
                  | inl s ↦ rw s (omega (arith, sum), omega (arith, sum, fits))
                  | inr s ↦ rw s tt
                ])
      ]

  sig_eq :
      (p sig : ℕ) → get_4le m p ≡ ok sig → not (sig == censig) ≡ false → get_4le m p ≡ ok censig
  sig_eq p sig e t =
      let same : sig ≡ censig = ground (arith, t) in subst (λ v. get_4le m p ≡ ok v) same e

  entry_at-Yields :
      (p : ℕ)
      → p ≤ length m + 131070
      → Yields (entry_at safe addr m p) (λ r. Inside m r.0 × (r.1 ≤ length m + 131070))
  unfolding entry_at local_header
  entry_at-Yields p near =
      refuse-Yields (ltb ((addr + length m) % 2 ^ 32) ((addr + p + 46) % 2 ^ 32)) _ _ λ room.
        let fits : p + 46 ≤ length m = ground (arith, room, near, mapped) in
        bind-Yields (get_4le m p) _ _ _ (get_4le-Yields m bytes p (ground arith)) λ sig e₀ h₀.
          refuse-Yields (not (sig == censig)) _ _ λ t₀.
            bind-Yields (get_4le m (p + 42)) _ _ _ (get_4le-Yields m bytes (p + 42) (ground arith))
              λ off e₁ h₁.
                bind-Yields (get_2le m (p + 28)) _ _ _
                  (get_2le-Yields m bytes (p + 28) (ground arith))
                  λ name_len e₂ h₂.
                    bind-Yields (get_2le m (p + 30)) _ _ _
                      (get_2le-Yields m bytes (p + 30) (ground arith))
                      λ extra_len e₃ h₃.
                        bind-Yields (get_2le m (p + 32)) _ _ _
                          (get_2le-Yields m bytes (p + 32) (ground arith))
                          λ comment_len e₄ h₄.
                            refuse-Yields
                              (ltb ((addr + length m) % 2 ^ 32)
                                ((addr + p + 46 + name_len) % 2 ^ 32))
                              _ _
                              λ t₁.
                                let named : p + 46 + name_len ≤ length m =
                                  ground (arith, t₁, fits, h₂, mapped) in
                                refuse-Yields
                                  (not (valid_filename (take name_len (drop (p + 46) m)))) _ _
                                  λ t₂.
                                    bind-Yields (get_4le m (p + 20)) _ _ _
                                      (get_4le-Yields m bytes (p + 20) (ground arith))
                                      λ comp_len e₅ h₅.
                                        bind-Yields (get_4le m (p + 24)) _ _ _
                                          (get_4le-Yields m bytes (p + 24) (ground arith))
                                          λ uncomp_len e₆ h₆.
                                            bind-Yields (get_2le m (p + 10)) _ _ _
                                              (get_2le-Yields m bytes (p + 10) (ground arith))
                                              λ how e₇ h₇.
                                                bind-Yields (get_4le m (p + 12)) _ _ _
                                                  (get_4le-Yields m bytes (p + 12) (ground arith))
                                                  λ mod_time e₈ h₈.
                                                    bind-Yields (get_4le m (p + 16)) _ _ _
                                                      (get_4le-Yields m bytes (p + 16)
                                                        (ground arith))
                                                      λ crc e₉ h₉.
                                                        bind-Yields (get_2le m (p + 4)) _ _ _
                                                          (get_2le-Yields m bytes (p + 4)
                                                            (ground arith))
                                                          λ version e₁₀ h₁₀.
                                                            refuse-Yields
                                                            (incompatible safe addr m version) _ _
                                                            λ t₃.
                                                            bind-Yields (get_4le m (p + 38)) _ _ _
                                                            (get_4le-Yields m bytes (p + 38)
                                                            (ground arith))
                                                            λ attributes e₁₁ h₁₁.
                                                            bind-Yields
                                                            (header_at safe addr m
                                                            (safe.add_pointer addr off))
                                                            _ _ _
                                                            (header_at-Yields off
                                                            (safe.add_pointer addr off)
                                                            (no_wrap p off (sig_eq p sig e₀ t₀) e₁)
                                                            refl)
                                                            λ header e₁₂ h₁₂.
                                                            bind-Yields (get_2le m (header + 26)) _
                                                            _ _
                                                            (get_2le-Yields m bytes (header + 26)
                                                            (omega (arith, h₁₂.1)))
                                                            λ local_name_len e₁₃ h₁₃.
                                                            bind-Yields (get_2le m (header + 28)) _
                                                            _ _
                                                            (get_2le-Yields m bytes (header + 28)
                                                            (omega (arith, h₁₂.1)))
                                                            λ local_extra_len e₁₄ h₁₄.
                                                            let offset =
                                                            (off + 30 + local_name_len
                                                            + local_extra_len)
                                                            % 2 ^ 32 in
                                                            refuse-Yields
                                                            (not (safe.adds_long offset comp_len)) _
                                                            _
                                                            λ t₄.
                                                            refuse-Yields
                                                            (ltb (length m)
                                                            ((offset + comp_len) % 2 ^ 32))
                                                            _ _
                                                            λ t₅.
                                                            let reached : off + 30 ≤ length m =
                                                            omega (arith, h₁₂.0, h₁₂.1) in
                                                            (
                                                            record {
                                                            name_valid = ground arith;
                                                            name_inside = ground (
                                                            arith,
                                                            length-take name_len (drop (p + 46) m),
                                                            length-drop (p + 46) m,
                                                            named,
                                                            );
                                                            offset_lt =
                                                            omega (arith, reached, h₁₃, h₁₄, small);
                                                            comp_len_lt = h₅;
                                                            data_inside = ground (arith, t₅);
                                                            },
                                                            omega (arith, named, h₃, h₄),
                                                            )

  insert_sorted-AllInside :
      (x : Entry) (es : List Entry)
      → Inside m x
      → AllInside m es
      → AllInside m (insert_sorted (λ (a : Entry). a.file_name) x es)
  unfolding insert_sorted
  insert_sorted-AllInside x es here there e among = elim (Among-put x e _ es among) [
    | inl p ↦ subst (λ v. Inside m v) (sym p) here
    | inr q ↦ there e q
  ]

  read_entries-Yields :
      (n p : ℕ) (es : List Entry)
      → p ≤ length m + 131070
      → AllInside m es
      → Yields (read_entries safe addr m n p es) (AllInside m)
  unfolding read_entries
  read_entries-Yields zero p es near h = h
  read_entries-Yields (suc n) p es near h =
      bind-Yields (entry_at safe addr m p) _ _ _ (entry_at-Yields p near) λ r e inside.
        read_entries-Yields n r.1 (insert_sorted (λ (a : Entry). a.file_name) r.0 es) inside.1
          (insert_sorted-AllInside r.0 es inside.0 h)

  pub open_zip_archive-Yields : Yields (open_zip_archive safe addr m) (AllInside m)
  unfolding open_zip_archive parse_zip_archive
  open_zip_archive-Yields = elim (Bool-cases (ltb (length m) 22)) [
    | inl t ↦ rw t tt
    | inr t ↦ rw t (
        bind-Yields (get_4le m 0) _ _ _ (get_4le-Yields m bytes 0 (ground arith)) λ first e₀ h₀.
          refuse-Yields (first == endsig || not (first == locsig)) _ _ λ t₀.
            bind-Yields (find_eocd m (length m - 22)) _ _ _
              (find_eocd-Yields m bytes (length m - 22) (ground arith))
              λ p e₁ h₁.
                bind-Yields (get_2le m (p + 8)) _ _ _ (get_2le-Yields m bytes (p + 8) (omega arith))
                  λ n e₂ h₂.
                    bind-Yields (get_4le m (p + 16)) _ _ _
                      (get_4le-Yields m bytes (p + 16) (omega arith))
                      λ cd e₃ h₃.
                        refuse-Yields (n == 0 || leb (length m) cd) _ _ λ t₁.
                          read_entries-Yields n cd [] (ground (arith, t₁)) (λ e h. elim h [ ]))
  ]

  -- Under the same conditions, the data of an entry whose compressed length is not negative lies in
  -- the file.
  pub data_inside_file :
      (es : List Entry) (e : Entry)
      → open_zip_archive safe addr m ≡ ok es
      → Among e es
      → e.comp_len < 2 ^ 31
      → e.offset + e.comp_len ≤ length m
  data_inside_file es e h among lt =
      let inside = subst (λ o. Yields o (AllInside m)) h open_zip_archive-Yields e among in
      omega (arith, inside.offset_lt, inside.data_inside)
