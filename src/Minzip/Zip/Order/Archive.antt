-- ===== src/Minzip/Zip/Order/Archive.antt =====
-- The entries of an archive that was opened are sorted by their names.
use recovery_sdx.Base.{
  ℕ, zero, suc, ◌+◌, ◌-◌, ◌≡◌, refl, sym, ap, subst, Bool, true, false, not, ◌||◌, List, [], ◌∷◌,
  ◌++◌, Bytes, ltb, ◌==◌, length, take, drop, arith, ◌%◌, ◌^◌, leb, Bool-cases, inl, inr,
}
use recovery_sdx.Minzip.Zip.{
  Parsed, ok, bad, fault, ◌>>=◌, refuse_if, get_2le, get_4le, Entry, censig, printable,
  valid_filename, find_eocd, SafeIop, local_header, header_at, incompatible, entry_at, read_entries,
  parse_zip_archive, open_zip_archive, endsig, locsig,
}
use recovery_sdx.Minzip.Zip.Search.{insert_sorted, search, names_of}
use recovery_sdx.Minzip.Zip.Order.{Sorted, AllPrintable, put-Sorted}

-- A value satisfies `P`.
abbrev When : {A : Type 0} → Parsed A → (A → Type 0) → Type 0
When (ok a) P = P a
When bad P = Unit
When fault P = Unit

bind-When :
    {A B : Type 0} (m : Parsed A) (f : A → Parsed B) (Q : B → Type 0)
    → ((a : A) → m ≡ ok a → When (f a) Q)
    → When (m >>= f) Q
bind-When (ok a) f Q k = k a refl
bind-When bad f Q k = tt
bind-When fault f Q k = tt

refuse-When :
    {B : Type 0} (b : Bool) (f : Unit {0} → Parsed B) (Q : B → Type 0)
    → (b ≡ false → When (f tt) Q)
    → When (refuse_if b >>= f) Q
refuse-When true f Q k = tt
refuse-When false f Q k = k refl

abbrev pub names : List Entry → List Bytes
names = names_of (λ (e : Entry). e.file_name)

names-put :
    (e : Entry) (t : ℕ) (es : List Entry)
    → names (take t es ++ (e ∷ drop t es)) ≡ take t (names es) ++ (e.file_name ∷ drop t (names es))
unfolding names_of
names-put e zero es = refl
names-put e (suc t) [] = refl
names-put e (suc t) (x ∷ xs) = ap (λ l. x.file_name ∷ l) (names-put e t xs)

length-names : (es : List Entry) → length (names es) ≡ length es
unfolding names_of
length-names [] = refl
length-names (x ∷ xs) = ap suc (length-names xs)

abbrev pub Ordered : List Entry → Type 0
Ordered es = Sorted (names es) × AllPrintable (names es)

insert_sorted-Ordered :
    (e : Entry) (es : List Entry)
    → Ordered es
    → printable e.file_name ≡ true
    → Ordered (insert_sorted (λ (a : Entry). a.file_name) e es)
unfolding insert_sorted
insert_sorted-Ordered e es h p =
    subst (λ l. Sorted l × AllPrintable l)
      (sym (names-put e (search (length es) e.file_name (names es) 0 (length es)) es))
      (subst
        (λ n.
          let t = search n e.file_name (names es) 0 n in
          Sorted (take t (names es) ++ (e.file_name ∷ drop t (names es)))
          × AllPrintable (take t (names es) ++ (e.file_name ∷ drop t (names es))))
        (length-names es) (put-Sorted e.file_name (names es) h.0 h.1 p))

valid_filename-printable : (n : Bytes) → not (valid_filename n) ≡ false → printable n ≡ true
unfolding valid_filename
valid_filename-printable n h = ground arith

module _ (safe : SafeIop) (addr : ℕ) (m : Bytes) where
  entry_at-printable : (p : ℕ) → When (entry_at safe addr m p) (λ r. printable r.0.file_name ≡ true)
  unfolding entry_at local_header
  entry_at-printable p =
      refuse-When (ltb ((addr + length m) % 2 ^ 32) ((addr + p + 46) % 2 ^ 32)) _ _ λ _.
        bind-When (get_4le m p) _ _ λ sig _. refuse-When (not (sig == censig)) _ _ λ _.
          bind-When (get_4le m (p + 42)) _ _ λ off _.
            bind-When (get_2le m (p + 28)) _ _ λ name_len _.
              bind-When (get_2le m (p + 30)) _ _ λ extra_len _.
                bind-When (get_2le m (p + 32)) _ _ λ comment_len _.
                  refuse-When
                    (ltb ((addr + length m) % 2 ^ 32) ((addr + p + 46 + name_len) % 2 ^ 32)) _ _
                    λ _.
                      refuse-When (not (valid_filename (take name_len (drop (p + 46) m)))) _ _
                        λ valid. bind-When (get_4le m (p + 20)) _ _ λ comp_len _.
                          bind-When (get_4le m (p + 24)) _ _ λ uncomp_len _.
                            bind-When (get_2le m (p + 10)) _ _ λ how _.
                              bind-When (get_4le m (p + 12)) _ _ λ mod_time _.
                                bind-When (get_4le m (p + 16)) _ _ λ crc _.
                                  bind-When (get_2le m (p + 4)) _ _ λ version _.
                                    refuse-When (incompatible safe addr m version) _ _ λ _.
                                      bind-When (get_4le m (p + 38)) _ _ λ attributes _.
                                        bind-When
                                          (header_at safe addr m (safe.add_pointer addr off)) _ _
                                          λ header _.
                                            bind-When (get_2le m (header + 26)) _ _
                                              λ local_name_len _.
                                                bind-When (get_2le m (header + 28)) _ _
                                                  λ local_extra_len _.
                                                    let offset =
                                                      (off + 30 + local_name_len + local_extra_len)
                                                      % 2 ^ 32 in
                                                    refuse-When
                                                      (not (safe.adds_long offset comp_len)) _ _
                                                      λ _.
                                                        refuse-When
                                                          (ltb (length m)
                                                            ((offset + comp_len) % 2 ^ 32))
                                                          _ _
                                                          λ _.
                                                            valid_filename-printable
                                                            (take name_len (drop (p + 46) m)) valid

  read_entries-Ordered :
      (n p : ℕ) (es : List Entry) → Ordered es → When (read_entries safe addr m n p es) Ordered
  unfolding read_entries
  read_entries-Ordered zero p es h = h
  read_entries-Ordered (suc n) p es h = bind-When (entry_at safe addr m p) _ _ λ r e.
      read_entries-Ordered n r.1 (insert_sorted (λ (a : Entry). a.file_name) r.0 es) (
        insert_sorted-Ordered r.0 es h
          (subst (λ o. When o (λ x. printable x.0.file_name ≡ true)) e (entry_at-printable p)))

  open_zip_archive-When : When (open_zip_archive safe addr m) Ordered
  unfolding open_zip_archive parse_zip_archive names_of
  open_zip_archive-When = elim (Bool-cases (ltb (length m) 22)) [
    | inl t ↦ rw t tt
    | inr t ↦ rw t (
        bind-When (get_4le m 0) _ _ λ first _.
          refuse-When (first == endsig || not (first == locsig)) _ _ λ _.
            bind-When (find_eocd m (length m - 22)) _ _ λ p _.
              bind-When (get_2le m (p + 8)) _ _ λ n _. bind-When (get_4le m (p + 16)) _ _ λ cd _.
                refuse-When (n == 0 || leb (length m) cd) _ _
                  λ _. read_entries-Ordered n cd [] (tt, tt))
  ]

  -- The entries of every archive that is opened are sorted by name, and their names are printable.
  pub open_zip_archive-Ordered :
      (es : List Entry)
      → open_zip_archive safe addr m ≡ ok es
      → Sorted (names es) × AllPrintable (names es)
  open_zip_archive-Ordered es h = subst (λ o. When o Ordered) h open_zip_archive-When
