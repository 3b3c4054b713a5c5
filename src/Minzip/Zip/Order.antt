-- ===== src/Minzip/Zip/Order.antt =====
-- The names of an archive are sorted, and the binary search keeps them so.
pub mod Lex
pub mod Archive
use recovery_sdx.Base.{
  ℕ, zero, suc, ◌+◌, ◌-◌, ◌/◌, ◌≤◌, ◌<◌, ◌≡◌, refl, sym, ap, ◌∙◌, subst, inl, inr, ◌⊎◌, Bool, true,
  false, not, List, [], ◌∷◌, ◌++◌, Bytes, ltb, leb, ◌==◌, ltb→lt, if◌then◌else◌, length, get_or,
  take, drop, arith, Bool-cases, length-append, length-take, length-drop,
}
use recovery_sdx.Base.Int.{ℤ, pos, negsuc, minus_one, is_negative, is_nonzero}
use recovery_sdx.Minzip.Zip.{printable}
use recovery_sdx.Minzip.Zip.Search.{name_diff, search}
use recovery_sdx.Minzip.Zip.Order.Lex.{
  lex, is_positive, Le, Le-refl, Le-trans, Le-total, Le-of_negative, name_diff-lex,
}

abbrev pub AllBehind : Bytes → List Bytes → Type 0
AllBehind n [] = Unit
AllBehind n (x ∷ xs) = Le n x × AllBehind n xs

abbrev pub Sorted : List Bytes → Type 0
Sorted [] = Unit
Sorted (n ∷ ns) = AllBehind n ns × Sorted ns

abbrev pub AllPrintable : List Bytes → Type 0
AllPrintable [] = Unit
AllPrintable (n ∷ ns) = (printable n ≡ true) × AllPrintable ns

AllBehind-get_or :
    (n : Bytes) (ns : List Bytes) (i : ℕ) → AllBehind n ns → i < length ns → Le n (get_or ns i [])
AllBehind-get_or n [] i h lt = absurd (omega arith)
AllBehind-get_or n (x ∷ xs) zero h lt = h.0
AllBehind-get_or n (x ∷ xs) (suc i) h lt = AllBehind-get_or n xs i h.1 (omega arith)

printable-get_or :
    (ns : List Bytes) (i : ℕ) → AllPrintable ns → i < length ns → printable (get_or ns i []) ≡ true
printable-get_or [] i h lt = absurd (omega arith)
printable-get_or (x ∷ xs) zero h lt = h.0
printable-get_or (x ∷ xs) (suc i) h lt = printable-get_or xs i h.1 (omega arith)

Sorted-get_or :
    (ns : List Bytes) (i j : ℕ)
    → Sorted ns
    → i ≤ j
    → j < length ns
    → Le (get_or ns i []) (get_or ns j [])
Sorted-get_or [] i j s le lt = absurd (omega arith)
Sorted-get_or (x ∷ xs) zero zero s le lt = Le-refl x
Sorted-get_or (x ∷ xs) zero (suc j) s le lt = AllBehind-get_or x xs j s.0 (omega arith)
Sorted-get_or (x ∷ xs) (suc i) zero s le lt = absurd (omega arith)
Sorted-get_or (x ∷ xs) (suc i) (suc j) s le lt =
    Sorted-get_or xs i j s.1 (omega arith) (omega arith)

zero_not_positive : (n : ℤ) → is_nonzero n ≡ false → is_positive n ≡ false
zero_not_positive (pos zero) h = refl
zero_not_positive (pos (suc n)) h = ground arith
zero_not_positive (negsuc n) h = refl

-- The names in front of `t` are not behind the new one, and the others not in front of it.
pub record Place (new : Bytes) (ns : List Bytes) (t : ℕ) : Type 0 where
  pub inside : t ≤ length ns
  pub front : (k : ℕ) → k < t → Le (get_or ns k []) new
  pub behind : (k : ℕ) → t ≤ k → k < length ns → Le new (get_or ns k [])

module _ (new : Bytes) (ns : List Bytes) (sorted : Sorted ns) (printables : AllPrintable ns)
    (printable_new : printable new ≡ true) where
  diff-lex : (i : ℕ) → i < length ns → name_diff (get_or ns i []) new ≡ lex (get_or ns i []) new
  diff-lex i lt =
      name_diff-lex (get_or ns i []) new (printable-get_or ns i printables lt) printable_new

  -- The loop's invariant, at both ends of what is left.
  record Bounds (low hi : ℕ) : Type 0 where
    low_le : low ≤ hi
    hi_le : hi ≤ length ns
    front : (k : ℕ) → k < low → Le (get_or ns k []) new
    behind : (k : ℕ) → hi ≤ k → k < length ns → Le new (get_or ns k [])

  search-Place :
      (fuel low hi : ℕ) → Bounds low hi → hi ≤ low + fuel → Place new ns (search fuel new ns low hi)
  unfolding search
  search-Place zero low hi b room = record {
    inside = b.hi_le;
    front = λ k lt. b.front k (omega (arith, b.low_le));
    behind = b.behind;
  }
  search-Place (suc fuel) low hi b room = elim (Bool-cases (ltb low hi)) [
    | inr t ↦
        rw t
          (record { inside = b.hi_le; front = λ k lt. b.front k (ground arith); behind = b.behind })
    | inl t ↦
        let mid = low + (hi - 1 - low) / 2 in
        let lt : mid < hi = ground arith in
        let inside : mid < length ns = omega (arith, b.hi_le, lt) in
        let diff = diff-lex mid inside in
        elim (Bool-cases (is_negative (name_diff (get_or ns mid []) new))) [
          | inl n ↦
              let le =
                Le-of_negative (get_or ns mid []) new (subst (λ z. is_negative z ≡ true) diff n) in
              rw (t, n)
                (search-Place fuel (mid + 1) hi
                  (record {
                    low_le = omega (arith, lt);
                    hi_le = b.hi_le;
                    front = λ k k_lt.
                        Le-trans (get_or ns k []) (get_or ns mid []) new
                          (Sorted-get_or ns k mid sorted (omega arith) inside) le;
                    behind = b.behind;
                  })
                  (omega arith))
          | inr n ↦
              let le =
                Le-total (get_or ns mid []) new (subst (λ z. is_negative z ≡ false) diff n) in
              elim (Bool-cases (is_nonzero (name_diff (get_or ns mid []) new))) [
                | inl z ↦
                    rw (t, n, z)
                      (search-Place fuel low mid
                        (record {
                          low_le = omega arith;
                          hi_le = omega (arith, inside);
                          front = b.front;
                          behind = λ k le_k k_lt.
                              Le-trans new (get_or ns mid []) (get_or ns k []) le
                                (Sorted-get_or ns mid k sorted le_k k_lt);
                        })
                        (omega (arith, lt, room)))
                | inr z ↦
                    let up = zero_not_positive _ (subst (λ y. is_nonzero y ≡ false) diff z) in
                    rw (t, n, z)
                      (record {
                        inside = omega (arith, inside);
                        front = λ k k_lt.
                            Le-trans (get_or ns k []) (get_or ns mid []) new
                              (Sorted-get_or ns k mid sorted (omega arith) inside) up;
                        behind = λ k le_k k_lt.
                            Le-trans new (get_or ns mid []) (get_or ns k []) le
                              (Sorted-get_or ns mid k sorted (omega arith) k_lt);
                      })
              ]
        ]
  ]

  -- As many rounds as there are names are enough.
  pub insertion-Place : Place new ns (search (length ns) new ns 0 (length ns))
  insertion-Place =
      search-Place (length ns) 0 (length ns)
        (record {
          low_le = omega arith;
          hi_le = omega arith;
          front = λ k lt. absurd (omega arith);
          behind = λ k le lt. absurd (omega arith);
        })
        (omega arith)

AllBehind-put :
    (n new : Bytes) (t : ℕ) (ns : List Bytes)
    → Le n new
    → AllBehind n ns
    → AllBehind n (take t ns ++ (new ∷ drop t ns))
AllBehind-put n new zero ns h a = (h, a)
AllBehind-put n new (suc t) [] h a = (h, a)
AllBehind-put n new (suc t) (x ∷ xs) h a = (a.0, AllBehind-put n new t xs h a.1)

AllBehind-intro :
    (n : Bytes) (ns : List Bytes)
    → ((k : ℕ) → k < length ns → Le n (get_or ns k []))
    → AllBehind n ns
AllBehind-intro n [] h = tt
AllBehind-intro n (x ∷ xs) h =
    (h 0 (omega arith), AllBehind-intro n xs (λ k lt. h (suc k) (omega arith)))

Sorted-put :
    (new : Bytes) (t : ℕ) (ns : List Bytes)
    → Sorted ns
    → ((k : ℕ) → k < t → k < length ns → Le (get_or ns k []) new)
    → ((k : ℕ) → t ≤ k → k < length ns → Le new (get_or ns k []))
    → Sorted (take t ns ++ (new ∷ drop t ns))
Sorted-put new zero ns s front behind =
    (AllBehind-intro new ns (λ k lt. behind k (omega arith) lt), s)
Sorted-put new (suc t) [] s front behind = (tt, tt)
Sorted-put new (suc t) (x ∷ xs) s front behind = (
  AllBehind-put x new t xs (front 0 (omega arith) (omega arith)) s.0,
  Sorted-put new t xs s.1 (λ k lt in_ns. front (suc k) (omega arith) (omega arith))
      (λ k le in_ns. behind (suc k) (omega arith) (omega arith)),
)

AllPrintable-put :
    (new : Bytes) (t : ℕ) (ns : List Bytes)
    → printable new ≡ true
    → AllPrintable ns
    → AllPrintable (take t ns ++ (new ∷ drop t ns))
AllPrintable-put new zero ns h a = (h, a)
AllPrintable-put new (suc t) [] h a = (h, a)
AllPrintable-put new (suc t) (x ∷ xs) h a = (a.0, AllPrintable-put new t xs h a.1)

-- A new name goes where the search says, and the names stay sorted.
pub put-Sorted :
    (new : Bytes) (ns : List Bytes)
    → Sorted ns
    → AllPrintable ns
    → printable new ≡ true
    → let t = search (length ns) new ns 0 (length ns) in
      Sorted (take t ns ++ (new ∷ drop t ns)) × AllPrintable (take t ns ++ (new ∷ drop t ns))
put-Sorted new ns s p h =
    let place = insertion-Place new ns s p h in
    (
      Sorted-put new (search (length ns) new ns 0 (length ns)) ns s (λ k lt in_ns. place.front k lt)
          place.behind,
      AllPrintable-put new (search (length ns) new ns 0 (length ns)) ns h p,
    )
