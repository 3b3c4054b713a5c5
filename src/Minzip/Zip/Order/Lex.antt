-- ===== src/Minzip/Zip/Order/Lex.antt =====
-- The order of the names: byte by byte, and a name before those that it begins.
use recovery_sdx.Base.{
  ℕ, zero, suc, ◌<◌, ◌≡◌, refl, inl, inr, Bool, true, false, [], ◌∷◌, Bytes, ltb, if◌then◌else◌,
  length, arith, Bool-cases,
}
use recovery_sdx.Base.Int.{ℤ, pos, negsuc, minus_one, is_negative}
use recovery_sdx.Minzip.Zip.{printable}
use recovery_sdx.Minzip.Zip.Search.{strncmp, compare_len, name_diff}

unfoldable pub lex : Bytes → Bytes → ℤ
lex [] [] = pos 0
lex [] (d ∷ b) = minus_one
lex (c ∷ a) [] = pos 1
lex (c ∷ a) (d ∷ b) = if ltb c d then minus_one else if ltb d c then pos 1 else lex a b

abbrev pub is_positive : ℤ → Bool
is_positive (pos zero) = false
is_positive (pos (suc n)) = true
is_positive (negsuc n) = false

-- `a` is not behind `b`.
abbrev pub Le : Bytes → Bytes → Type 0
Le a b = is_positive (lex a b) ≡ false

pub Le-refl : (a : Bytes) → Le a a
unfolding lex
Le-refl [] = refl
Le-refl (c ∷ a) = ground (arith, Le-refl a)

pub Le-trans : (a b c : Bytes) → Le a b → Le b c → Le a c
unfolding lex
Le-trans [] b [] h k = refl
Le-trans [] b (z ∷ c) h k = refl
Le-trans (x ∷ a) [] c h k = ground arith
Le-trans (x ∷ a) (y ∷ b) [] h k = ground arith
Le-trans (x ∷ a) (y ∷ b) (z ∷ c) h k = ground (arith, Le-trans a b c)

-- What is not in front is behind.
pub Le-total : (a b : Bytes) → is_negative (lex a b) ≡ false → Le b a
unfolding lex
Le-total [] [] h = refl
Le-total [] (d ∷ b) h = ground arith
Le-total (c ∷ a) [] h = refl
Le-total (c ∷ a) (d ∷ b) h = ground (arith, Le-total a b)

not_both : (n : ℤ) → is_negative n ≡ true → is_positive n ≡ false
not_both (pos n) h = ground arith
not_both (negsuc n) h = refl

pub Le-of_negative : (a b : Bytes) → is_negative (lex a b) ≡ true → Le a b
Le-of_negative a b h = not_both (lex a b) h

name_diff-cons :
    (c d : ℕ) (a b : Bytes)
    → 0 < c
    → name_diff (c ∷ a) (d ∷ b)
      ≡ (if ltb c d then minus_one else if ltb d c then pos 1 else name_diff a b)
unfolding name_diff strncmp compare_len
name_diff-cons c d a b h = elim (Bool-cases (ltb (length a) (length b))) [
  | inl t ↦
      let t' : ltb (suc (length a)) (suc (length b)) ≡ true = ground arith in
      rw (t, t') (ground arith)
  | inr t ↦
      let t' : ltb (suc (length a)) (suc (length b)) ≡ false = ground arith in
      rw (t, t') (ground arith)
]

-- With no NUL in the names, the code compares by this order.
pub name_diff-lex :
    (a b : Bytes) → printable a ≡ true → printable b ≡ true → name_diff a b ≡ lex a b
unfolding name_diff strncmp compare_len lex printable
name_diff-lex [] [] h k = refl
name_diff-lex [] (d ∷ b) h k = ground arith
name_diff-lex (c ∷ a) [] h k = ground arith
name_diff-lex (c ∷ a) (d ∷ b) h k =
    ground (arith, name_diff-cons c d a b (ground arith), name_diff-lex a b)
