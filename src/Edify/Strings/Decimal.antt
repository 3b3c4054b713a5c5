-- ===== src/Edify/Strings/Decimal.antt =====
-- `strtol` on decimal numerals.
use recovery_sdx.Base.{
  ℕ, ◌≡◌, ◌<◌, sym, ap, ◌∙◌, Bool, true, false, ◌&&◌, [], ◌∷◌, ◌+◌, ◌-◌, ◌*◌, ◌^◌, Bytes, leb, ltb,
  ◌==◌, length, arith, &&-eq-true,
}
use native.Mathlib.Omega.{pow_step}
use recovery_sdx.Base.Int.{pos}
use recovery_sdx.Edify.Strings.{
  is_digit, is_space, skip_space, digits, clamp, number, signed, strtol,
}

unfoldable pub all_digits : Bytes → Bool
all_digits [] = true
all_digits (c ∷ s) = is_digit c && all_digits s

-- The sum of the digits, each by the power of ten of its place.
unfoldable pub place_value : Bytes → ℕ
place_value [] = 0
place_value (c ∷ s) = (c - b'0') * 10 ^ length s + place_value s

-- A numeral that a long of 32 bits holds.
pub record IsNumeral (s : Bytes) : Type 0 where
  pub written : ltb 0 (length s) ≡ true
  pub digits : all_digits s ≡ true
  pub held : place_value s < 2 ^ 31

shift : (a d t v : ℕ) → (a * 10 + d) * t + v ≡ a * (10 * t) + (d * t + v)
shift a d t v = omega arith

digits-place_value :
    (acc : ℕ) (s : Bytes)
    → all_digits s ≡ true
    → digits acc s ≡ (acc * 10 ^ length s + place_value s, [])
unfolding digits all_digits place_value
digits-place_value acc [] h = ap (λ n. (n, [])) (omega arith)
digits-place_value acc (c ∷ s) h =
    let (h₁, h₂) = &&-eq-true (is_digit c) (all_digits s) h in
    rw (h₁) (
      digits-place_value (acc * 10 + (c - b'0')) s h₂
      ∙ ap (λ n. (n, []))
          (shift acc (c - b'0') (10 ^ length s) (place_value s)
            ∙ ap (λ t. acc * t + place_value (c ∷ s)) (sym (pow_step 10 (length s)))))

not_space : (c : ℕ) → leb 48 c ≡ true → is_space c ≡ false
unfolding is_space
not_space c h = ground arith

not_minus : (c : ℕ) → leb 48 c ≡ true → (c == b'-') ≡ false
not_minus c h = ground arith

not_plus : (c : ℕ) → leb 48 c ≡ true → (c == b'+') ≡ false
not_plus c h = ground arith

lt→ltb : (a b : ℕ) → a < b → ltb a b ≡ true
lt→ltb a b h = ground arith

pub strtol-place_value : (s : Bytes) → IsNumeral s → strtol s ≡ (pos (place_value s), [])
unfolding strtol signed skip_space is_space number clamp all_digits place_value
strtol-place_value [] h = ground arith
strtol-place_value (c ∷ s) h =
    let (h₁, h₂) = &&-eq-true (is_digit c) (all_digits s) h.digits in
    let (h₃, h₄) = &&-eq-true (leb 48 c) (leb c 57) h₁ in
    let more : digits (0 * 10 + (c - b'0')) s ≡ (place_value (c ∷ s), []) =
      digits-place_value (0 * 10 + (c - b'0')) s h₂ ∙ ap (λ n. (n, [])) (omega arith) in
    rw (
      not_space c h₃,
      not_minus c h₃,
      not_plus c h₃,
      h₁,
      more,
      lt→ltb (place_value (c ∷ s)) (2 ^ 31) h.held,
    )
