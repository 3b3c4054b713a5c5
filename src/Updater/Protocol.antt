-- ===== src/Updater/Protocol.antt =====
-- What the updater sends through its pipe, and what install.c reads from it.
use mathlib.Core.List.{append_assoc}
use recovery_sdx.Base.{
  ℕ, ◌≡◌, refl, sym, ◌∙◌, Bool, true, false, not, ◌&&◌, none, some, [], ◌∷◌, inl, inr, subst, ◌++◌,
  Bytes, codes, bytes_eq, arith, Bool-cases, Option, ◌>>=◌, ◌==◌, ◌+◌, ◌≤◌, suc, zero, length,
  until_nul, length-append,
}
use recovery_sdx.Edify.Expr.{State, value, Arg}
use recovery_sdx.Edify.Arguments.{read_two}
use recovery_sdx.Updater.Machine.{Machine, Info, sending}
use recovery_sdx.Updater.Volumes.{is_blank}
use recovery_sdx.Updater.Images.{firmware_command, write_firmware_image_fn}
use recovery_sdx.Recovery.{fgets}
use recovery_sdx.Install.{
  is_space, word_of, strtok, firmware_line, obey, read_line, read_lines, child_lines,
}

-- Not empty, and without a space, a line break or a NUL.
unfoldable pub no_space : Bytes → Bool
no_space [] = true
no_space (c ∷ s) = not (is_space c) && (not (c == 0) && no_space s)

unfoldable pub is_word : Bytes → Bool
unfolding no_space
is_word [] = false
is_word (c ∷ s) = no_space (c ∷ s)

word_of_word :
    (t rest : Bytes) (c : ℕ)
    → no_space t ≡ true
    → is_space c ≡ true
    → word_of (t ++ c ∷ rest) ≡ (t, rest)
unfolding word_of no_space
word_of_word [] rest c h k = rw k refl
word_of_word (d ∷ t) rest c h k = elim (Bool-cases (is_space d)) [
  | inl y ↦ absurd (ground (arith, h, y))
  | inr n ↦ rw (n, word_of_word t rest c (ground (arith, h)) k) refl
]

-- A word in front of a space is the next piece.
strtok_word :
    (t rest : Bytes) (c : ℕ)
    → is_word t ≡ true
    → is_space c ≡ true
    → strtok (t ++ c ∷ rest) ≡ some (t, rest)
unfolding strtok is_word no_space
strtok_word [] rest c h k = ground (arith, h)
strtok_word (d ∷ t) rest c h k = elim (Bool-cases (is_space d)) [
  | inl y ↦ absurd (ground (arith, h, y))
  | inr n ↦ rw (n, word_of_word t rest c (ground (arith, h)) k) refl
]

firmware_command-read_line :
    (partition filename : Bytes)
    → is_word partition ≡ true
    → is_word filename ≡ true
    → read_line none (firmware_command partition filename) ≡ some (some (partition, filename))
unfolding read_line firmware_command obey firmware_line bytes_eq
firmware_command-read_line p f hp hf =
    subst (λ x. obey none (codes "firmware") x ≡ some (some (p, f)))
      (sym
        (append_assoc (p ++ codes " ") f (10 ∷ []) ∙ append_assoc p (codes " ") (f ++ (10 ∷ []))))
      (rw (strtok_word p (f ++ (10 ∷ [])) 32 hp refl, strtok_word f [] 10 hf refl) refl)

-- Without a line break or a NUL.
no_break : Bytes → Bool
no_break [] = true
no_break (c ∷ s) = not (c == 10) && (not (c == 0) && no_break s)

no_break-append : (s t : Bytes) → no_break s ≡ true → no_break t ≡ true → no_break (s ++ t) ≡ true
unfolding no_break
no_break-append [] t h k = k
no_break-append (c ∷ s) t h k = ground (arith, no_break-append s t)

no_space-no_break : (s : Bytes) → no_space s ≡ true → no_break s ≡ true
unfolding no_space no_break is_space
no_space-no_break [] h = refl
no_space-no_break (c ∷ s) h = ground (arith, no_space-no_break s)

is_word-no_break : (s : Bytes) → is_word s ≡ true → no_break s ≡ true
unfolding is_word
is_word-no_break [] h = absurd (ground (arith, h))
is_word-no_break (c ∷ s) h = no_space-no_break (c ∷ s) h

until_nul-line : (s : Bytes) → no_break s ≡ true → until_nul (s ++ 10 ∷ []) ≡ s ++ 10 ∷ []
unfolding until_nul no_break
until_nul-line [] h = refl
until_nul-line (c ∷ s) h = ground (arith, until_nul-line s)

fgets-line :
    (room : ℕ) (s : Bytes)
    → length s + 1 ≤ room
    → no_break s ≡ true
    → fgets room (s ++ 10 ∷ []) ≡ (s ++ 10 ∷ [], [])
unfolding fgets no_break
fgets-line zero s l h = absurd (omega arith)
fgets-line (suc room) [] l h = refl
fgets-line (suc room) (c ∷ s) l h = elim (Bool-cases (c == 10)) [
  | inl t ↦ absurd (ground (arith, h, t))
  | inr t ↦ rw (t, fgets-line room s (omega arith) (ground (arith, h))) refl
]

-- A line that the buffer has room for is read as one line.
child_lines-line :
    (n : ℕ) (s : Bytes)
    → length s + 1 ≤ 80
    → no_break s ≡ true
    → child_lines (suc (suc n)) (s ++ 10 ∷ []) ≡ (s ++ 10 ∷ []) ∷ []
unfolding child_lines
child_lines-line n [] l h = refl
child_lines-line n (c ∷ s) l h = rw (fgets-line 80 (c ∷ s) l h) refl

read_lines-line :
    (n : ℕ) (s : Bytes)
    → length s + 1 ≤ 80
    → no_break s ≡ true
    → read_lines none (child_lines (suc (suc n)) (s ++ 10 ∷ [])) ≡ read_line none (s ++ 10 ∷ [])
unfolding read_lines
read_lines-line n s l h =
    rw (child_lines-line n s l h, until_nul-line s h) (single (read_line none (s ++ 10 ∷ [])))
  where
    single : (o : Option (Option (Bytes × Bytes))) → (o >>= λ f. some f) ≡ o
    single none = refl
    single (some f) = refl

firmware_command-read_lines :
    (partition filename : Bytes)
    → is_word partition ≡ true
    → is_word filename ≡ true
    → length partition + length filename ≤ 69
    → let line = firmware_command partition filename in
      read_lines none (child_lines (length line) line) ≡ some (some (partition, filename))
unfolding firmware_command
firmware_command-read_lines p f hp hf short =
    read_lines-line (length (codes "rmware " ++ p ++ codes " " ++ f ++ 10 ∷ []))
      (codes "firmware " ++ p ++ codes " " ++ f)
      (omega (
        arith,
        length-append (codes "firmware " ++ p ++ codes " ") f,
        length-append (codes "firmware " ++ p) (codes " "),
        length-append (codes "firmware ") p,
      ))
      (no_break-append (codes "firmware " ++ p ++ codes " ") f
        (no_break-append (codes "firmware " ++ p) (codes " ")
          (no_break-append (codes "firmware ") p (unfold no_break in refl) (is_word-no_break p hp))
          (unfold no_break in refl))
        (is_word-no_break f hf))
    ∙ firmware_command-read_line p f hp hf

module _ {W : Type 0} (m : Machine W) where
  -- When its arguments are a file and a partition, each a word without a space, a line break or a NUL,
  -- and of 69 bytes at most together, `write_firmware_image` sends one text, in whose lines, read with
  -- the buffer of 81 bytes of install.c, this partition and this file are announced.
  pub write_firmware_image_fn-read_line :
      (name partition filename : Bytes) (a b : Arg (Info W)) (s s₁ s₂ : State (Info W))
      → a.run s ≡ (value filename, s₁)
      → b.run s₁ ≡ (value partition, s₂)
      → is_word partition ≡ true
      → is_word filename ≡ true
      → length partition + length filename ≤ 69
      → (line : Bytes) × (write_firmware_image_fn m name (a ∷ b ∷ []) s ≡ (
        value partition,
        record s₂ { cookie = record s₂.cookie { pipe = s₂.cookie.pipe ++ line } },
      ))
        × (read_lines none (child_lines (length line) line) ≡ some (some (partition, filename)))
  unfolding write_firmware_image_fn is_blank is_word sending read_two
  write_firmware_image_fn-read_line name [] f a b s s₁ s₂ e d hp hf short = ground (arith, hp)
  write_firmware_image_fn-read_line name (c ∷ p) [] a b s s₁ s₂ e d hp hf short = ground (arith, hf)
  write_firmware_image_fn-read_line name (c ∷ p) (x ∷ f) a b s s₁ s₂ e d hp hf short = (
    firmware_command (c ∷ p) (x ∷ f),
    rw (e, d) refl,
    firmware_command-read_lines (c ∷ p) (x ∷ f) hp hf short,
  )
