-- ===== src/Verifier/Stanzas.antt =====
-- The manifest read in two passes: its stanzas first, and their digests then. `verifyArchive` does
-- both in one loop.
use recovery_sdx.Base.{
  ◌≡◌, refl, ap, Bool, Option, none, some, List, [], ◌∷◌, ◌++◌, Bytes, arith, if◌then◌else◌, ◌>>=◌,
  drop, codes, starts_with_nocase,
}
use mathlib.Core.Path.{fun_ext}
use recovery_sdx.Minzip.Archive.{Archive}
use recovery_sdx.Verifier.{Crypto, name_text, check_digest, scan_line, scan}

abbrev pub Stanza : Type 0
Stanza = Bytes × Bytes

module _ (c : Crypto) where
  opening : Option Bytes → Bytes → Option (List Stanza) → Option (List Stanza)
  opening name line rest = elim name [ some n ↦ none | none ↦ rest ]

  closing : Option Bytes → Bytes → Option (List Stanza) → Option (List Stanza)
  closing none line rest = none
  closing (some n) line rest = do ss ← rest; some ((n, drop 13 line) ∷ ss)

  -- A name and the text of its digest, for each digest line; `none` where the lines are out of
  -- order. A name that waits for its digest at the end is passed over.
  unfoldable pub stanzas : Option Bytes → List Bytes → Option (List Stanza)
  unfolding opening closing
  stanzas name [] = some []
  stanzas name (l ∷ ls) =
      let begun = stanzas (some (drop 6 l)) ls in
      let continued = stanzas (some (name_text c name ++ drop 1 l)) ls in
      let ended = stanzas none ls in
      let same = stanzas name ls in
      if starts_with_nocase (codes "Name: ") l
      then opening name l begun
      else if starts_with_nocase (codes " ") l
      then continued
      else if starts_with_nocase (codes "SHA1-Digest: ") l
      then closing name l ended
      else same

module _ (c : Crypto) (a : Archive) where
  unfoldable pub check_all : List Stanza → List Bool → Option (List Bool)
  check_all [] flags = some flags
  check_all ((n, t) ∷ ss) flags = do flags' ← check_digest c a n t flags; check_all ss flags'

  closing_step :
      (n t : Bytes) (flags : List Bool) (parsed : Option (List Stanza))
      → (check_digest c a n t flags >>= λ flags'. parsed >>= λ ss. check_all ss flags')
        ≡ ((parsed >>= λ ss. some ((n, t) ∷ ss)) >>= λ ss. check_all ss flags)
  unfolding check_all
  closing_step n t flags parsed = ground arith

  -- The loop of `verifyArchive` is the two passes, one after the other.
  pub scan-stanzas :
      (name : Option Bytes) (flags : List Bool) (ls : List Bytes)
      → scan c a name flags ls ≡ (stanzas c name ls >>= λ ss. check_all ss flags)
  unfolding scan scan_line stanzas
  scan-stanzas name flags [] = unfold check_all in refl
  scan-stanzas none flags (l ∷ ls) = ground (
    arith,
    scan-stanzas (some (drop 6 l)) flags ls,
    scan-stanzas (some (c.null_text ++ drop 1 l)) flags ls,
    scan-stanzas none flags ls,
  )
  scan-stanzas (some n) flags (l ∷ ls) =
      let checked = check_digest c a n (drop 13 l) flags in
      let later = fun_ext (λ flags'. scan-stanzas none flags' ls) in
      ground (
        arith,
        scan-stanzas (some (n ++ drop 1 l)) flags ls,
        scan-stanzas (some n) flags ls,
        ap {B = Option (List Bool)} (λ k. checked >>= k) later,
        closing_step n (drop 13 l) flags (stanzas c none ls),
      )
