-- ===== src/Verifier/Manifest.antt =====
-- What the files of an archive have been through when `verifyArchive` accepts it.
use recovery_sdx.Base.{
  ℕ, zero, suc, ◌+◌, ◌≡◌, refl, ap, sym, ◌∙◌, inl, inr, Bool, true, false, not, none, some, List,
  [], ◌∷◌, Bytes, arith, length, get_elem?, get_or, set, take, take_all, memcmp_eq, bytes_eq_iff,
  until_nul, Among, Option-cases, >>=-eq-some, guard-eq-some, get_or-set_ne, subst,
}
use native.Mathlib.Decide.{ℕ_discrete}
use recovery_sdx.Minzip.Archive.{ZipEntry, Archive}
use recovery_sdx.Verifier.{
  Crypto, slurp_entry, digest_entry, decode_digest, is_exempt, mark, check_digest, scan, none_set,
  verify_archive,
}
use recovery_sdx.Verifier.Lines.{lines}
use recovery_sdx.Verifier.Stanzas.{Stanza, stanzas, check_all, scan-stanzas}

-- SHA-1 gives as many bytes as its header says.
pub record IsCrypto (c : Crypto) : Type 0 where
  pub length-sha : (d : Bytes) → length (c.sha d) ≡ c.sha_digest_size

pub memcmp_eq→eq :
    (n : ℕ) (a b : Bytes) → length a ≡ n → length b ≡ n → memcmp_eq n a b ≡ true → a ≡ b
memcmp_eq→eq n a b ha hb h =
    sym (take_all n a ha) ∙ (bytes_eq_iff (take n a) (take n b)).0 h ∙ take_all n b hb

pub length-decode_digest :
    (c : Crypto) (a : Archive) (t d : Bytes)
    → decode_digest c a t ≡ some d
    → length d ≡ c.sha_digest_size
unfolding decode_digest
length-decode_digest c a t d h = ground arith

pub digest_entry-eq :
    (c : Crypto) (a : Archive) (i : ℕ) (d : Bytes)
    → digest_entry c a i ≡ some d
    → (content : Bytes) × (a.contents i ≡ some content) × (d ≡ c.sha content)
unfolding digest_entry
digest_entry-eq c a i d h =
    let (content, read, e) = >>=-eq-some (a.contents i) _ h in (content, read, ground arith)

-- The archive's entry `i`, found by the name `n`, is intact, and its data has the digest that the
-- text `t` spells in base 64.
pub record Vouched (c : Crypto) (a : Archive) (n t : Bytes) (i : ℕ) : Type 0 where
  pub found : a.find n ≡ some i
  pub intact : a.is_intact i ≡ true
  pub content : Bytes
  pub read : a.contents i ≡ some content
  pub digest : decode_digest c a t ≡ some (c.sha content)

none_set-get_or : (flags : List Bool) (i : ℕ) → none_set flags ≡ true → get_or flags i false ≡ false
unfolding none_set
none_set-get_or [] i h = refl
none_set-get_or (f ∷ fs) zero h = ground arith
none_set-get_or (f ∷ fs) (suc i) h = none_set-get_or fs i (ground arith)

get_or-mark :
    (mf k i : ℕ) (es : List ZipEntry) (e : ZipEntry)
    → get_elem? es i ≡ some e
    → get_or (mark mf k es) i false ≡ not (is_exempt mf (k + i) e)
unfolding mark
get_or-mark mf k i [] e h = cc
get_or-mark mf k zero (x ∷ es) e h = ground arith
get_or-mark mf k (suc i) (x ∷ es) e h = ground (arith, get_or-mark mf (suc k) i es e)

module _ (c : Crypto) (a : Archive) (good : IsCrypto c) where
  -- A digest line that passes clears one flag, and vouches for that entry.
  check_digest-Vouched :
      (n t : Bytes) (flags flags' : List Bool)
      → check_digest c a n t flags ≡ some flags'
      → (i : ℕ) × Vouched c a n t i × (flags' ≡ set flags i false) × (get_or flags i false ≡ true)
  unfolding check_digest
  check_digest-Vouched n t flags flags' h =
      let (i, found, h₁) = >>=-eq-some (a.find n) _ h in
      let (intact, h₂) = guard-eq-some (a.is_intact i) _ h₁ in
      let (waits, h₃) = guard-eq-some (get_or flags i false) _ h₂ in
      let (expected, decoded, h₄) = >>=-eq-some (decode_digest c a t) _ h₃ in
      let (actual, digested, h₅) = >>=-eq-some (digest_entry c a i) _ h₄ in
      let (content, read, hashed) = digest_entry-eq c a i actual digested in
      let (same, h₆) = guard-eq-some (memcmp_eq c.sha_digest_size expected actual) _ h₅ in
      let e =
        memcmp_eq→eq c.sha_digest_size expected actual (length-decode_digest c a t expected decoded)
          (ap length hashed ∙ good.length-sha content) same in
      (
        i,
        record {
          found = found;
          intact = intact;
          content = content;
          read = read;
          digest = decoded ∙ ap some (e ∙ hashed);
        },
        ground arith,
        waits,
      )

  -- A flag that the stanzas cleared is vouched for by one of them.
  check_all-Vouched :
      (ss : List Stanza) (flags flags' : List Bool) (i : ℕ)
      → check_all c a ss flags ≡ some flags'
      → get_or flags i false ≡ true
      → get_or flags' i false ≡ false
      → (s : Stanza) × Among s ss × Vouched c a s.0 s.1 i
  unfolding check_all
  check_all-Vouched [] flags flags' i h set clear = absurd (ground arith)
  check_all-Vouched ((n, t) ∷ ss) flags flags' i h set clear =
      let (mid, checked, rest) = >>=-eq-some (check_digest c a n t flags) _ h in
      let (j, v, cleared, waits) = check_digest-Vouched n t flags mid checked in
      elim (ℕ_discrete j i) [
        | yes e ↦ ((n, t), inl refl, subst (Vouched c a n t) e v)
        | no ne ↦
            let kept =
              ap (λ f. get_or f i false) cleared ∙ get_or-set_ne flags j i false false ne in
            let (s, among, w) = check_all-Vouched ss mid flags' i rest (kept ∙ set) clear in
            (s, inr among, w)
      ]

  pub verify_archive-covers :
      (mf : ℕ)
      → verify_archive c a mf ≡ true
      → (manifest : Bytes) × (ss : List Stanza) × (slurp_entry c a mf ≡ some manifest)
        × (stanzas c none (lines (until_nul manifest)) ≡ some ss)
        × ((i : ℕ) (e : ZipEntry)
            → get_elem? a.entries i ≡ some e
            → is_exempt mf i e ≡ false
            → (s : Stanza) × Among s ss × Vouched c a s.0 s.1 i)
  unfolding verify_archive
  verify_archive-covers mf h = elim (Option-cases (slurp_entry c a mf)) [
    | inl e ↦ absurd (ground arith)
    | inr (manifest, e) ↦
        let ls = lines (until_nul manifest) in
        let start = mark mf 0 a.entries in
        elim (Option-cases (scan c a none start ls)) [
          | inl e' ↦ absurd (ground arith)
          | inr (flags, e') ↦
              let (ss, parsed, checked) =
                >>=-eq-some (stanzas c none ls) _ (sym (scan-stanzas c a none start ls) ∙ e') in
              let clear : none_set flags ≡ true = ground arith in
              (
                manifest,
                ss,
                e,
                parsed,
                λ i entry at free.
                    check_all-Vouched ss start flags i checked
                      (ground (arith, get_or-mark mf 0 i a.entries entry at))
                      (none_set-get_or flags i clear),
              )
        ]
  ]

  -- If `verifyArchive` accepts, the manifest is well formed, and every entry that is not exempt is
  -- intact and stands in a stanza of the manifest, with the digest of its contents.
  pub verify_archive-Vouched :
      (mf i : ℕ) (e : ZipEntry)
      → verify_archive c a mf ≡ true
      → get_elem? a.entries i ≡ some e
      → is_exempt mf i e ≡ false
      → (manifest : Bytes) × (ss : List Stanza) × (s : Stanza) × (slurp_entry c a mf
          ≡ some manifest)
        × (stanzas c none (lines (until_nul manifest)) ≡ some ss)
        × Among s ss
        × Vouched c a s.0 s.1 i
  verify_archive-Vouched mf i e h at free =
      let (manifest, ss, slurped, parsed, covered) = verify_archive-covers mf h in
      let (s, among, vouched) = covered i e at free in
      (manifest, ss, s, slurped, parsed, among, vouched)
