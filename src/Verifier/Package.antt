-- ===== src/Verifier/Package.antt =====
-- The whole check of a package, `verify_jar_signature`.
use recovery_sdx.Base.{
  ℕ, ◌≡◌, ap, ◌∙◌, inl, inr, true, false, none, some, List, [], ◌∷◌, Bytes, arith, get_elem?, codes,
  until_nul, memcmp_eq, Among, Option-cases, >>=-eq-some, guard-eq-some, subst, sym, eq_of_some,
  length, drop,
}
use recovery_sdx.Minzip.Archive.{ZipEntry, Archive}
use recovery_sdx.Verifier.{
  Crypto, slurp_entry, digest_entry, manifest_digest, is_exempt, verify_signature, verify_manifest,
  verify_jar_signature,
}
use recovery_sdx.Verifier.Lines.{lines}
use recovery_sdx.Verifier.Stanzas.{Stanza, stanzas}
use recovery_sdx.Verifier.Manifest.{
  IsCrypto, Vouched, memcmp_eq→eq, digest_entry-eq, length-decode_digest, verify_archive-Vouched,
}
use recovery_sdx.Verifier.Signature.{Signs, verify_signature-Signs}

-- The manifest `mf` has the digest that the signature file `sf` gives for it.
pub record SealsManifest (c : Crypto) (a : Archive) (sf mf : ℕ) : Type 0 where
  pub sf_buf : Bytes
  pub slurped : slurp_entry c a sf ≡ some sf_buf
  pub found : a.find (codes "META-INF/MANIFEST.MF") ≡ some mf
  pub content : Bytes
  pub read : a.contents mf ≡ some content
  pub digest : manifest_digest c a (lines (until_nul sf_buf)) ≡ some (c.sha content)

-- A chain of digests from a trusted key, over a signature file and the manifest, to the entry `i`.
pub record IsTrusted (c : Crypto) (a : Archive) (keys : List Bytes) (i : ℕ) : Type 0 where
  pub sf : ℕ
  pub mf : ℕ
  pub at : ℕ
  pub rsa : ZipEntry
  pub present : get_elem? a.entries at ≡ some rsa
  pub signed : Signs c a keys sf at rsa
  pub sealed : SealsManifest c a sf mf
  pub manifest : Bytes
  pub parsed : List Stanza
  pub slurped : slurp_entry c a mf ≡ some manifest
  pub well_formed : stanzas c none (lines (until_nul manifest)) ≡ some parsed
  pub stanza : Stanza
  pub listed : Among stanza parsed
  pub vouched : Vouched c a stanza.0 stanza.1 i

module _ (c : Crypto) (a : Archive) (good : IsCrypto c) where
  length-manifest_digest :
      (ls : List Bytes) (d : Bytes) → manifest_digest c a ls ≡ some d → length d ≡ c.sha_digest_size
  unfolding manifest_digest
  length-manifest_digest [] d h = cc
  length-manifest_digest (l ∷ ls) d h =
      ground (arith, length-decode_digest c a (drop 22 l) d, length-manifest_digest ls d)

  -- A manifest that `verifyManifest` returns has the digest that the signature file gives for it.
  pub verify_manifest-SealsManifest :
      (sf mf : ℕ) → verify_manifest c a sf ≡ some mf → SealsManifest c a sf mf
  unfolding verify_manifest
  verify_manifest-SealsManifest sf mf h =
      let (buf, slurped, h₁) = >>=-eq-some (slurp_entry c a sf) _ h in
      let ls = lines (until_nul buf) in
      let (expected, decided, h₂) = >>=-eq-some (manifest_digest c a ls) _ h₁ in
      let (mf', found, h₃) = >>=-eq-some (a.find (codes "META-INF/MANIFEST.MF")) _ h₂ in
      let (actual, digested, h₄) = >>=-eq-some (digest_entry c a mf') _ h₃ in
      let (same, h₅) = guard-eq-some (memcmp_eq c.sha_digest_size expected actual) _ h₄ in
      let (content, read, hashed) = digest_entry-eq c a mf' actual digested in
      let e : mf' ≡ mf = ground arith in
      let agree =
        memcmp_eq→eq c.sha_digest_size expected actual (length-manifest_digest ls expected decided)
          (ap length hashed ∙ good.length-sha content) same in
      record {
        sf_buf = buf;
        slurped = slurped;
        found = found ∙ ap some e;
        content = content;
        read = subst (λ i. a.contents i ≡ some content) e read;
        digest = decided ∙ ap some (agree ∙ hashed);
      }

  -- In a package that `verify_jar_signature` accepts there is a chain of digests from one of the
  -- trusted keys, over a signature file and the manifest, to every entry that is not exempt.
  pub verify_jar_signature-IsTrusted :
      (keys : List Bytes) (mf i : ℕ) (e : ZipEntry)
      → verify_jar_signature c a keys ≡ true
      → a.find (codes "META-INF/MANIFEST.MF") ≡ some mf
      → get_elem? a.entries i ≡ some e
      → is_exempt mf i e ≡ false
      → IsTrusted c a keys i
  unfolding verify_jar_signature
  verify_jar_signature-IsTrusted keys mf i entry h found_mf present_i free =
      elim (Option-cases (verify_signature c a keys)) [
        | inl e ↦ absurd (ground arith)
        | inr (sf, e) ↦ elim (Option-cases (verify_manifest c a sf)) [
          | inl e' ↦ absurd (ground arith)
          | inr (mf', e') ↦
              let sealed = verify_manifest-SealsManifest sf mf' e' in
              let same : mf ≡ mf' = eq_of_some (sym found_mf ∙ sealed.found) in
              let (at, rsa, present, signed) = verify_signature-Signs c a keys sf e in
              let (manifest, parsed, stanza, slurped, well_formed, listed, vouched) =
                verify_archive-Vouched c a good mf' i entry (ground arith) present_i
                  (subst (λ m. is_exempt m i entry ≡ false) same free) in
              record {
                sf = sf;
                mf = mf';
                at = at;
                rsa = rsa;
                present = present;
                signed = signed;
                sealed = sealed;
                manifest = manifest;
                parsed = parsed;
                slurped = slurped;
                well_formed = well_formed;
                stanza = stanza;
                listed = listed;
                vouched = vouched;
              }
        ]
      ]
