-- ===== src/Verifier/Signature.antt =====
-- What a signature file that `verifySignature` returns has been through.
use recovery_sdx.Base.{
  ℕ, zero, suc, ◌+◌, ◌-◌, ◌≡◌, refl, ap, sym, ◌∙◌, inl, inr, true, none, some, List, [], ◌∷◌, Bytes,
  arith, get_elem?, drop, Among, Bool-cases, Option-cases, >>=-eq-some, guard-eq-some, subst,
}
use native.Mathlib.Nat.{zero-add}
use recovery_sdx.Minzip.Archive.{ZipEntry, Archive}
use recovery_sdx.Verifier.{
  Crypto, slurp_entry, digest_entry, is_rsa_entry, sf_name, any_key, signed_by, signature_loop,
  verify_signature,
}
use recovery_sdx.Verifier.Manifest.{digest_entry-eq}

-- The entry `e` at `i` is an .RSA file of META-INF, `sf` is the .SF file of that name, and the last
-- bytes of the .RSA file verify under a trusted key as a signature of the digest of `sf`.
pub record Signs (c : Crypto) (a : Archive) (keys : List Bytes) (sf i : ℕ) (e : ZipEntry)
    : Type 0 where
  pub rsa : is_rsa_entry c a e ≡ true
  pub found : a.find (sf_name e) ≡ some sf
  pub content : Bytes
  pub read : a.contents sf ≡ some content
  pub rsa_buf : Bytes
  pub slurped : slurp_entry c a i ≡ some rsa_buf
  pub key : Bytes
  pub trusted : Among key keys
  pub verifies :
      c.rsa_verify key (drop (e.uncomp_len - c.rsa_num_bytes) rsa_buf) (c.sha content) ≡ true

module _ (c : Crypto) (a : Archive) where
  any_key-Among :
      (keys : List Bytes) (sig digest : Bytes)
      → any_key c a keys sig digest ≡ true
      → (k : Bytes) × Among k keys × (c.rsa_verify k sig digest ≡ true)
  unfolding any_key
  any_key-Among [] sig digest h = cc
  any_key-Among (k ∷ ks) sig digest h = elim (Bool-cases (c.rsa_verify k sig digest)) [
    | inl e ↦ (k, inl refl, e)
    | inr e ↦ let (j, among, v) = any_key-Among ks sig digest (ground arith) in (j, inr among, v)
  ]

  Among-any_key :
      (keys : List Bytes) (sig digest k : Bytes)
      → Among k keys
      → c.rsa_verify k sig digest ≡ true
      → any_key c a keys sig digest ≡ true
  unfolding any_key
  Among-any_key [] sig digest k m v = elim m [ ]
  Among-any_key (x ∷ ks) sig digest k (inl e) v = ground arith
  Among-any_key (x ∷ ks) sig digest k (inr m) v = ground (arith, Among-any_key ks sig digest k m v)

  signed_by-Signs :
      (keys : List Bytes) (i sf : ℕ) (e : ZipEntry)
      → signed_by c a keys i e ≡ some sf
      → Signs c a keys sf i e
  unfolding signed_by
  signed_by-Signs keys i sf e h =
      let (rsa, h₁) = guard-eq-some (is_rsa_entry c a e) _ h in
      let (sf', found, h₂) = >>=-eq-some (a.find (sf_name e)) _ h₁ in
      let (digest, digested, h₃) = >>=-eq-some (digest_entry c a sf') _ h₂ in
      let (rsa_buf, slurped, h₄) = >>=-eq-some (slurp_entry c a i) _ h₃ in
      let sig = drop (e.uncomp_len - c.rsa_num_bytes) rsa_buf in
      let (any, h₅) = guard-eq-some (any_key c a keys sig digest) _ h₄ in
      let (content, read, hashed) = digest_entry-eq c a sf' digest digested in
      let (key, trusted, verifies) = any_key-Among keys sig digest any in
      let same : sf' ≡ sf = ground arith in
      record {
        rsa = rsa;
        found = found ∙ ap some same;
        content = content;
        read = subst (λ s. a.contents s ≡ some content) same read;
        rsa_buf = rsa_buf;
        slurped = slurped;
        key = key;
        trusted = trusted;
        verifies = subst (λ d. c.rsa_verify key sig d ≡ true) hashed verifies;
      }

  Signs-signed_by :
      (keys : List Bytes) (i sf : ℕ) (e : ZipEntry)
      → Signs c a keys sf i e
      → signed_by c a keys i e ≡ some sf
  unfolding signed_by digest_entry
  Signs-signed_by keys i sf e s =
      let sig = drop (e.uncomp_len - c.rsa_num_bytes) s.rsa_buf in
      let any = Among-any_key keys sig (c.sha s.content) s.key s.trusted s.verifies in
      rw (s.rsa, s.found, s.read, s.slurped, any)

  -- The index of the first entry that signs, with the signature file.
  signature_loop-Signs :
      (keys : List Bytes) (k sf : ℕ) (es : List ZipEntry)
      → signature_loop c a keys k es ≡ some sf
      → (i : ℕ) × (e : ZipEntry) × (get_elem? es i ≡ some e) × Signs c a keys sf (k + i) e
  unfolding signature_loop
  signature_loop-Signs keys k sf [] h = cc
  signature_loop-Signs keys k sf (e ∷ es) h = elim (Option-cases (signed_by c a keys k e)) [
    | inr (sf', s) ↦
        let same : sf' ≡ sf = ground arith in
        let at : k ≡ k + 0 = omega arith in
        (
          0,
          e,
          refl,
          subst (λ j. Signs c a keys sf j e) at (signed_by-Signs keys k sf e (s ∙ ap some same)),
        )
    | inl s ↦
        let (i, e', there, signs) = signature_loop-Signs keys (suc k) sf es (ground arith) in
        let at : suc k + i ≡ k + suc i = omega arith in
        (suc i, e', there, subst (λ j. Signs c a keys sf j e') at signs)
  ]

  signature_loop-none :
      (keys : List Bytes) (k i sf : ℕ) (es : List ZipEntry) (e : ZipEntry)
      → signature_loop c a keys k es ≡ none
      → get_elem? es i ≡ some e
      → ¬ Signs c a keys sf (k + i) e
  unfolding signature_loop
  signature_loop-none keys k i sf [] e h at s = cc
  signature_loop-none keys k zero sf (x ∷ es) e h at s =
      let here : k + 0 ≡ k = omega arith in
      let same : x ≡ e = ground arith in
      let found = Signs-signed_by keys k sf e (subst (λ j. Signs c a keys sf j e) here s) in
      let found' = subst (λ y. signed_by c a keys k y ≡ some sf) (sym same) found in ground arith
  signature_loop-none keys k (suc i) sf (x ∷ es) e h at s =
      let next : k + suc i ≡ suc k + i = omega arith in
      signature_loop-none keys (suc k) i sf es e (ground arith) at
        (subst (λ j. Signs c a keys sf j e) next s)

  -- `verifySignature` returns a signature file only if an .RSA file of the archive signs it, with
  -- one of the given keys.
  pub verify_signature-Signs :
      (keys : List Bytes) (sf : ℕ)
      → verify_signature c a keys ≡ some sf
      → (i : ℕ) × (e : ZipEntry) × (get_elem? a.entries i ≡ some e) × Signs c a keys sf i e
  unfolding verify_signature
  verify_signature-Signs keys sf h =
      let (i, e, at, s) = signature_loop-Signs keys 0 sf a.entries h in
      (i, e, at, subst (λ j. Signs c a keys sf j e) (zero-add i) s)

  -- It returns none only if no .RSA file of the archive signs any file with one of the keys.
  pub verify_signature-none :
      (keys : List Bytes) (i sf : ℕ) (e : ZipEntry)
      → verify_signature c a keys ≡ none
      → get_elem? a.entries i ≡ some e
      → ¬ Signs c a keys sf i e
  unfolding verify_signature
  verify_signature-none keys i sf e h at s =
      signature_loop-none keys 0 i sf a.entries e h at
        (subst (λ j. Signs c a keys sf j e) (sym (zero-add i)) s)
