-- ===== src/Verifier.antt =====
-- verifier.c: the signature check of an update package, after the JAR format. The calls of malloc
-- and strdup succeed here; the progress bar and the log are left out.
pub mod Lines
pub mod Stanzas
pub mod Manifest
pub mod Signature
pub mod Package
mod Tests
use recovery_sdx.Base.{
  ℕ, suc, ◌+◌, ◌-◌, Bool, true, false, not, ◌&&◌, ◌||◌, Option, none, some, List, [], ◌∷◌, ◌++◌,
  Bytes, ◌==◌, ltb, leb, if◌then◌else◌, ◌>>=◌, ◌>>◌, guard, length, get_elem?, get_or, set, take,
  drop, codes, bytes_eq, memcmp_eq, starts_with, starts_with_nocase, until_nul,
}
use recovery_sdx.Minzip.Archive.{ZipEntry, Archive}
use Lines.{lines}

-- libmincrypt and libc. A key is the bytes of its RSAPublicKey; `b64_pton s n` is the decoding of
-- `s` if it is valid and fits in n bytes; `null_text` is what printf prints for a null string;
-- `uninitialised n` is the contents of n bytes from malloc.
pub record Crypto : Type 0 where
  pub rsa_num_bytes : ℕ
  pub sha_digest_size : ℕ
  pub rsa_verify : Bytes → Bytes → Bytes → Bool
  pub sha : Bytes → Bytes
  pub b64_pton : Bytes → ℕ → Option Bytes
  pub null_text : Bytes
  pub uninitialised : ℕ → Bytes

abbrev pub meta_inf : Bytes
meta_inf = codes "META-INF/"

-- the last `n` bytes in front of the end of the name, `fn.str + fn.len - n`
abbrev pub name_end : ℕ → ZipEntry → Bytes
name_end n e = let upto = e.before ++ e.file_name in drop (length upto - n) upto

-- .RSA is replaced by .SF; a C string ends at its first NUL
unfoldable pub sf_name : ZipEntry → Bytes
sf_name e = until_nul (take (length e.file_name - 4) e.file_name ++ codes ".SF")

-- Directories, the manifest, *.RSA and *.SF are not validated. The name is compared as far as the
-- prefix goes, whatever its length.
unfoldable pub is_exempt : ℕ → ℕ → ZipEntry → Bool
is_exempt mf i e =
    i == mf
    || (ltb 0 (length e.file_name) && bytes_eq (name_end 1 e) (codes "/") && e.uncomp_len == 0)
    || (starts_with_nocase meta_inf (e.file_name ++ e.behind)
        && (starts_with_nocase (codes ".RSA") (name_end 4 e)
            || starts_with_nocase (codes ".SF") (name_end 3 e)))

-- The array `unverified`.
unfoldable pub mark : ℕ → ℕ → List ZipEntry → List Bool
mark mf i [] = []
mark mf i (e ∷ es) = not (is_exempt mf i e) ∷ mark mf (suc i) es

-- `name` in `verifyArchive`; appending to a null name prints it
abbrev pub name_text : Crypto → Option Bytes → Bytes
name_text c none = c.null_text
name_text c (some n) = n

-- The loop behind the scan, which looks for a flag that is still set.
unfoldable pub none_set : List Bool → Bool
none_set [] = true
none_set (f ∷ fs) = not f && none_set fs

module _ (c : Crypto) (a : Archive) where
  -- `mzReadZipEntry` fails if the data does not fit, and fills what it reads
  unfoldable pub slurp_entry : ℕ → Option Bytes
  slurp_entry i = do
    e ← get_elem? a.entries i
    guard (a.is_intact i)
    d ← a.contents i
    guard (leb (length d) e.uncomp_len)
    some (d ++ c.uninitialised (e.uncomp_len - length d))

  unfoldable pub digest_entry : ℕ → Option Bytes
  digest_entry i = do d ← a.contents i; some (c.sha d)

  -- The tests on an entry at the head of the loop of `verifySignature`.
  unfoldable pub is_rsa_entry : ZipEntry → Bool
  is_rsa_entry e =
      leb c.rsa_num_bytes e.uncomp_len
      && ltb 10 (length e.file_name)
      && starts_with meta_inf e.file_name
      && starts_with (codes ".RSA") (name_end 4 e)

  any_key : List Bytes → Bytes → Bytes → Bool
  any_key [] sig digest = false
  any_key (k ∷ ks) sig digest = c.rsa_verify k sig digest || any_key ks sig digest

  -- The body of the loop: the signature file, if entry `i` is an .RSA file that signs it.
  unfoldable pub signed_by : List Bytes → ℕ → ZipEntry → Option ℕ
  unfolding any_key
  signed_by keys i e = do
    guard (is_rsa_entry e)
    sf ← a.find (sf_name e)
    sf_digest ← digest_entry sf
    rsa_buf ← slurp_entry i
    guard (any_key keys (drop (e.uncomp_len - c.rsa_num_bytes) rsa_buf) sf_digest)
    some sf

  signature_loop : List Bytes → ℕ → List ZipEntry → Option ℕ
  signature_loop keys i [] = none
  signature_loop keys i (e ∷ es) = elim (signed_by keys i e) [
    | some sf ↦ some sf
    | none ↦ signature_loop keys (suc i) es
  ]

  unfoldable pub verify_signature : List Bytes → Option ℕ
  unfolding signature_loop
  verify_signature keys = signature_loop keys 0 a.entries

  -- `b64_pton(text, expected, sizeof(expected)) == SHA_DIGEST_SIZE`
  unfoldable pub decode_digest : Bytes → Option Bytes
  decode_digest text = do
    d ← c.b64_pton text (c.sha_digest_size + 3)
    guard (length d == c.sha_digest_size)
    some d

  -- The first line with the prefix decides.
  unfoldable pub manifest_digest : List Bytes → Option Bytes
  manifest_digest [] = none
  manifest_digest (l ∷ ls) =
      if starts_with_nocase (codes "SHA1-Digest-Manifest: ") l
      then decode_digest (drop 22 l)
      else manifest_digest ls

  unfoldable pub verify_manifest : ℕ → Option ℕ
  verify_manifest sf = do
    buf ← slurp_entry sf
    expected ← manifest_digest (lines (until_nul buf))
    mf ← a.find (codes "META-INF/MANIFEST.MF")
    actual ← digest_entry mf
    guard (memcmp_eq c.sha_digest_size expected actual)
    some mf

  -- A digest line for the entry `name`: the flags after it, `none` where the loop breaks.
  unfoldable pub check_digest : Bytes → Bytes → List Bool → Option (List Bool)
  check_digest name text flags = do
    i ← a.find name
    guard (a.is_intact i)
    guard (get_or flags i false)
    expected ← decode_digest text
    actual ← digest_entry i
    guard (memcmp_eq c.sha_digest_size expected actual)
    some (set flags i false)

  start_stanza : Option Bytes → Bytes → List Bool → Option (Option Bytes × List Bool)
  start_stanza (some n) line flags = none
  start_stanza none line flags = some (some (drop 6 line), flags)

  end_stanza : Option Bytes → Bytes → List Bool → Option (Option Bytes × List Bool)
  end_stanza none line flags = none
  end_stanza (some n) line flags = do
    flags' ← check_digest n (drop 13 line) flags
    some (none, flags')

  -- The body of the loop over the lines: the pending name and the flags after the line.
  unfoldable pub scan_line : Option Bytes → List Bool → Bytes → Option (Option Bytes × List Bool)
  unfolding start_stanza end_stanza
  scan_line name flags line =
      if starts_with_nocase (codes "Name: ") line
      then start_stanza name line flags
      else if starts_with_nocase (codes " ") line
      then some (some (name_text c name ++ drop 1 line), flags)
      else if starts_with_nocase (codes "SHA1-Digest: ") line
      then end_stanza name line flags
      else some (name, flags)

  unfoldable pub scan : Option Bytes → List Bool → List Bytes → Option (List Bool)
  scan name flags [] = some flags
  scan name flags (l ∷ ls) = do (name', flags') ← scan_line name flags l; scan name' flags' ls

  unfoldable pub verify_archive : ℕ → Bool
  verify_archive mf = elim (slurp_entry mf) [
    | none ↦ false
    | some buf ↦ elim (scan none (mark mf 0 a.entries) (lines (until_nul buf))) [
      | none ↦ false
      | some flags ↦ none_set flags
    ]
  ]

  unfoldable pub verify_jar_signature : List Bytes → Bool
  verify_jar_signature keys = elim (verify_signature keys) [
    | none ↦ false
    | some sf ↦ elim (verify_manifest sf) [ none ↦ false | some mf ↦ verify_archive mf ]
  ]
