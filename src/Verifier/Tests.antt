-- ===== src/Verifier/Tests.antt =====
-- A small signed package, and the theorems of the verifier at it. The digest of a file is its
-- length, and a signature is the key and the digest.
use Prim.Native.String.{String}
use recovery_sdx.Base.{
  ℕ, suc, ◌%◌, ◌≡◌, refl, true, false, Option, none, some, List, [], ◌∷◌, ◌++◌, Bytes, leb, length,
  get_elem?, codes, bytes_eq, starts_with, starts_with_nocase, until_nul, Among, replicate,
  if◌then◌else◌, ◌>>=◌,
}
use recovery_sdx.Minzip.Archive.{ZipEntry, Archive}
use recovery_sdx.Verifier.{
  Crypto, slurp_entry, digest_entry, is_rsa_entry, sf_name, signed_by, verify_signature,
  decode_digest, manifest_digest, verify_manifest, is_exempt, mark, check_digest, scan_line, scan,
  none_set, verify_archive, verify_jar_signature,
}
use recovery_sdx.Verifier.Lines.{lines}
use recovery_sdx.Verifier.Stanzas.{Stanza, scan-stanzas, stanzas, check_all}
use recovery_sdx.Verifier.Manifest.{IsCrypto, Vouched, verify_archive-Vouched}
use recovery_sdx.Verifier.Signature.{Signs, verify_signature-Signs}
use recovery_sdx.Verifier.Package.{IsTrusted, verify_jar_signature-IsTrusted}

abbrev toy : Crypto
toy = record {
  rsa_num_bytes = 2;
  sha_digest_size = 1;
  rsa_verify = λ key sig digest. bytes_eq sig (key ++ digest);
  sha = λ d. (length d % 256) ∷ [];
  b64_pton = λ text n. if leb (length text) n then some text else none;
  null_text = codes "(null)";
  uninitialised = λ n. replicate n 0;
}

toy-IsCrypto : IsCrypto toy
toy-IsCrypto = record { length-sha = λ d. refl }

abbrev file : String → Bytes → ZipEntry × Bytes
file name content = (
  record { before = []; file_name = codes name; behind = []; uncomp_len = length content },
  content,
)

find_in : ℕ → Bytes → List (ZipEntry × Bytes) → Option ℕ
find_in i name [] = none
find_in i name (f ∷ fs) = if bytes_eq f.0.file_name name then some i else find_in (suc i) name fs

abbrev archive_of : List (ZipEntry × Bytes) → Archive
archive_of fs = record {
  entries = heads fs;
  find = λ name. find_in 0 name fs;
  is_intact = λ i. true;
  contents = λ i. get_elem? fs i >>= λ f. some f.1;
}
  where
    heads : List (ZipEntry × Bytes) → List ZipEntry
    heads [] = []
    heads (f ∷ fs) = f.0 ∷ heads fs

abbrev package_with : Bytes → Archive
package_with image = archive_of (
    file "META-INF/MANIFEST.MF" (codes "Name: boot.img\r\nSHA1-Digest: A\r\n\r\n")
    ∷ file "META-INF/CERT.SF" (codes "SHA1-Digest-Manifest: \"\r\n")
    ∷ file "META-INF/CERT.RSA" (7 ∷ 25 ∷ [])
    ∷ file "data/" []
    ∷ file "boot.img" image
    ∷ [])

abbrev signed_package : Archive
signed_package = package_with (replicate 65 1)

abbrev keys : List Bytes
keys = (9 ∷ []) ∷ (7 ∷ []) ∷ []

verifier_code : Unit {0}
unfolding bytes_eq starts_with starts_with_nocase until_nul slurp_entry digest_entry is_rsa_entry
    sf_name signed_by verify_signature decode_digest manifest_digest verify_manifest is_exempt mark
    check_digest scan scan_line none_set verify_archive verify_jar_signature lines stanzas check_all
    find_in
verifier_code = tt

package_accepted : verify_jar_signature toy signed_package keys ≡ true
unfolding verifier_code
package_accepted = refl

tampered_rejected : verify_jar_signature toy (package_with (replicate 66 1)) keys ≡ false
unfolding verifier_code
tampered_rejected = refl

untrusted_rejected : verify_jar_signature toy signed_package ((9 ∷ []) ∷ []) ≡ false
unfolding verifier_code
untrusted_rejected = refl

abbrev boot_img : ZipEntry
boot_img = record { before = []; file_name = codes "boot.img"; behind = []; uncomp_len = 65 }

archive_accepted : verify_archive toy signed_package 0 ≡ true
unfolding verifier_code
archive_accepted = refl

-- The manifest is the first entry, and the image is the fifth and not exempt.
manifest_found : signed_package.find (codes "META-INF/MANIFEST.MF") ≡ some 0
unfolding verifier_code
manifest_found = refl

not_exempt : is_exempt 0 4 boot_img ≡ false
unfolding verifier_code
not_exempt = refl

verify_jar_signature-IsTrusted_example : IsTrusted toy signed_package keys 4
verify_jar_signature-IsTrusted_example =
    verify_jar_signature-IsTrusted toy signed_package toy-IsCrypto keys 0 4 boot_img
      package_accepted manifest_found refl not_exempt

verify_archive-Vouched_example :
    (manifest : Bytes) × (ss : List Stanza) × (s : Stanza) × (slurp_entry toy signed_package 0
      ≡ some manifest)
    × (stanzas toy none (lines (until_nul manifest)) ≡ some ss)
    × Among s ss
    × Vouched toy signed_package s.0 s.1 4
verify_archive-Vouched_example =
    verify_archive-Vouched toy signed_package toy-IsCrypto 0 4 boot_img archive_accepted refl
      not_exempt

signature_found : verify_signature toy signed_package keys ≡ some 1
unfolding verifier_code
signature_found = refl

verify_signature-Signs_example :
    (i : ℕ) × (e : ZipEntry) × (get_elem? signed_package.entries i ≡ some e)
    × Signs toy signed_package keys 1 i e
verify_signature-Signs_example = verify_signature-Signs toy signed_package keys 1 signature_found

abbrev cert_rsa : ZipEntry
cert_rsa = record {
  before = [];
  file_name = codes "META-INF/CERT.RSA";
  behind = [];
  uncomp_len = 2;
}

signature_missing : verify_signature toy signed_package ((9 ∷ []) ∷ []) ≡ none
unfolding verifier_code
signature_missing = refl

manifest_sealed : verify_manifest toy signed_package 1 ≡ some 0
unfolding verifier_code
manifest_sealed = refl

scan-stanzas_example :
    scan toy signed_package none [] (codes "Name: a" ∷ [])
    ≡ (stanzas toy none (codes "Name: a" ∷ []) >>= λ ss. check_all toy signed_package ss [])
scan-stanzas_example = scan-stanzas toy signed_package none [] (codes "Name: a" ∷ [])
