-- ===== src/Minzip/Archive.antt =====
-- What the clients of minzip/Zip.h use of an open archive. Pointers to entries are their indices.
use recovery_sdx.Base.{ℕ, Option, List, Bytes, Bool}

-- `file_name` is not terminated: it stands in the mapped central directory, after `before` and in
-- front of `behind`, and a comparison may run on into either.
pub record ZipEntry : Type 0 where
  pub before : Bytes
  pub file_name : Bytes
  pub behind : Bytes
  pub uncomp_len : ℕ

-- `find` is mzFindZipEntry, `is_intact` is mzIsZipEntryIntact, and `contents` is the uncompressed
-- data that mzProcessZipEntryContents streams, `none` if it fails.
pub record Archive : Type 0 where
  pub entries : List ZipEntry
  pub find : Bytes → Option ℕ
  pub is_intact : ℕ → Bool
  pub contents : ℕ → Option Bytes
