-- ===== src/Minzip/Zip.antt =====
-- minzip/Zip.c: the central directory of an archive, read from the mapped file. The file is the list
-- of its bytes, a pointer into it is its index, and a read behind the end is `fault`.
pub mod Search
pub mod Order
pub mod Bounds
pub mod Extract
mod Tests
use recovery_sdx.Base.{
  ℕ, zero, suc, ◌+◌, ◌-◌, ◌*◌, ◌/◌, ◌%◌, ◌^◌, Bool, true, false, ◌&&◌, ◌||◌, not, Option, none,
  some, List, [], ◌∷◌, ◌++◌, Bytes, leb, ltb, ◌==◌, if◌then◌else◌, length, get_or, take, drop,
}
use recovery_sdx.Minzip.Zip.Search.{insert_sorted}

-- What reading a part of the file gives: a value, a file that is turned down, or a read out of
-- bounds.
pub data Parsed (A : Type 0) : Type 0 where
  ok : A → Parsed A
  bad : Parsed A
  fault : Parsed A

infixl 5 ◌>>=◌ ◌>>◌
abbrev pub ◌>>=◌ : {A B : Type 0} → Parsed A → (A → Parsed B) → Parsed B
ok a >>= f = f a
bad >>= f = bad
fault >>= f = fault

abbrev pub ◌>>◌ : {B : Type 0} → Parsed (Unit {0}) → Parsed B → Parsed B
m >> k = m >>= λ _. k

-- `goto bail` where the test holds
abbrev pub refuse_if : Bool → Parsed (Unit {0})
refuse_if true = bad
refuse_if false = ok tt

-- `get2LE`
unfoldable pub get_2le : Bytes → ℕ → Parsed ℕ
get_2le m p = if leb (p + 2) (length m) then ok (get_or m p 0 + get_or m (p + 1) 0 * 256) else fault

-- `get4LE`
unfoldable pub get_4le : Bytes → ℕ → Parsed ℕ
get_4le m p =
    if leb (p + 4) (length m)
    then ok (
        get_or m p 0
        + get_or m (p + 1) 0 * 256
        + get_or m (p + 2) 0 * 65536
        + get_or m (p + 3) 0 * 16777216)
    else fault

-- `ZipEntry`. A long has 32 bits, and is the number below 2^32 with its bits.
pub record Entry : Type 0 where
  pub file_name : Bytes
  pub name_at : ℕ
  pub offset : ℕ
  pub comp_len : ℕ
  pub uncomp_len : ℕ
  pub compression : ℕ
  pub mod_time : ℕ
  pub crc32 : ℕ
  pub version_made_by : ℕ
  pub external_file_attributes : ℕ

abbrev pub censig : ℕ
censig = 33639248

abbrev pub endsig : ℕ
endsig = 101010256

abbrev pub locsig : ℕ
locsig = 67324752

abbrev pub path_max : ℕ
path_max = 4096

unfoldable pub printable : Bytes → Bool
printable [] = true
printable (c ∷ s) = (leb 32 c && ltb c 127) && printable s

-- `validFilename`
unfoldable pub valid_filename : Bytes → Bool
unfolding printable
valid_filename name = ltb (length name) path_max && printable name

-- The backward search for the end of the central directory, from `p` down.
unfoldable pub find_eocd : Bytes → ℕ → Parsed ℕ
find_eocd m zero = get_4le m zero >>= λ v. if v == endsig then ok zero else bad
find_eocd m (suc p) =
    let further = find_eocd m p in
    get_4le m (suc p) >>= λ v. if v == endsig then ok (suc p) else further

-- The sums of safe_iop: of a pointer and an offset, and whether two longs have a sum.
pub record SafeIop : Type 0 where
  pub add_pointer : ℕ → ℕ → Option ℕ
  pub adds_long : ℕ → ℕ → Bool

-- `addr` is the address that the file is mapped at.
module _ (safe : SafeIop) (addr : ℕ) (m : Bytes) where
  -- The index of the local header, at the pointer that is the sum. The pointers are compared as
  -- words.
  unfoldable pub header_at : Option ℕ → Parsed ℕ
  header_at none = bad
  header_at (some local) =
      let test = get_4le m (local - addr) >>= λ v. if v == locsig then ok (local - addr) else bad in
      if ltb ((addr + length m) % 2 ^ 32) ((local + 30) % 2 ^ 32) then bad else test

  unfoldable pub local_header : ℕ → Parsed ℕ
  unfolding header_at
  local_header offset = header_at (safe.add_pointer addr offset)

  unfoldable pub incompatible : ℕ → Bool
  incompatible version = let high = version / 256 % 256 in not (high == 0) && not (high == 3)

  -- The entry of the central directory at `p`, and where the next one starts. The ends of the header
  -- and of the name are compared with that of the file as words.
  unfoldable pub entry_at : ℕ → Parsed (Entry × ℕ)
  unfolding incompatible
  entry_at p = do
    refuse_if (ltb ((addr + length m) % 2 ^ 32) ((addr + p + 46) % 2 ^ 32))
    sig ← get_4le m p
    refuse_if (not (sig == censig))
    local_offset ← get_4le m (p + 42)
    name_len ← get_2le m (p + 28)
    extra_len ← get_2le m (p + 30)
    comment_len ← get_2le m (p + 32)
    refuse_if (ltb ((addr + length m) % 2 ^ 32) ((addr + p + 46 + name_len) % 2 ^ 32))
    refuse_if (not (valid_filename (take name_len (drop (p + 46) m))))
    comp_len ← get_4le m (p + 20)
    uncomp_len ← get_4le m (p + 24)
    compression ← get_2le m (p + 10)
    mod_time ← get_4le m (p + 12)
    crc32 ← get_4le m (p + 16)
    version ← get_2le m (p + 4)
    refuse_if (incompatible version)
    attributes ← get_4le m (p + 38)
    header ← local_header local_offset
    local_name_len ← get_2le m (header + 26)
    local_extra_len ← get_2le m (header + 28)
    let offset = (local_offset + 30 + local_name_len + local_extra_len) % 2 ^ 32
    refuse_if (not (safe.adds_long offset comp_len))
    refuse_if (ltb (length m) ((offset + comp_len) % 2 ^ 32))
    let entry : Entry = record {
      file_name = take name_len (drop (p + 46) m);
      name_at = p + 46;
      offset = offset;
      comp_len = comp_len;
      uncomp_len = uncomp_len;
      compression = compression;
      mod_time = mod_time;
      crc32 = crc32;
      version_made_by = version;
      external_file_attributes = attributes;
    }
    ok (entry, p + 46 + name_len + extra_len + comment_len)

  -- `n` entries are left; `es` are the sorted ones.
  unfoldable pub read_entries : ℕ → ℕ → List Entry → Parsed (List Entry)
  read_entries zero p es = ok es
  read_entries (suc n) p es = do
    (e, p') ← entry_at p
    read_entries n p' (insert_sorted (λ (a : Entry). a.file_name) e es)

  -- `parseZipArchive`, less the hash table.
  unfoldable pub parse_zip_archive : Parsed (List Entry)
  parse_zip_archive = do
    first ← get_4le m 0
    refuse_if (first == endsig || not (first == locsig))
    p ← find_eocd m (length m - 22)
    num_entries ← get_2le m (p + 8)
    cd_offset ← get_4le m (p + 16)
    refuse_if (num_entries == 0 || leb (length m) cd_offset)
    read_entries num_entries cd_offset []

  -- `mzOpenZipArchive`, of the mapped file.
  unfoldable pub open_zip_archive : Parsed (List Entry)
  open_zip_archive = if ltb (length m) 22 then bad else parse_zip_archive
