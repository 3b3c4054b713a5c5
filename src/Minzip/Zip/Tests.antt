-- ===== src/Minzip/Zip/Tests.antt =====
-- An archive with two files below a directory, which stand in its central directory backwards.
use recovery_sdx.Base.{
  ℕ, zero, suc, ◌+◌, ◌/◌, ◌%◌, ◌^◌, ◌≡◌, refl, Bool, true, false, ◌&&◌, none, some, List, [], ◌∷◌,
  ◌++◌, Bytes, ltb, ◌==◌, if◌then◌else◌, length, codes, starts_with,
}
use recovery_sdx.Base.Int.{pos}
use recovery_sdx.Minzip.Zip.{
  ok, get_2le, get_4le, find_eocd, Entry, SafeIop, censig, endsig, locsig, entry_at, read_entries,
  parse_zip_archive, open_zip_archive, valid_filename, local_header,
}
use recovery_sdx.Minzip.Zip.Search.{search, strncmp, name_diff, names_of, insert_sorted}
use recovery_sdx.Minzip.Zip.Order.{Sorted, AllPrintable}
use recovery_sdx.Minzip.Zip.Order.Archive.{names, open_zip_archive-Ordered}
use recovery_sdx.Minzip.Zip.Extract.{
  Files, Flags, canonical, extract_entry, target_entry_path, walk, extract_recursive,
  ends_with_slash, is_zip_entry_symlink, extract_regular, extract_file,
}

abbrev two_bytes : ℕ → Bytes
two_bytes n = n % 256 ∷ n / 256 ∷ []

abbrev four_bytes : ℕ → Bytes
four_bytes n = two_bytes (n % 65536) ++ two_bytes (n / 65536)

abbrev zeros : ℕ → Bytes
zeros zero = []
zeros (suc n) = 0 ∷ zeros n

-- A file of one byte, as it is.
abbrev local_part : Bytes → ℕ → Bytes
local_part name byte =
    four_bytes locsig
    ++ zeros 14
    ++ four_bytes 1
    ++ four_bytes 1
    ++ two_bytes (length name)
    ++ zeros 2
    ++ name
    ++ byte ∷ []

abbrev central_part : Bytes → ℕ → Bytes
central_part name offset =
    four_bytes censig
    ++ zeros 16
    ++ four_bytes 1
    ++ four_bytes 1
    ++ two_bytes (length name)
    ++ zeros 12
    ++ four_bytes offset
    ++ name

abbrev archive : Bytes
archive =
    local_part (codes "s/b") 66
    ++ local_part (codes "s/a") 65
    ++ central_part (codes "s/b") 0
    ++ central_part (codes "s/a") 34
    ++ four_bytes endsig
    ++ zeros 4
    ++ two_bytes 2
    ++ two_bytes 2
    ++ four_bytes 98
    ++ four_bytes 68
    ++ zeros 2

abbrev entry : Bytes → ℕ → ℕ → Entry
entry name name_at offset = record {
  file_name = name;
  name_at = name_at;
  offset = offset;
  comp_len = 1;
  uncomp_len = 1;
  compression = 0;
  mod_time = 0;
  crc32 = 0;
  version_made_by = 0;
  external_file_attributes = 0;
}

abbrev file_a : Entry
file_a = entry (codes "s/a") 163 67

abbrev file_b : Entry
file_b = entry (codes "s/b") 114 33

-- Sums of pointers of 32 bits; two longs that are not negative have a sum below 2^31, and one of
-- different signs always.
abbrev sums : SafeIop
sums = record {
  add_pointer = λ a b. if ltb (a + b) (2 ^ 32) then some (a + b) else none;
  adds_long = λ a b. if ltb a (2 ^ 31) && ltb b (2 ^ 31) then ltb (a + b) (2 ^ 31) else true;
}

abbrev address : ℕ
address = 65536

archive-open : open_zip_archive sums address archive ≡ ok (file_a ∷ file_b ∷ [])
unfolding open_zip_archive parse_zip_archive read_entries entry_at get_2le get_4le find_eocd search
    strncmp name_diff names_of insert_sorted valid_filename local_header
archive-open = refl

abbrev all_low : Bytes → Bool
all_low [] = true
all_low (c ∷ s) = ltb c 128 && all_low s

open_zip_archive-Ordered_example :
    Sorted (names (file_a ∷ file_b ∷ [])) × AllPrintable (names (file_a ∷ file_b ∷ []))
open_zip_archive-Ordered_example =
    open_zip_archive-Ordered sums address archive (file_a ∷ file_b ∷ []) archive-open

-- The files that were written, the last one first; of "s/bad" nothing can be written.
abbrev disk : Files (List Bytes)
disk = record {
  dir_create_hierarchy = λ path strip w. (pos 0, w);
  symlink = λ target path w. (pos 0, w);
  creat = λ path w. (pos 3, w);
  read_zip_entry = λ e w. (none, w);
  extract_to_file = λ e path w. if length e.file_name == 3 then (true, path ∷ w) else (false, w);
  utime = λ path w. (pos 0, w);
  callback = λ path w. w;
}

abbrev plain : Flags
plain = record { files_only = false; dry_run = false; timestamp = true }

both_written :
    extract_recursive disk plain archive (codes "s") (codes "/tmp") (file_a ∷ file_b ∷ []) []
    ≡ (true, codes "/tmp/b" ∷ codes "/tmp/a" ∷ [])
unfolding extract_recursive canonical walk extract_entry extract_file extract_regular
    target_entry_path ends_with_slash is_zip_entry_symlink starts_with
both_written = refl
