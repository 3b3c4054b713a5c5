-- ===== src/Mtd/Tests.antt =====
-- A partition of four blocks of two bytes, the second of which is bad.
use recovery_sdx.Base.{
  ℕ, ◌/◌, ◌≡◌, refl, true, Option, none, some, List, [], ◌∷◌, ◌++◌, Bytes, ◌==◌, if◌then◌else◌,
  get_or, set, arith, codes, get_elem?, bytes_eq, replicate, starts_with, until_nul,
}
use recovery_sdx.Base.Int.{pos, minus_one}
use recovery_sdx.Base.{length, ◌==◌, sym, ap, ◌∙◌, inl, inr, Bool-cases, ==_iff, eq_of_some}
use recovery_sdx.Mtd.Stream.Reading.{IsExact, IsValid, mtd_read_data-exact}
use recovery_sdx.Mtd.{MtdPartition}
use recovery_sdx.Mtd.Table.{
  MtdState, Line, mtd_scan_partitions, scan_lines, scanned, store, eat_line, cleared,
  mtd_find_partition_by_name, find_named, is_named, has_name,
}
use recovery_sdx.Mtd.Table.Names.{mtd_find_partition_by_name-scan}
use recovery_sdx.Mtd.Blocks.{
  Flash, ◌>>=◌, all_zero, judge, check_block, read_round, read_from, read_counted, read_block,
  verify, attempt, try_twice, write_round, write_from, write_block,
}
use recovery_sdx.Mtd.Blocks.Verified.{Stored, Sound, write_block-Stored, read_block-Sound}
use recovery_sdx.Mtd.Stream.{
  MtdWriteContext, flush, write_whole, direct, coalesced, write_rounds, mtd_write_data, erase_from,
  mtd_erase_blocks, mtd_write_close, read_whole, buffered, read_direct, refill, read_rounds,
  mtd_read_data,
}
use recovery_sdx.Mtd.Stream.Chunks.{put_blocks}
use recovery_sdx.Mtd.Stream.Coalesce.{mtd_write_data-put_blocks}

abbrev part : MtdPartition
part = record { device_index = pos 0; size = 8; erase_size = 2; name = some (codes "boot") }

-- The blocks, by their numbers; nothing can be read of the bad one.
abbrev chip : Flash (List Bytes)
chip = record {
  bad = λ p w. p == 2;
  erase = λ p w. (true, set w (p / 2) (255 ∷ 255 ∷ []));
  write = λ p s w. (true, set w (p / 2) s);
  read = λ p n w. (if p == 2 then none else some (get_or w (p / 2) []), w);
  ecc_failed = λ w. some 0;
}

abbrev erased : List Bytes
erased = replicate 4 (255 ∷ 255 ∷ [])

abbrev start : MtdWriteContext
start = record { buffer = []; offset = 0 }

-- Three bytes and one more are two blocks, on either side of the bad one.
abbrev written : List Bytes
written = (1 ∷ 2 ∷ []) ∷ (255 ∷ 255 ∷ []) ∷ (3 ∷ 4 ∷ []) ∷ (255 ∷ 255 ∷ []) ∷ []

two_calls :
    (mtd_write_data chip part (1 ∷ 2 ∷ 3 ∷ []) start >>= mtd_write_data chip part (4 ∷ [])) erased
    ≡ (some (record { buffer = []; offset = 6 }), written)
unfolding mtd_write_data write_rounds flush write_whole direct coalesced write_block write_from
    write_round try_twice attempt verify bytes_eq
two_calls = refl

closed :
    mtd_write_close chip part true (record { buffer = 5 ∷ []; offset = 6 }) written
    ≡ (pos 0, (1 ∷ 2 ∷ []) ∷ (255 ∷ 255 ∷ []) ∷ (3 ∷ 4 ∷ []) ∷ (5 ∷ 0 ∷ []) ∷ [])
unfolding mtd_write_close mtd_erase_blocks erase_from write_block write_from write_round try_twice
    attempt verify bytes_eq
closed = refl

read_back :
    (mtd_read_data chip part 3 (record { buffer = 0 ∷ 0 ∷ []; consumed = 2; offset = 0 })) written
    ≡ (some (1 ∷ 2 ∷ 3 ∷ [], record { buffer = 3 ∷ 4 ∷ []; consumed = 1; offset = 6 }), written)
unfolding mtd_read_data read_rounds buffered read_direct refill read_whole read_block read_counted
    read_from read_round check_block judge all_zero
read_back = refl

mtd_write_data-put_blocks_example :
    mtd_write_data chip part (1 ∷ 2 ∷ 3 ∷ []) start erased
    ≡ put_blocks chip part 1 ([] ++ (1 ∷ 2 ∷ 3 ∷ [])) 0 erased
mtd_write_data-put_blocks_example =
    mtd_write_data-put_blocks chip part 1 (1 ∷ 2 ∷ 3 ∷ []) start erased (omega arith) (omega arith)
      (omega arith)

second_block :
    write_block chip part (3 ∷ 4 ∷ []) 2 ((1 ∷ 2 ∷ []) ∷ replicate 3 (255 ∷ 255 ∷ []))
    ≡ (some 6, written)
unfolding write_block write_from write_round try_twice attempt verify bytes_eq
second_block = refl

write_block-Stored_example : Stored chip part (3 ∷ 4 ∷ []) 2 6 written
write_block-Stored_example =
    write_block-Stored chip part (3 ∷ 4 ∷ []) 2 6 ((1 ∷ 2 ∷ []) ∷ replicate 3 (255 ∷ 255 ∷ []))
      written second_block

block_read : read_block chip part 2 written ≡ (some (3 ∷ 4 ∷ [], 6), written)
unfolding read_block read_counted read_from read_round check_block judge all_zero
block_read = refl

read_block-Sound_example : Sound chip part (3 ∷ 4 ∷ []) 2 6 (some 0) written
read_block-Sound_example = read_block-Sound chip part (3 ∷ 4 ∷ []) 2 6 written written block_read

-- A scanner that knows two lines.
abbrev known : Bytes → Option Line
known s =
    if starts_with (codes "mtd1") s
    then some (record { mtdnum = pos 1; mtdsize = 8; mtderasesize = 2; mtdname = codes "boot" })
    else none

abbrev before : MtdState
before = record { partitions = none; partition_count = minus_one }

abbrev boot : MtdPartition
boot = record { device_index = pos 1; size = 8; erase_size = 2; name = some (codes "boot") }

abbrev unused : MtdPartition
unused = record { device_index = minus_one; size = 0; erase_size = 0; name = none }

abbrev behind : MtdState
behind = record { partitions = some (unused ∷ boot ∷ replicate 30 unused); partition_count = pos 1 }

scan_two_lines :
    mtd_scan_partitions known (some (codes "dev:" ++ 10 ∷ codes "mtd1: 8 2")) before
    ≡ some (pos 1, behind)
unfolding mtd_scan_partitions scan_lines scanned store eat_line cleared starts_with until_nul
scan_two_lines = refl

find_boot : mtd_find_partition_by_name (codes "boot") behind ≡ some boot
unfolding mtd_find_partition_by_name find_named is_named has_name bytes_eq
find_boot = refl

mtd_find_partition_by_name-scan_example :
    (ps : List MtdPartition) × (behind.partitions ≡ some ps)
    × (boot.name ≡ some (codes "boot"))
    × ((k : ℕ) × (boot.device_index ≡ pos k) × (get_elem? ps k ≡ some boot))
mtd_find_partition_by_name-scan_example =
    mtd_find_partition_by_name-scan known (some (codes "dev:" ++ 10 ∷ codes "mtd1: 8 2")) before
      behind (pos 1) (codes "boot") boot scan_two_lines find_boot

-- A device that gives blocks of the right size only.
abbrev strict : Flash (List Bytes)
strict = record chip {
  read =
      λ p n w. (if length (get_or w (p / 2) []) == n then some (get_or w (p / 2) []) else none, w);
}

strict-IsExact : IsExact strict
strict-IsExact = record {
  exact = λ p n w w' b h. elim (Bool-cases (length (get_or w (p / 2) []) == n)) [
    | inl t ↦
        ap length (sym (eq_of_some (ap (λ r. r.0) (rw t at h))))
        ∙ (==_iff (length (get_or w (p / 2) [])) n).0 t
    | inr t ↦ absurd (ground (arith, ap (λ r. r.0) (rw t at h)))
  ];
}

three_read :
    mtd_read_data strict part 3
      (record { buffer = 0 ∷ 0 ∷ []; consumed = 2; offset = 0 })
      ((1 ∷ 2 ∷ []) ∷ (3 ∷ 4 ∷ []) ∷ [])
    ≡ (
      some (1 ∷ 2 ∷ 3 ∷ [], record { buffer = 3 ∷ 4 ∷ []; consumed = 1; offset = 4 }),
      (1 ∷ 2 ∷ []) ∷ (3 ∷ 4 ∷ []) ∷ [],
    )
unfolding mtd_read_data read_rounds buffered read_direct refill read_whole read_block read_counted
    read_from read_round check_block judge all_zero
three_read = refl

mtd_read_data-exact_example :
    (length {A = ℕ} (1 ∷ 2 ∷ 3 ∷ []) ≡ 3)
    × IsValid part (record { buffer = 3 ∷ 4 ∷ []; consumed = 1; offset = 4 })
mtd_read_data-exact_example =
    mtd_read_data-exact strict strict-IsExact part 3
      (record { buffer = 0 ∷ 0 ∷ []; consumed = 2; offset = 0 })
      (record { buffer = 3 ∷ 4 ∷ []; consumed = 1; offset = 4 }) ((1 ∷ 2 ∷ []) ∷ (3 ∷ 4 ∷ []) ∷ [])
      ((1 ∷ 2 ∷ []) ∷ (3 ∷ 4 ∷ []) ∷ []) (1 ∷ 2 ∷ 3 ∷ []) (omega arith)
      (record { full = refl; within = omega arith }) three_read
