-- ===== src/Mtd/Table.antt =====
-- `mtd_scan_partitions` and `mtd_find_partition_by_name` of mtdutils/mtdutils.c, over the text of
-- /proc/mtd. Memory is taken to suffice.
pub mod Names
use recovery_sdx.Base.{
  ℕ, zero, suc, ◌+◌, Bool, true, false, ◌&&◌, not, Option, none, some, List, [], ◌∷◌, Bytes, ltb,
  ◌==◌, if◌then◌else◌, length, set, get_elem?, replicate, bytes_eq, until_nul, take, ◌>>=◌,
}
use recovery_sdx.Base.Int.{ℤ, pos, negsuc, minus_one, is_negative}
use recovery_sdx.Mtd.{MtdPartition}

-- `MtdState`; `partitions` is `none` before the first scan.
pub record MtdState : Type 0 where
  pub partitions : Option (List MtdPartition)
  pub partition_count : ℤ

-- What `sscanf` gives for the format of a line where all four fields match: number, size, size to
-- erase, and name.
pub record Line : Type 0 where
  pub mtdnum : ℤ
  pub mtdsize : ℕ
  pub mtderasesize : ℕ
  pub mtdname : Bytes

abbrev pub nump : ℕ
nump = 32

-- The memory of `malloc` and `memset`.
abbrev pub blank : MtdPartition
blank = record { device_index = pos 0; size = 0; erase_size = 0; name = none }

unfoldable pub clear_all : List MtdPartition → List MtdPartition
clear_all [] = []
clear_all (p ∷ ps) = record p { device_index = minus_one; name = none } ∷ clear_all ps

unfoldable pub cleared : Option (List MtdPartition) → List MtdPartition
unfolding clear_all
cleared none = clear_all (replicate nump blank)
cleared (some ps) = clear_all ps

-- `partitions[mtdnum]` is assigned; `none` is an assignment out of bounds.
unfoldable pub store : Line → ℤ → List MtdPartition → Option (List MtdPartition)
store l (negsuc n) ps = none
store l (pos n) ps =
    if ltb n (length ps)
    then some (
        set ps n (record {
          device_index = pos n;
          size = l.mtdsize;
          erase_size = l.mtderasesize;
          name = some l.mtdname;
        }))
    else none

-- The text behind the next line break.
unfoldable pub eat_line : Bytes → Bytes
eat_line [] = []
eat_line (c ∷ s) = if c == 10 then s else eat_line s

module _ (scan_line : Bytes → Option Line) where
  unfoldable pub scanned : Option Line → List MtdPartition → ℕ → Option (List MtdPartition × ℕ)
  scanned none ps count = some (ps, count)
  scanned (some l) ps count = store l l.mtdnum ps >>= λ ps'. some (ps', count + 1)

  -- The loop over the lines. Each of them takes at least one byte.
  unfoldable pub scan_lines : ℕ → Bytes → List MtdPartition → ℕ → Option (List MtdPartition × ℕ)
  scan_lines fuel [] ps count = some (ps, count)
  scan_lines zero (c ∷ s) ps count = some (ps, count)
  scan_lines (suc fuel) (c ∷ s) ps count = scanned (scan_line (until_nul (c ∷ s))) ps count >>= λ r.
      scan_lines fuel (eat_line (c ∷ s)) r.0 r.1

  -- `mtd_scan_partitions`, with the first 2047 bytes of the file, if it can be opened and read.
  unfoldable pub mtd_scan_partitions : Option Bytes → MtdState → Option (ℤ × MtdState)
  mtd_scan_partitions none s =
      some (
        minus_one,
        record { partitions = some (cleared s.partitions); partition_count = minus_one },
      )
  mtd_scan_partitions (some text) s =
      let buf = take 2047 text in
      scan_lines (length buf) buf (cleared s.partitions) 0 >>= λ r.
      some (pos r.1, record { partitions = some r.0; partition_count = pos r.1 })

unfoldable pub has_name : Bytes → Option Bytes → Bool
has_name name none = false
has_name name (some n) = bytes_eq n name

unfoldable pub is_named : Bytes → MtdPartition → Bool
is_named name p = not (is_negative p.device_index) && has_name name p.name

unfoldable pub find_named : Bytes → List MtdPartition → Option MtdPartition
find_named name [] = none
find_named name (p ∷ ps) = if is_named name p then some p else find_named name ps

-- `mtd_find_partition_by_name`
unfoldable pub mtd_find_partition_by_name : Bytes → MtdState → Option MtdPartition
unfolding find_named
mtd_find_partition_by_name name s = s.partitions >>= find_named name
