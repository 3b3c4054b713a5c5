-- ===== src/Mtd/Stream.antt =====
-- mtd_read_data, mtd_write_data, mtd_erase_blocks and mtd_write_close of mtdutils/mtdutils.c. A
-- context is passed on with the offset of its file descriptor; the buffer of a write context is its
-- first `stored` bytes.
pub mod Chunks
pub mod Coalesce
pub mod Reading
use recovery_sdx.Base.{
  ℕ, zero, suc, ◌+◌, ◌-◌, ◌/◌, Bool, true, false, ◌&&◌, ◌||◌, not, Option, none, some, List, [],
  ◌∷◌, ◌++◌, Bytes, ltb, leb, ◌==◌, if◌then◌else◌, length, take, drop, replicate,
}
use recovery_sdx.Base.Int.{ℤ, pos, minus_one}
use recovery_sdx.Mtd.{MtdPartition}
use recovery_sdx.Mtd.Blocks.{Flash, Io, after, ◌>>=◌, succeed, read_block, write_block}

-- `MtdReadContext`
pub record MtdReadContext : Type 0 where
  pub buffer : Bytes
  pub consumed : ℕ
  pub offset : ℕ

-- `MtdWriteContext`
pub record MtdWriteContext : Type 0 where
  pub buffer : Bytes
  pub offset : ℕ

unfoldable pub least : ℕ → ℕ → ℕ
least a b = if ltb a b then a else b

module _ {W : Type 0} (flash : Flash W) (part : MtdPartition) where
  -- `if (ctx->stored == ctx->partition->erase_size)`
  unfoldable pub flush : MtdWriteContext → Io W MtdWriteContext
  flush c =
      if length c.buffer == part.erase_size
      then write_block flash part c.buffer c.offset
        >>= (λ p. succeed (record { buffer = []; offset = p }))
      else succeed c

  -- The inner loop of `mtd_write_data`, over the bytes that are left.
  unfoldable pub write_whole : ℕ → Bytes → ℕ → Io W (Bytes × ℕ)
  write_whole zero bytes offset = succeed (bytes, offset)
  write_whole (suc fuel) bytes offset =
      let next =
        write_block flash part (take part.erase_size bytes) offset
        >>= write_whole fuel (drop part.erase_size bytes) in
      if ltb (length bytes) part.erase_size then succeed (bytes, offset) else next

  unfoldable pub direct : ℕ → Bytes → MtdWriteContext → Io W (Bytes × MtdWriteContext)
  direct fuel bytes c =
      if length c.buffer == 0
      then write_whole fuel bytes c.offset
        >>= (λ (left, p). succeed (left, record { buffer = c.buffer; offset = p }))
      else succeed (bytes, c)

  -- How many bytes are copied to the buffer.
  unfoldable pub coalesced : Bytes → MtdWriteContext → ℕ
  unfolding least
  coalesced bytes c =
      if ltb 0 (length c.buffer) || ltb (length bytes) part.erase_size
      then least (length bytes) (part.erase_size - length c.buffer)
      else 0

  -- The outer loop, over the bytes that are left.
  unfoldable pub write_rounds : ℕ → Bytes → MtdWriteContext → Io W MtdWriteContext
  write_rounds zero bytes c = succeed c
  write_rounds (suc fuel) bytes c =
      let copy = coalesced bytes c in
      let round =
        flush (record { buffer = c.buffer ++ take copy bytes; offset = c.offset })
        >>= (λ c'. direct (length bytes) (drop copy bytes) c')
        >>= (λ (left, c'). write_rounds fuel left c') in
      if length bytes == 0 then succeed c else round

  -- Each round takes at least one byte, so that the fuel suffices.
  unfoldable pub mtd_write_data : Bytes → MtdWriteContext → Io W MtdWriteContext
  mtd_write_data bytes c = write_rounds (length bytes) bytes c

  unfoldable pub erase_from : ℕ → ℕ → W → ℕ × W
  erase_from zero at w = (at, w)
  erase_from (suc blocks) at w =
      let rest = erase_from blocks (at + part.erase_size) in
      let erased = rest (flash.erase at w).1 in
      let skipped = rest w in if flash.bad at w then skipped else erased

  -- The pending bytes, filled up with zeros.
  unfoldable pub pad : MtdWriteContext → Io W MtdWriteContext
  pad c =
      if ltb 0 (length c.buffer)
      then write_block flash part (c.buffer ++ replicate (part.erase_size - length c.buffer) 0)
          c.offset
        >>= (λ p. succeed (record { buffer = []; offset = p }))
      else succeed c

  -- `mtd_erase_blocks`; `none` is a negative number of blocks, for all of them.
  unfoldable pub mtd_erase_blocks : Option ℕ → MtdWriteContext → Io W (ℕ × MtdWriteContext)
  unfolding pad
  mtd_erase_blocks blocks c = pad c >>= λ c' w.
      let total = (part.size - c'.offset) / part.erase_size in
      let wanted : ℕ = elim blocks [ none ↦ total | some n ↦ n ] in
      let erased = erase_from wanted c'.offset w in
      if ltb total wanted then (none, w) else (some (erased.0, c'), erased.1)

  -- `mtd_write_close`; the flag says that `close` succeeds.
  unfoldable pub mtd_write_close : Bool → MtdWriteContext → W → ℤ × W
  mtd_write_close closed c w =
      let erased = mtd_erase_blocks (some 0) c w in
      (elim erased.0 [ none ↦ minus_one | some r ↦ if closed then pos 0 else minus_one ], erased.1)

  -- The inner loop of `mtd_read_data`: `left` is `len - read`, and `out` what was read.
  unfoldable pub read_whole : ℕ → ℕ → Bytes → ℕ → Io W (ℕ × Bytes × ℕ)
  read_whole zero left out offset = succeed (left, out, offset)
  read_whole (suc fuel) left out offset =
      let next = read_block flash part offset >>= λ (block, p).
      read_whole fuel (left - part.erase_size) (out ++ block) p in
      if ltb left part.erase_size then succeed (left, out, offset) else next

  -- What a round takes from the buffer.
  unfoldable pub buffered : ℕ → MtdReadContext → ℕ
  unfolding least
  buffered left c =
      if ltb c.consumed part.erase_size then least left (part.erase_size - c.consumed) else 0

  unfoldable pub read_direct : ℕ → ℕ → Bytes → MtdReadContext → Io W (ℕ × Bytes × MtdReadContext)
  read_direct fuel left out c =
      if c.consumed == part.erase_size
      then read_whole fuel left out c.offset
        >>= (λ (left', out', p). succeed (left', out', record c { offset = p }))
      else succeed (left, out, c)

  -- The next block is read into the buffer.
  unfoldable pub refill : MtdReadContext → Io W MtdReadContext
  refill c =
      if c.consumed == part.erase_size
      then read_block flash part c.offset
        >>= (λ (block, p). succeed (record { buffer = block; consumed = 0; offset = p }))
      else succeed c

  unfoldable pub read_rounds : ℕ → ℕ → Bytes → MtdReadContext → Io W (Bytes × MtdReadContext)
  read_rounds zero left out c = succeed (out, c)
  read_rounds (suc fuel) left out c =
      let copy = buffered left c in
      let round =
        read_direct left (left - copy) (out ++ take copy (drop c.consumed c.buffer))
          (record c { consumed = c.consumed + copy })
        >>= λ (left', out', c').
            (if left' == 0
              then succeed (out', c')
              else refill c' >>= λ c''. read_rounds fuel left' out' c'') in
      if left == 0 then succeed (out, c) else round

  -- A round leaves fewer bytes, and the last one may take two.
  unfoldable pub mtd_read_data : ℕ → MtdReadContext → Io W (Bytes × MtdReadContext)
  mtd_read_data len c = read_rounds (len + 1) len [] c
