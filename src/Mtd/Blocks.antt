-- ===== src/Mtd/Blocks.antt =====
-- `read_block` and `write_block` of mtdutils/mtdutils.c. The offset of the file descriptor is an
-- argument, and a value that comes with the new one; sizes and offsets are below 2^31.
pub mod Verified
use recovery_sdx.Base.{
  ℕ, zero, suc, ◌+◌, Bool, true, false, ◌&&◌, not, Option, none, some, List, [], ◌∷◌, Bytes, ltb,
  ◌==◌, if◌then◌else◌, bytes_eq,
}
use recovery_sdx.Mtd.{MtdPartition}

-- The device in the system's state `W`: `bad` is MEMGETBADBLOCK, `erase` is MEMERASE of one block,
-- `read` and `write` come with their seek, and `ecc_failed` is the count of ECCGETSTATS.
pub record Flash (W : Type 0) : Type 0 where
  pub bad : ℕ → W → Bool
  pub erase : ℕ → W → Bool × W
  pub write : ℕ → Bytes → W → Bool × W
  pub read : ℕ → ℕ → W → Option Bytes × W
  pub ecc_failed : W → Option ℕ

-- A step that fails with -1, or gives a value.
abbrev pub Io : Type 0 → Type 0 → Type 0
Io W A = W → Option A × W

abbrev pub after : {W A B : Type 0} → Option A × W → (A → Io W B) → Option B × W
after (none, w) f = (none, w)
after (some a, w) f = f a w

infixl 5 ◌>>=◌
abbrev pub ◌>>=◌ : {W A B : Type 0} → Io W A → (A → Io W B) → Io W B
◌>>=◌ m f w = after (m w) f

abbrev pub succeed : {W A : Type 0} → A → Io W A
succeed a w = (some a, w)

unfoldable pub all_zero : Bytes → Bool
all_zero [] = true
all_zero (c ∷ s) = (c == 0) && all_zero s

module _ {W : Type 0} (flash : Flash W) (part : MtdPartition) where
  -- A block that was read is the result, or the next one is read, or the reading fails; `now` is the
  -- count of failures behind it.
  unfoldable pub judge : ℕ → Option ℕ → Bytes → ℕ → (W → Option (Bytes × ℕ) × W) → Io W (Bytes × ℕ)
  judge before none bytes last next w = (none, w)
  judge before (some now) bytes last next w =
      let skipped = next w in
      if (now == before) && not (all_zero bytes) then (some (bytes, last), w) else skipped

  unfoldable pub check_block :
      ℕ → Option Bytes × W → ℕ → (W → Option (Bytes × ℕ) × W) → Option (Bytes × ℕ) × W
  check_block before (none, w) last next = next w
  check_block before (some bytes, w) last next = judge before (flash.ecc_failed w) bytes last next w

  -- A round of the loop of `read_block`, in front of the others.
  unfoldable pub read_round : (W → Option (Bytes × ℕ) × W) → ℕ → ℕ → Io W (Bytes × ℕ)
  read_round next before offset w =
      let checked =
        check_block before (flash.read offset part.erase_size w) (offset + part.erase_size) next in
      if ltb part.size (offset + part.erase_size) then (none, w) else checked

  -- A round moves on by a block, so that as many rounds as the partition has bytes are enough.
  unfoldable pub read_from : ℕ → ℕ → ℕ → Io W (Bytes × ℕ)
  read_from zero before offset = λ w. (none, w)
  read_from (suc fuel) before offset =
      read_round (read_from fuel before (offset + part.erase_size)) before offset

  unfoldable pub read_counted : Option ℕ → ℕ → Io W (Bytes × ℕ)
  read_counted none offset w = (none, w)
  read_counted (some before) offset w = read_from part.size before offset w

  unfoldable pub read_block : ℕ → Io W (Bytes × ℕ)
  read_block offset w = read_counted (flash.ecc_failed w) offset w

  unfoldable pub verify : Bytes → Option Bytes × W → Bool × W
  verify bytes (none, w) = (false, w)
  verify bytes (some again, w) = (bytes_eq bytes again, w)

  -- One round of the retries: erase, write, read again and compare.
  unfoldable pub attempt : Bytes → ℕ → W → Bool × W
  attempt bytes offset w =
      let erased = flash.erase offset w in
      let written = flash.write offset bytes erased.1 in
      let verified = verify bytes (flash.read offset part.erase_size written.1) in
      if erased.0 then verified else (false, erased.1)

  unfoldable pub try_twice : Bytes → ℕ → W → Bool × W
  try_twice bytes offset w =
      let first = attempt bytes offset w in
      let second = attempt bytes offset first.1 in if first.0 then first else second

  -- A round of the loop of `write_block`, in front of the others.
  unfoldable pub write_round : Io W ℕ → Bytes → ℕ → Io W ℕ
  write_round next bytes offset w =
      let skipped = next w in
      let tried = try_twice bytes offset w in
      let given_up = next (flash.erase offset tried.1).1 in
      if ltb part.size (offset + part.erase_size)
      then (none, w)
      else (if flash.bad offset w
          then skipped
          else if tried.0
          then (some (offset + part.erase_size), tried.1)
          else given_up)

  -- The fuel is that of `read_from`.
  unfoldable pub write_from : ℕ → Bytes → ℕ → Io W ℕ
  write_from zero bytes offset = λ w. (none, w)
  write_from (suc fuel) bytes offset =
      write_round (write_from fuel bytes (offset + part.erase_size)) bytes offset

  unfoldable pub write_block : Bytes → ℕ → Io W ℕ
  write_block bytes offset = write_from part.size bytes offset
