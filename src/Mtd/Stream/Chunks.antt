-- ===== src/Mtd/Stream/Chunks.antt =====
-- What `mtd_write_data` is for: the bytes are cut in blocks, and those that do not fill one are kept.
use recovery_sdx.Base.{
  ℕ, zero, suc, ◌+◌, ◌-◌, ◌*◌, ◌≤◌, ◌<◌, ◌≡◌, refl, sym, ◌∙◌, true, false, Option, none, some,
  Bytes, ltb, length, take, drop, arith, length-drop,
}
use recovery_sdx.Mtd.{MtdPartition}
use recovery_sdx.Mtd.Blocks.{Flash, Io, after, ◌>>=◌, succeed, write_block}
use recovery_sdx.Mtd.Stream.{MtdWriteContext, write_whole}

module _ {W A B C : Type 0} where
  pub after_assoc :
      (r : Option A × W) (f : A → Io W B) (g : B → Io W C)
      → after (after r f) g ≡ after r (λ a w. after (f a w) g)
  after_assoc (none, w) f g = refl
  after_assoc (some a, w) f g = refl

pub after-after :
    {W A B C D : Type 0} (r : Option A × W) (f : A → Io W B) (g : B → Io W C) (h : C → Io W D)
    → after (after (after r f) g) h ≡ after r (λ a w. after (after (f a w) g) h)
after-after (none, w) f g h = refl
after-after (some a, w) f g h = refl

pub after_cong :
    {W A B : Type 0} (r : Option A × W) (f g : A → Io W B)
    → ((a : A) (w : W) → f a w ≡ g a w)
    → after r f ≡ after r g
after_cong (none, w) f g h = refl
after_cong (some a, w) f g h = h a w

module _ {W : Type 0} (flash : Flash W) (part : MtdPartition) where
  -- The first `n` blocks of the bytes are written; what is left stays in the buffer.
  unfoldable pub put_blocks : ℕ → Bytes → ℕ → Io W MtdWriteContext
  put_blocks zero bytes offset = succeed (record { buffer = bytes; offset = offset })
  put_blocks (suc n) bytes offset =
      write_block flash part (take part.erase_size bytes) offset
      >>= put_blocks n (drop part.erase_size bytes)

  -- Behind `n` blocks, what is left has the length that it should have.
  pub put_blocks_cong :
      {B : Type 0} (n : ℕ) (bytes : Bytes) (offset : ℕ) (w : W) (f g : MtdWriteContext → Io W B)
      → ((c : MtdWriteContext) (w' : W)
          → length c.buffer ≡ length bytes - n * part.erase_size
          → f c w' ≡ g c w')
      → after (put_blocks n bytes offset w) f ≡ after (put_blocks n bytes offset w) g
  unfolding put_blocks
  put_blocks_cong zero bytes offset w f g h = h _ w (omega arith)
  put_blocks_cong (suc n) bytes offset w f g h =
      after_assoc (write_block flash part (take part.erase_size bytes) offset w) _ f
      ∙ after_cong (write_block flash part (take part.erase_size bytes) offset w) _ _ (λ p w'.
        put_blocks_cong n (drop part.erase_size bytes) p w' f g
          (λ c w'' e. h c w'' (grind (arith, e, length-drop part.erase_size bytes))))
      ∙ sym (after_assoc (write_block flash part (take part.erase_size bytes) offset w) _ g)

  module _ (positive : 0 < part.erase_size) where
    -- The inner loop writes all the blocks that there are.
    pub write_whole-put_blocks :
        (fuel n : ℕ) (bytes : Bytes) (offset : ℕ) (w : W)
        → n ≤ fuel
        → n * part.erase_size ≤ length bytes
        → length bytes < n * part.erase_size + part.erase_size
        → write_whole flash part fuel bytes offset w
          ≡ after (put_blocks n bytes offset w) (λ c. succeed (c.buffer, c.offset))
    unfolding write_whole put_blocks
    write_whole-put_blocks zero zero bytes offset w h lo hi = refl
    write_whole-put_blocks (suc fuel) zero bytes offset w h lo hi =
        let small : ltb (length bytes) part.erase_size ≡ true = ground arith in rw small refl
    write_whole-put_blocks zero (suc n) bytes offset w h lo hi = absurd (omega arith)
    write_whole-put_blocks (suc fuel) (suc n) bytes offset w h lo hi =
        let large : ltb (length bytes) part.erase_size ≡ false = grind arith in
        rw large (
          after_cong (write_block flash part (take part.erase_size bytes) offset w) _ _ (λ p w'.
            write_whole-put_blocks fuel n (drop part.erase_size bytes) p w' (omega arith)
              (grind (arith, length-drop part.erase_size bytes))
              (grind (arith, length-drop part.erase_size bytes)))
          ∙ sym (after_assoc (write_block flash part (take part.erase_size bytes) offset w) _ _))
