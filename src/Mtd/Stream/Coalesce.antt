-- ===== src/Mtd/Stream/Coalesce.antt =====
-- The coalescing of `mtd_write_data`, against the blocks of all the bytes.
use recovery_sdx.Base.{
  ℕ, zero, suc, ◌+◌, ◌-◌, ◌*◌, ◌/◌, ◌≤◌, ◌<◌, ◌≡◌, refl, sym, ap, ◌∙◌, true, false, Option, none,
  some, List, [], ◌∷◌, ◌++◌, Bytes, ◌==◌, length, take, drop, arith, length-append, length-drop,
  length-take, take_all,
}
use native.Mathlib.Nat.{div-mul-le_self, lt-div-mul-add}
use mathlib.Core.List.{append-nil, append_assoc}
use recovery_sdx.Mtd.{MtdPartition}
use recovery_sdx.Mtd.Blocks.{Flash, after, ◌>>=◌, succeed, write_block}
use recovery_sdx.Mtd.Stream.{
  MtdWriteContext, flush, direct, coalesced, least, write_rounds, mtd_write_data,
}
use recovery_sdx.Mtd.Stream.Chunks.{
  put_blocks, put_blocks_cong, after_assoc, after-after, after_cong, write_whole-put_blocks,
}

drop_all : {A : Type 0} (xs : List A) → drop (length xs) xs ≡ []
drop_all [] = refl
drop_all (x ∷ xs) = drop_all xs

take_first :
    (xs ys : Bytes) (n : ℕ) → length xs < n → take n (xs ++ ys) ≡ xs ++ take (n - length xs) ys
take_first [] ys n h = ap (λ k. take k ys) (omega arith)
take_first (x ∷ xs) ys zero h = absurd (omega arith)
take_first (x ∷ xs) ys (suc n) h =
    ap (λ l. x ∷ l) (take_first xs ys n (omega arith) ∙ ap (λ k. xs ++ take k ys) (omega arith))

drop_first : (xs ys : Bytes) (n : ℕ) → length xs < n → drop n (xs ++ ys) ≡ drop (n - length xs) ys
drop_first [] ys n h = ap (λ k. drop k ys) (omega arith)
drop_first (x ∷ xs) ys zero h = absurd (omega arith)
drop_first (x ∷ xs) ys (suc n) h =
    drop_first xs ys n (omega arith) ∙ ap (λ k. drop k ys) (omega arith)

take_within : (xs ys : Bytes) (n : ℕ) → n ≤ length xs → take n (xs ++ ys) ≡ take n xs
take_within xs ys zero h = refl
take_within [] ys (suc n) h = absurd (omega arith)
take_within (x ∷ xs) ys (suc n) h = ap (λ l. x ∷ l) (take_within xs ys n (omega arith))

drop_within : (xs ys : Bytes) (n : ℕ) → n ≤ length xs → drop n (xs ++ ys) ≡ drop n xs ++ ys
drop_within xs ys zero h = refl
drop_within [] ys (suc n) h = absurd (omega arith)
drop_within (x ∷ xs) ys (suc n) h = drop_within xs ys n (omega arith)

after-succeed : {W A : Type 0} (r : Option A × W) → after r succeed ≡ r
after-succeed (none, w) = refl
after-succeed (some a, w) = refl

module _ {W : Type 0} (flash : Flash W) (part : MtdPartition) where
  coalesced-small :
      (bytes : Bytes) (c : MtdWriteContext)
      → length c.buffer + length bytes < part.erase_size
      → coalesced flash part bytes c ≡ length bytes
  unfolding coalesced least
  coalesced-small bytes c lt = ground arith

  coalesced-fill :
      (bytes : Bytes) (c : MtdWriteContext)
      → 0 < length c.buffer
      → length c.buffer < part.erase_size
      → part.erase_size ≤ length c.buffer + length bytes
      → coalesced flash part bytes c ≡ part.erase_size - length c.buffer
  unfolding coalesced least
  coalesced-fill bytes c gt lt le = ground arith

  coalesced-none :
      (bytes : Bytes) (c : MtdWriteContext)
      → length c.buffer ≡ 0
      → part.erase_size ≤ length bytes
      → coalesced flash part bytes c ≡ 0
  unfolding coalesced least
  coalesced-none bytes c e le = ground arith

  rounds-nil :
      (fuel : ℕ) (c : MtdWriteContext) (w : W) → write_rounds flash part fuel [] c w ≡ (some c, w)
  unfolding write_rounds
  rounds-nil zero c w = refl
  rounds-nil (suc fuel) c w = refl

  flush-open :
      (c : MtdWriteContext) (w : W)
      → length c.buffer < part.erase_size
      → flush flash part c w ≡ (some c, w)
  unfolding flush
  flush-open c w lt =
      let t : (length c.buffer == part.erase_size) ≡ false = ground arith in rw t refl

  direct-open :
      (fuel : ℕ) (bytes : Bytes) (c : MtdWriteContext) (w : W)
      → 0 < length c.buffer
      → direct flash part fuel bytes c w ≡ (some (bytes, c), w)
  unfolding direct
  direct-open fuel bytes c w gt = let t : (length c.buffer == 0) ≡ false = ground arith in rw t refl

  -- A round that copies `n` bytes.
  rounds-suc :
      (fuel n : ℕ) (bytes : Bytes) (c : MtdWriteContext) (w : W)
      → 0 < length bytes
      → coalesced flash part bytes c ≡ n
      → write_rounds flash part (suc fuel) bytes c w
        ≡ after
            (after
              (flush flash part (record { buffer = c.buffer ++ take n bytes; offset = c.offset }) w)
              (λ c' w'. direct flash part (length bytes) (drop n bytes) c' w'))
            (λ r w'. write_rounds flash part fuel r.0 r.1 w')
  unfolding write_rounds
  rounds-suc fuel n bytes c w gt e =
      let t : (length bytes == 0) ≡ false = ground arith in rw (t, e) refl

  -- Bytes that do not fill the buffer are kept in it.
  kept :
      (fuel : ℕ) (bytes : Bytes) (c : MtdWriteContext) (w : W)
      → length bytes ≤ fuel
      → length c.buffer + length bytes < part.erase_size
      → write_rounds flash part fuel bytes c w
        ≡ (some (record { buffer = c.buffer ++ bytes; offset = c.offset }), w)
  kept fuel [] c w h lt = rounds-nil fuel c w ∙ rw (append-nil c.buffer) refl
  kept zero (y ∷ ys) c w h lt = absurd (omega arith)
  kept (suc fuel) (y ∷ ys) c w h lt =
      let c' : MtdWriteContext = record { buffer = c.buffer ++ (y ∷ ys); offset = c.offset } in
      let full = length-append c.buffer (y ∷ ys) in
      rounds-suc fuel (length (y ∷ ys)) (y ∷ ys) c w (omega arith) (coalesced-small (y ∷ ys) c lt)
      ∙ rw (take_all (length (y ∷ ys)) (y ∷ ys) refl, flush-open c' w (omega (arith, full)))
          (rw
            (direct-open (length (y ∷ ys)) (drop (length (y ∷ ys)) (y ∷ ys)) c' w
              (omega (arith, full)))
            (rw (drop_all ys) (rounds-nil fuel c' w)))

  flush-full :
      (c : MtdWriteContext) (w : W)
      → length c.buffer ≡ part.erase_size
      → flush flash part c w
        ≡ after
            (write_block flash part c.buffer c.offset w)
            (λ p. succeed (record { buffer = []; offset = p }))
  unfolding flush
  flush-full c w e = let t : (length c.buffer == part.erase_size) ≡ true = ground arith in rw t refl

  -- Blocks written from the user's buffer, when nothing is pending.
  whole :
      (fuel n : ℕ) (bytes : Bytes) (offset : ℕ) (w : W)
      → length bytes ≤ fuel + n * part.erase_size
      → 0 < part.erase_size
      → n * part.erase_size ≤ length bytes
      → length bytes < n * part.erase_size + part.erase_size
      → (k : ℕ) → n ≤ k
      → after
          (direct flash part k bytes (record { buffer = []; offset = offset }) w)
          (λ r w'. write_rounds flash part fuel r.0 r.1 w')
        ≡ put_blocks flash part n bytes offset w
  unfolding direct
  whole fuel n bytes offset w h gt lo hi k le =
      rw (write_whole-put_blocks flash part gt k n bytes offset w le lo hi) (
        after-after (put_blocks flash part n bytes offset w) _ _ _
        ∙ put_blocks_cong flash part n bytes offset w _ succeed (λ c w' e.
          kept fuel c.buffer (record { buffer = []; offset = c.offset }) w' (omega (arith, e))
            (omega (arith, e)))
        ∙ after-succeed (put_blocks flash part n bytes offset w))

  -- The first block is completed in the buffer, and the others are written from the user's.
  filled :
      (fuel n : ℕ) (bytes : Bytes) (c : MtdWriteContext) (w : W)
      → length bytes ≤ suc fuel
      → 0 < length c.buffer
      → length c.buffer < part.erase_size
      → suc n * part.erase_size ≤ length c.buffer + length bytes
      → length c.buffer + length bytes < suc n * part.erase_size + part.erase_size
      → write_rounds flash part (suc fuel) bytes c w
        ≡ put_blocks flash part (suc n) (c.buffer ++ bytes) c.offset w
  unfolding put_blocks
  filled fuel n bytes c w h gt lt lo hi =
      let copy = part.erase_size - length c.buffer in
      let c' : MtdWriteContext = record {
        buffer = c.buffer ++ take copy bytes;
        offset = c.offset;
      } in
      let left = length-drop copy bytes in
      let full : length (c.buffer ++ take copy bytes) ≡ part.erase_size =
        grind (arith, length-append c.buffer (take copy bytes), length-take copy bytes) in
      rounds-suc fuel copy bytes c w (grind arith) (coalesced-fill bytes c gt lt (grind arith))
      ∙ rw (flush-full c' w full) (
          after-after (write_block flash part (c.buffer ++ take copy bytes) c.offset w) _ _ _
          ∙ after_cong (write_block flash part (c.buffer ++ take copy bytes) c.offset w) _ _
              (λ p w'.
                whole fuel n (drop copy bytes) p w' (grind (arith, left)) (omega arith)
                  (grind (arith, left)) (grind (arith, left)) (length bytes) (grind arith))
          ∙ rw
              (
                sym (take_first c.buffer bytes part.erase_size lt),
                sym (drop_first c.buffer bytes part.erase_size lt),
              )
              refl)

  rounds-put_blocks :
      (n : ℕ) (bytes pending : Bytes) (offset : ℕ) (w : W)
      → length pending < part.erase_size
      → n * part.erase_size ≤ length (pending ++ bytes)
      → length (pending ++ bytes) < n * part.erase_size + part.erase_size
      → write_rounds flash part
          (length bytes)
          bytes
          (record { buffer = pending; offset = offset })
          w
        ≡ put_blocks flash part n (pending ++ bytes) offset w
  unfolding put_blocks
  rounds-put_blocks zero bytes pending offset w lt lo hi =
      kept (length bytes) bytes (record { buffer = pending; offset = offset }) w (omega arith)
        (omega (arith, length-append pending bytes))
  rounds-put_blocks (suc n) [] pending offset w lt lo hi =
      absurd (grind (arith, length-append pending []))
  rounds-put_blocks (suc n) (y ∷ ys) [] offset w lt lo hi =
      rounds-suc (length ys) 0 (y ∷ ys) (record { buffer = []; offset = offset }) w (omega arith)
        (coalesced-none (y ∷ ys) (record { buffer = []; offset = offset }) refl (grind arith))
      ∙ rw (flush-open (record { buffer = []; offset = offset }) w lt) (
          whole (length ys) (suc n) (y ∷ ys) offset w (grind arith) lt lo hi (length (y ∷ ys))
            (grind arith))
  rounds-put_blocks (suc n) (y ∷ ys) (x ∷ xs) offset w lt lo hi =
      filled (length ys) n (y ∷ ys) (record { buffer = x ∷ xs; offset = offset }) w (omega arith)
        (omega arith) lt (omega (arith, length-append (x ∷ xs) (y ∷ ys)))
        (omega (arith, length-append (x ∷ xs) (y ∷ ys)))

  -- With less than a block pending, `mtd_write_data` writes the blocks of the pending bytes and the
  -- new ones, each of them once and in their order, until one fails, and keeps what does not fill one.
  pub mtd_write_data-put_blocks :
      (n : ℕ) (bytes : Bytes) (c : MtdWriteContext) (w : W)
      → length c.buffer < part.erase_size
      → n * part.erase_size ≤ length (c.buffer ++ bytes)
      → length (c.buffer ++ bytes) < n * part.erase_size + part.erase_size
      → mtd_write_data flash part bytes c w ≡ put_blocks flash part n (c.buffer ++ bytes) c.offset w
  unfolding mtd_write_data
  mtd_write_data-put_blocks n bytes c w lt lo hi =
      rounds-put_blocks n bytes c.buffer c.offset w lt lo hi

  put_blocks-append :
      (n m : ℕ) (s t : Bytes) (offset : ℕ) (w : W)
      → n * part.erase_size ≤ length s
      → after
          (put_blocks flash part n s offset w)
          (λ c. put_blocks flash part m (c.buffer ++ t) c.offset)
        ≡ put_blocks flash part (n + m) (s ++ t) offset w
  unfolding put_blocks
  put_blocks-append zero m s t offset w h =
      ap (λ k. put_blocks flash part k (s ++ t) offset w) (omega arith)
  put_blocks-append (suc n) m s t offset w h =
      let enough : part.erase_size ≤ length s = grind arith in
      let count : suc n + m ≡ suc (n + m) = omega arith in
      after_assoc (write_block flash part (take part.erase_size s) offset w) _ _
      ∙ after_cong (write_block flash part (take part.erase_size s) offset w) _ _ (λ p w'.
        put_blocks-append n m (drop part.erase_size s) t p w'
          (grind (arith, length-drop part.erase_size s)))
      ∙ rw (count, take_within s t part.erase_size enough, drop_within s t part.erase_size enough)
          refl

  -- With less than a block pending, it does not matter whether bytes are handed to `mtd_write_data` in
  -- one call or in two.
  pub mtd_write_data-append :
      (a b : Bytes) (c : MtdWriteContext) (w : W)
      → length c.buffer < part.erase_size
      → (mtd_write_data flash part a c >>= mtd_write_data flash part b) w
        ≡ mtd_write_data flash part (a ++ b) c w
  mtd_write_data-append a b c w lt =
      let n = length (c.buffer ++ a) / part.erase_size in
      let total = length (c.buffer ++ a) - n * part.erase_size + length b in
      let m = total / part.erase_size in
      let positive : 0 < part.erase_size = omega arith in
      let lo = div-mul-le_self (length (c.buffer ++ a)) part.erase_size in
      let hi = lt-div-mul-add {a = length (c.buffer ++ a)} positive in
      let lo' = div-mul-le_self total part.erase_size in
      let hi' = lt-div-mul-add {a = total} positive in
      let all : length (c.buffer ++ (a ++ b)) ≡ length (c.buffer ++ a) + length b =
        omega
          (arith, length-append c.buffer (a ++ b), length-append a b, length-append c.buffer a) in
      let sum : (n + m) * part.erase_size ≡ n * part.erase_size + m * part.erase_size =
        grind arith in
      rw (mtd_write_data-put_blocks n a c w lt lo hi) (
        put_blocks_cong flash part n (c.buffer ++ a) c.offset w (mtd_write_data flash part b)
          (λ c'. put_blocks flash part m (c'.buffer ++ b) c'.offset)
          (λ c' w' e.
            mtd_write_data-put_blocks m b c' w' (omega (arith, e, hi, lo))
              (omega (arith, e, length-append c'.buffer b, lo'))
              (omega (arith, e, length-append c'.buffer b, hi')))
        ∙ put_blocks-append n m (c.buffer ++ a) b c.offset w lo
        ∙ ap (λ s. put_blocks flash part (n + m) s c.offset w) (append_assoc c.buffer a b)
        ∙ sym (
            mtd_write_data-put_blocks (n + m) (a ++ b) c w lt (omega (arith, all, sum, lo, lo'))
              (omega (arith, all, sum, lo, hi'))))
