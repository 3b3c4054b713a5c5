-- ===== src/Mtd/Stream/Reading.antt =====
-- How much `mtd_read_data` reads.
use recovery_sdx.Base.{
  ℕ, zero, suc, ◌+◌, ◌-◌, ◌≤◌, ◌<◌, ◌≡◌, refl, sym, ap, ◌∙◌, subst, inl, inr, ◌⊎◌, Option, none,
  some, [], ◌++◌, Bytes, ltb, ◌==◌, length, take, drop, arith, Bool-cases, length-append,
  length-drop, length-take, eq_of_some,
}
use recovery_sdx.Mtd.{MtdPartition}
use recovery_sdx.Mtd.Blocks.{Flash, Io, after, read_block}
use recovery_sdx.Mtd.Blocks.Verified.{read_block-Sound}
use recovery_sdx.Mtd.Stream.{
  MtdReadContext, least, read_whole, buffered, read_direct, refill, read_rounds, mtd_read_data,
}

after-eq-some :
    {W A B : Type 0} (r : Option A × W) (f : A → Io W B) (b : B) (w : W)
    → after r f ≡ (some b, w)
    → (a : A) × (v : W) × (r ≡ (some a, v)) × (f a v ≡ (some b, w))
after-eq-some (none, v) f b w h = absurd (ground (arith, ap (λ x. x.0) h))
after-eq-some (some a, v) f b w h = (a, v, refl, h)

result_of :
    {W A : Type 0} (a b : A) (v w : W) → ◌≡◌ {A = Option A × W} (some a, v) (some b, w) → a ≡ b
result_of a b v w h = eq_of_some (ap (λ x. x.0) h)

-- A read gives as many bytes as it is asked for.
pub record IsExact {W : Type 0} (flash : Flash W) : Type 0 where
  pub exact : (p n : ℕ) (w w' : W) (b : Bytes) → flash.read p n w ≡ (some b, w') → length b ≡ n

-- The buffer is a block, and it is not consumed further than its end.
pub record IsValid (part : MtdPartition) (c : MtdReadContext) : Type 0 where
  pub full : length c.buffer ≡ part.erase_size
  pub within : c.consumed ≤ part.erase_size

module _ {W : Type 0} (flash : Flash W) (exact : IsExact flash) (part : MtdPartition) where
  length-read_block :
      (offset last : ℕ) (b : Bytes) (w w' : W)
      → read_block flash part offset w ≡ (some (b, last), w')
      → length b ≡ part.erase_size
  length-read_block offset last b w w' h =
      let s = read_block-Sound flash part b offset last w w' h in
      exact.exact s.place part.erase_size s.before w' b s.obtained

  -- What is read and what is left stay the same in sum.
  read_whole-sum :
      (fuel left : ℕ) (out : Bytes) (offset : ℕ) (w w' : W) (r : ℕ × Bytes × ℕ)
      → read_whole flash part fuel left out offset w ≡ (some r, w')
      → (length r.1 + r.0 ≡ length out + left) × (r.0 ≤ left)
  unfolding read_whole
  read_whole-sum zero left out offset w w' r h =
      subst (λ x. (length x.1 + x.0 ≡ length out + left) × (x.0 ≤ left))
        (result_of (left, out, offset) r w w' h) (refl, omega arith)
  read_whole-sum (suc fuel) left out offset w w' r h =
      elim (Bool-cases (ltb left part.erase_size)) [
        | inl t ↦
            subst (λ x. (length x.1 + x.0 ≡ length out + left) × (x.0 ≤ left))
              (result_of (left, out, offset) r w w' (rw t at h)) (refl, omega arith)
        | inr t ↦
            let (a, v, block, rest) =
              after-eq-some (read_block flash part offset w) _ r w' (rw t at h) in
            let sum = read_whole-sum fuel (left - part.erase_size) (out ++ a.0) a.1 v w' r rest in
            (
              ground (
                arith,
                sum.0,
                length-append out a.0,
                length-read_block offset a.1 a.0 w v block,
                t,
              ),
              omega (arith, sum.1),
            )
      ]

  read_direct-sum :
      (fuel left : ℕ) (out : Bytes) (c : MtdReadContext) (w w' : W) (r : ℕ × Bytes × MtdReadContext)
      → read_direct flash part fuel left out c w ≡ (some r, w')
      → (length r.1 + r.0 ≡ length out + left)
        × (r.0 ≤ left)
        × (r.2.buffer ≡ c.buffer)
        × (r.2.consumed ≡ c.consumed)
  unfolding read_direct
  read_direct-sum fuel left out c w w' r h = elim (Bool-cases (c.consumed == part.erase_size)) [
    | inr t ↦
        let e = sym (result_of (left, out, c) r w w' (rw t at h)) in
        (
          ap (λ x. length x.1 + x.0) e,
          omega (arith, ap (λ x. x.0) e),
          ap (λ x. x.2.buffer) e,
          ap (λ x. x.2.consumed) e,
        )
    | inl t ↦
        let (a, v, whole, done) =
          after-eq-some (read_whole flash part fuel left out c.offset w) _ r w' (rw t at h) in
        let e = sym (result_of _ r v w' done) in
        let sum = read_whole-sum fuel left out c.offset w v a whole in
        (
          ap (λ x. length x.1 + x.0) e ∙ sum.0,
          omega (arith, ap (λ x. x.0) e, sum.1),
          ap (λ x. x.2.buffer) e,
          ap (λ x. x.2.consumed) e,
        )
  ]

  refill-IsValid :
      (c c' : MtdReadContext) (w w' : W)
      → 0 < part.erase_size
      → IsValid part c
      → refill flash part c w ≡ (some c', w')
      → IsValid part c' × (c'.consumed < part.erase_size)
  unfolding refill
  refill-IsValid c c' w w' p valid h = elim (Bool-cases (c.consumed == part.erase_size)) [
    | inr t ↦
        let e = result_of c c' w w' (rw t at h) in
        subst (λ x. IsValid part x × (x.consumed < part.erase_size)) e
          (valid, ground (arith, valid.within, t))
    | inl t ↦
        let (a, v, block, done) =
          after-eq-some (read_block flash part c.offset w) _ c' w' (rw t at h) in
        let e = result_of _ c' v w' done in
        subst (λ x. IsValid part x × (x.consumed < part.erase_size)) e
          (record { full = length-read_block c.offset a.1 a.0 w v block; within = omega arith }, p)
  ]

  -- What a round takes from the buffer is there, and it is not nothing if something is.
  buffered-le :
      (left : ℕ) (c : MtdReadContext)
      → IsValid part c
      → (buffered flash part left c ≤ left)
        × (c.consumed + buffered flash part left c ≤ part.erase_size)
        × (c.consumed < part.erase_size → 0 < left → 0 < buffered flash part left c)
  unfolding buffered least
  buffered-le left c v =
      (ground (arith, v.within), ground (arith, v.within), λ p q. ground (arith, v.within))

  rounds-exact :
      (fuel left : ℕ) (out : Bytes) (c : MtdReadContext) (w w' : W) (r : Bytes × MtdReadContext)
      → 0 < part.erase_size
      → IsValid part c
      → left ≤ fuel
      → (c.consumed < part.erase_size) ⊎ (left + 1 ≤ fuel)
      → read_rounds flash part fuel left out c w ≡ (some r, w')
      → (length r.0 ≡ length out + left) × IsValid part r.1
  unfolding read_rounds
  rounds-exact zero left out c w w' r p valid room more h =
      subst (λ x. (length x.0 ≡ length out + left) × IsValid part x.1) (result_of (out, c) r w w' h)
        (omega arith, valid)
  rounds-exact (suc fuel) left out c w w' r p valid room more h = elim (Bool-cases (left == 0)) [
    | inl t ↦
        subst (λ x. (length x.0 ≡ length out + left) × IsValid part x.1)
          (result_of (out, c) r w w' (rw t at h)) (ground (arith, t), valid)
    | inr t ↦
        let copy = buffered flash part left c in
        let (copy_le, inside, some_copied) = buffered-le left c valid in
        let piece = take copy (drop c.consumed c.buffer) in
        let (a, v, directly, rest) =
          after-eq-some
            (read_direct flash part left (left - copy) (out ++ piece)
              (record c { consumed = c.consumed + copy }) w)
            _ r w' (rw t at h) in
        let (sum, fewer, same_buffer, same_place) =
          read_direct-sum left (left - copy) (out ++ piece)
            (record c { consumed = c.consumed + copy }) w v a directly in
        let taken : length piece ≡ copy = omega (
          arith,
          length-take copy (drop c.consumed c.buffer),
          length-drop c.consumed c.buffer,
          inside,
          valid.full,
        ) in
        let total : length a.1 + a.0 ≡ length out + left =
          omega (arith, sum, length-append out piece, taken, copy_le) in
        let valid' : IsValid part a.2 = record {
          full = ap length same_buffer ∙ valid.full;
          within = omega (arith, same_place, inside);
        } in
        elim (Bool-cases (a.0 == 0)) [
          | inl z ↦
              subst (λ x. (length x.0 ≡ length out + left) × IsValid part x.1)
                (result_of (a.1, a.2) r v w' (rw z at rest)) (ground (arith, z, total), valid')
          | inr z ↦
              let (c'', v'', filled, others) =
                after-eq-some (refill flash part a.2 v) _ r w' (rw z at rest) in
              let (valid'', below) = refill-IsValid a.2 c'' v v'' p valid' filled in
              let enough : a.0 ≤ fuel = elim more [
                | inl o ↦ ground (arith, fewer, some_copied o (ground (arith, t)), room)
                | inr o ↦ omega (arith, fewer, o)
              ] in
              let (len, last) =
                rounds-exact fuel a.0 a.1 c'' v'' w' r p valid'' enough (inl below) others in
              (omega (arith, len, total), last)
        ]
  ]

  -- If a read of the device gives as many bytes as it is asked for, `mtd_read_data` with a valid context
  -- either fails or gives exactly as many bytes as it is asked for, and a valid context.
  pub mtd_read_data-exact :
      (len : ℕ) (c c' : MtdReadContext) (w w' : W) (out : Bytes)
      → 0 < part.erase_size
      → IsValid part c
      → mtd_read_data flash part len c w ≡ (some (out, c'), w')
      → (length out ≡ len) × IsValid part c'
  unfolding mtd_read_data
  mtd_read_data-exact len c c' w w' out p valid h =
      let (total, last) =
        rounds-exact (len + 1) len [] c w w' (out, c') p valid (omega arith) (inr (omega arith))
          h in
      (omega (arith, total), last)
