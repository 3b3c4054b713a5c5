-- ===== src/Mtd/Blocks/Verified.antt =====
-- What the success of `write_block` and of `read_block` says of the block, and their rounds.
use recovery_sdx.Base.{
  ℕ, zero, suc, ◌+◌, ◌≤◌, ◌<◌, ◌≡◌, refl, sym, ap, ◌∙◌, subst, inl, inr, ◌⊎◌, true, false, not,
  ◌&&◌, Option, none, some, Bytes, ltb, ◌==◌, bytes_eq_iff, ==_iff, arith, Bool-cases, &&-eq-true,
  eq_of_some,
}
use mathlib.Core.Path.{fun_ext}
use recovery_sdx.Mtd.{MtdPartition}
use recovery_sdx.Mtd.Blocks.{
  Flash, Io, all_zero, judge, check_block, read_round, read_from, read_counted, read_block, verify,
  attempt, try_twice, write_round, write_from, write_block,
}

module _ {W : Type 0} (flash : Flash W) (part : MtdPartition) where
  -- The last thing that the device did is to read `bytes` again from a block, which lies between the
  -- offsets.
  pub record Stored (bytes : Bytes) (first last : ℕ) (w : W) : Type 0 where
    pub place : ℕ
    pub before : W
    pub not_before : first ≤ place
    pub ends : place + part.erase_size ≡ last
    pub inside : last ≤ part.size
    pub verified : flash.read place part.erase_size before ≡ (some bytes, w)

  further :
      (bytes : Bytes) (offset last : ℕ) (w : W)
      → Stored bytes (offset + part.erase_size) last w
      → Stored bytes offset last w
  further bytes offset last w s = record {
    place = s.place;
    before = s.before;
    not_before = omega (arith, s.not_before);
    ends = s.ends;
    inside = s.inside;
    verified = s.verified;
  }

  verify-true :
      (bytes : Bytes) (r : Option Bytes × W)
      → (verify flash part bytes r).0 ≡ true
      → r ≡ (some bytes, (verify flash part bytes r).1)
  unfolding verify
  verify-true bytes (none, w) h = ground arith
  verify-true bytes (some again, w) h = ap (λ b. (some b, w)) (sym ((bytes_eq_iff bytes again).0 h))

  attempt-verified :
      (bytes : Bytes) (offset : ℕ) (w : W)
      → (attempt flash part bytes offset w).0 ≡ true
      → (v : W) × (flash.read offset part.erase_size v
          ≡ (some bytes, (attempt flash part bytes offset w).1))
  unfolding attempt
  attempt-verified bytes offset w h =
      let written = (flash.write offset bytes (flash.erase offset w).1).1 in
      elim (Bool-cases (flash.erase offset w).0) [
        | inl t ↦ (
          written,
          rw t (verify-true bytes (flash.read offset part.erase_size written) (rw t at h)),
        )
        | inr t ↦ absurd (ground (arith, h, t))
      ]

  try_twice-verified :
      (bytes : Bytes) (offset : ℕ) (w : W)
      → (try_twice flash part bytes offset w).0 ≡ true
      → (v : W) × (flash.read offset part.erase_size v
          ≡ (some bytes, (try_twice flash part bytes offset w).1))
  unfolding try_twice
  try_twice-verified bytes offset w h = elim (Bool-cases (attempt flash part bytes offset w).0) [
    | inl t ↦ rw t (attempt-verified bytes offset w t)
    | inr t ↦ rw t (attempt-verified bytes offset (attempt flash part bytes offset w).1 (rw t at h))
  ]

  here :
      (bytes : Bytes) (offset last : ℕ) (w w' : W)
      → offset + part.erase_size ≤ part.size
      → (try_twice flash part bytes offset w).0 ≡ true
      → ◌≡◌ {A = Option ℕ × W}
          (some (offset + part.erase_size), (try_twice flash part bytes offset w).1)
          (some last, w')
      → Stored bytes offset last w'
  here bytes offset last w w' le k h =
      let (v, again) = try_twice-verified bytes offset w k in
      let ends = eq_of_some (ap (λ r. r.0) h) in
      record {
        place = offset;
        before = v;
        not_before = omega arith;
        ends = ends;
        inside = omega (arith, ends);
        verified = again ∙ ap (λ u. (some bytes, u)) (ap (λ r. r.1) h);
      }

  write_from-Stored :
      (fuel : ℕ) (bytes : Bytes) (offset last : ℕ) (w w' : W)
      → write_from flash part fuel bytes offset w ≡ (some last, w')
      → Stored bytes offset last w'
  unfolding write_from write_round
  write_from-Stored zero bytes offset last w w' h = ground arith
  write_from-Stored (suc fuel) bytes offset last w w' h =
      elim (Bool-cases (ltb part.size (offset + part.erase_size))) [
        | inl t ↦ absurd (ground (arith, rw t at h))
        | inr t ↦ elim (Bool-cases (flash.bad offset w)) [
          | inl b ↦
              further bytes offset last w'
                (write_from-Stored fuel bytes (offset + part.erase_size) last w w' (rw (t, b) at h))
          | inr b ↦ elim (Bool-cases (try_twice flash part bytes offset w).0) [
            | inl k ↦ here bytes offset last w w' (ground arith) k (rw (t, b, k) at h)
            | inr k ↦ further bytes offset last w' (
                write_from-Stored fuel bytes (offset + part.erase_size) last
                  (flash.erase offset (try_twice flash part bytes offset w).1).1 w'
                  (rw (t, b, k) at h))
          ]
        ]
      ]

  -- If `write_block` succeeds, the last thing that the device did is to read the bytes again, the same
  -- ones, from a block of the partition which is not before the offset, and at whose end the new
  -- offset is.
  pub write_block-Stored :
      (bytes : Bytes) (offset last : ℕ) (w w' : W)
      → write_block flash part bytes offset w ≡ (some last, w')
      → Stored bytes offset last w'
  unfolding write_block
  write_block-Stored bytes offset last w w' h = write_from-Stored part.size bytes offset last w w' h

  write_round-stops :
      (next : Io W ℕ) (bytes : Bytes) (offset : ℕ) (w : W)
      → part.size < offset + part.erase_size
      → write_round flash part next bytes offset w ≡ (none, w)
  unfolding write_round
  write_round-stops next bytes offset w h =
      let t : ltb part.size (offset + part.erase_size) ≡ true = ground arith in rw t refl

  write_from-fuel :
      (fuel more : ℕ) (bytes : Bytes) (offset : ℕ)
      → 0 < part.erase_size
      → part.size < offset + part.erase_size + fuel
      → write_from flash part (fuel + more) bytes offset ≡ write_from flash part fuel bytes offset
  unfolding write_from
  write_from-fuel zero zero bytes offset p h = refl
  write_from-fuel zero (suc more) bytes offset p h =
      ap (λ n. write_from flash part n bytes offset) {y = suc more} (omega arith)
      ∙ fun_ext λ w.
        write_round-stops (write_from flash part more bytes (offset + part.erase_size)) bytes offset
          w (omega arith)
  write_from-fuel (suc fuel) more bytes offset p h =
      ap (λ n. write_from flash part n bytes offset) {y = suc (fuel + more)} (omega arith)
      ∙ ap (λ n. write_round flash part n bytes offset)
          (write_from-fuel fuel more bytes (offset + part.erase_size) p (omega arith))

  -- More rounds than the partition has bytes make no difference to `write_block`.
  pub write_block-fuel :
      (more : ℕ) (bytes : Bytes) (offset : ℕ)
      → 0 < part.erase_size
      → write_from flash part (part.size + more) bytes offset ≡ write_block flash part bytes offset
  unfolding write_block
  write_block-fuel more bytes offset p = write_from-fuel part.size more bytes offset p (omega arith)

  -- A block that was read with no new ECC failure, and has a byte that is not zero.
  pub record Sound (bytes : Bytes) (first last : ℕ) (count : Option ℕ) (w : W) : Type 0 where
    pub place : ℕ
    pub before : W
    pub not_before : first ≤ place
    pub ends : place + part.erase_size ≡ last
    pub inside : last ≤ part.size
    pub obtained : flash.read place part.erase_size before ≡ (some bytes, w)
    pub no_failure : flash.ecc_failed w ≡ count
    pub not_zero : all_zero bytes ≡ false

  later :
      (bytes : Bytes) (offset last : ℕ) (count : Option ℕ) (w : W)
      → Sound bytes (offset + part.erase_size) last count w
      → Sound bytes offset last count w
  later bytes offset last count w s = record {
    place = s.place;
    before = s.before;
    not_before = omega (arith, s.not_before);
    ends = s.ends;
    inside = s.inside;
    obtained = s.obtained;
    no_failure = s.no_failure;
    not_zero = s.not_zero;
  }

  -- What a round gives is a good block, or what the next rounds give.
  Good : ℕ → Option Bytes × W → ℕ → Bytes → ℕ → W → Type 0
  Good count r end bytes last w =
      (r ≡ (some bytes, w))
      × (end ≡ last)
      × (flash.ecc_failed w ≡ some count)
      × (all_zero bytes ≡ false)

  judge-some :
      (count : ℕ) (now : Option ℕ) (b : Bytes) (end : ℕ) (next : Io W (Bytes × ℕ)) (v : W)
      (bytes : Bytes) (last : ℕ) (w : W)
      → flash.ecc_failed v ≡ now
      → judge flash part count now b end next v ≡ (some (bytes, last), w)
      → Good count (some b, v) end bytes last w ⊎ (next v ≡ (some (bytes, last), w))
  unfolding judge Good
  judge-some count none b end next v bytes last w e h = absurd (ground (arith, h))
  judge-some count (some now) b end next v bytes last w e h =
      elim (Bool-cases ((now == count) && not (all_zero b))) [
        | inl t ↦
            let h' = rw t at h in
            let same = eq_of_some (ap (λ r. r.0) h') in
            let state = ap (λ r. r.1) h' in
            let both = &&-eq-true _ _ t in
            inl (
              ap (λ s. (some s, v)) (ap (λ r. r.0) same) ∙ ap (λ u. (some bytes, u)) state,
              ap (λ r. r.1) same,
              subst (λ u. flash.ecc_failed u ≡ some count) state
                  (e ∙ ap some ((==_iff now count).0 both.0)),
              subst (λ s. all_zero s ≡ false) (ap (λ r. r.0) same) (ground (arith, both.1)),
            )
        | inr t ↦ inr (rw t at h)
      ]

  check_block-some :
      (count : ℕ) (r : Option Bytes × W) (end : ℕ) (next : Io W (Bytes × ℕ)) (bytes : Bytes)
      (last : ℕ) (w : W)
      → check_block flash part count r end next ≡ (some (bytes, last), w)
      → Good count r end bytes last w ⊎ (next r.1 ≡ (some (bytes, last), w))
  unfolding check_block
  check_block-some count (none, v) end next bytes last w h = inr h
  check_block-some count (some b, v) end next bytes last w h =
      judge-some count (flash.ecc_failed v) b end next v bytes last w refl h

  read_from-Sound :
      (fuel count : ℕ) (bytes : Bytes) (offset last : ℕ) (w w' : W)
      → read_from flash part fuel count offset w ≡ (some (bytes, last), w')
      → Sound bytes offset last (some count) w'
  unfolding read_from read_round Good
  read_from-Sound zero count bytes offset last w w' h = ground arith
  read_from-Sound (suc fuel) count bytes offset last w w' h =
      elim (Bool-cases (ltb part.size (offset + part.erase_size))) [
        | inl t ↦ absurd (ground (arith, rw t at h))
        | inr t ↦
            elim (check_block-some count (flash.read offset part.erase_size w)
              (offset + part.erase_size)
              (read_from flash part fuel count (offset + part.erase_size)) bytes last w'
              (rw t at h)) [
                | inl good ↦ record {
                  place = offset;
                  before = w;
                  not_before = omega arith;
                  ends = good.1;
                  inside = ground (arith, t, good.1);
                  obtained = good.0;
                  no_failure = good.2;
                  not_zero = good.3;
                }
                | inr h' ↦ later bytes offset last (some count) w' (
                    read_from-Sound fuel count bytes (offset + part.erase_size) last
                      (flash.read offset part.erase_size w).1 w' h')
              ]
      ]

  read_counted-Sound :
      (count : Option ℕ) (bytes : Bytes) (offset last : ℕ) (w w' : W)
      → read_counted flash part count offset w ≡ (some (bytes, last), w')
      → Sound bytes offset last count w'
  unfolding read_counted
  read_counted-Sound none bytes offset last w w' h = absurd (ground (arith, h))
  read_counted-Sound (some before) bytes offset last w w' h =
      read_from-Sound part.size before bytes offset last w w' h

  -- If `read_block` succeeds, its bytes are those of a block of the partition which is not before the
  -- offset, and at whose end the new offset is; not all of them are zero, and the count of ECC failures
  -- is the one from before the call.
  pub read_block-Sound :
      (bytes : Bytes) (offset last : ℕ) (w w' : W)
      → read_block flash part offset w ≡ (some (bytes, last), w')
      → Sound bytes offset last (flash.ecc_failed w) w'
  unfolding read_block
  read_block-Sound bytes offset last w w' h =
      read_counted-Sound (flash.ecc_failed w) bytes offset last w w' h
