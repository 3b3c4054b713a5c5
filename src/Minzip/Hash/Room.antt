-- ===== src/Minzip/Hash/Room.antt =====
-- The counters of a table are right, and the load stays low enough for every probe to end.
use recovery_sdx.Base.{
  ℕ, zero, suc, ◌+◌, ◌*◌, ◌%◌, ◌^◌, ◌≤◌, ◌<◌, ◌≡◌, refl, ap, ◌∙◌, true, false, some, List, [], ◌∷◌,
  length, get_or, set, replicate, arith, Bool-cases, inl, inr, ltb, length-set, length-replicate,
}
use native.Mathlib.Nat.{mod-lt}
use native.Mathlib.Omega.{pow_step}
use recovery_sdx.Minzip.Hash.{
  HashEntry, empty, tombstone, live, HashTable, is_empty, insert_all, resize_hash, add_at,
}
use recovery_sdx.Minzip.Hash.Probe.{probe-Ends}

pub pow_pos : (b : ℕ) → 0 < 2 ^ b
pow_pos zero = omega arith
pow_pos (suc b) = omega (arith, pow_pos b, pow_step 2 b)

pub start_lt : (h b : ℕ) → h % (2 ^ b) < 2 ^ b
start_lt h b = mod-lt h (pow_pos b)

module _ {A : Type 0} where
  unfoldable pub live_count : List (HashEntry A) → ℕ
  live_count [] = 0
  live_count (empty ∷ es) = live_count es
  live_count (tombstone ∷ es) = live_count es
  live_count (live h d ∷ es) = suc (live_count es)

  -- `countTombStones`
  unfoldable pub dead_count : List (HashEntry A) → ℕ
  dead_count [] = 0
  dead_count (empty ∷ es) = dead_count es
  dead_count (tombstone ∷ es) = suc (dead_count es)
  dead_count (live h d ∷ es) = dead_count es

  pub record IsValid (t : HashTable A) : Type 0 where
    pub size : length t.entries ≡ 2 ^ t.size_bits
    pub lives : live_count t.entries ≡ t.num_entries
    pub deads : dead_count t.entries ≡ t.num_dead_entries
    pub load : (t.num_entries + t.num_dead_entries) * 8 ≤ 2 ^ t.size_bits * 5

  pub has_empty :
      (es : List (HashEntry A))
      → live_count es + dead_count es < length es
      → (j : ℕ) × (j < length es) × (is_empty (get_or es j empty) ≡ true)
  unfolding live_count dead_count
  has_empty [] h = absurd (omega arith)
  has_empty (empty ∷ es) h = (0, omega arith, refl)
  has_empty (tombstone ∷ es) h =
      let (j, lt, e) = has_empty es (omega arith) in (suc j, omega arith, e)
  has_empty (live g d ∷ es) h =
      let (j, lt, e) = has_empty es (omega arith) in (suc j, omega arith, e)

  pub set-live :
      (es : List (HashEntry A)) (i h : ℕ) (d : A)
      → i < length es
      → is_empty (get_or es i empty) ≡ true
      → (live_count (set es i (live h d)) ≡ suc (live_count es))
        × (dead_count (set es i (live h d)) ≡ dead_count es)
  unfolding live_count dead_count
  set-live [] i h d lt e = absurd (omega arith)
  set-live (empty ∷ es) zero h d lt e = (refl, refl)
  set-live (tombstone ∷ es) zero h d lt e = absurd (ground arith)
  set-live (live g c ∷ es) zero h d lt e = absurd (ground arith)
  set-live (empty ∷ es) (suc i) h d lt e = set-live es i h d (omega arith) e
  set-live (tombstone ∷ es) (suc i) h d lt e =
      let (p, q) = set-live es i h d (omega arith) e in (p, ap suc q)
  set-live (live g c ∷ es) (suc i) h d lt e =
      let (p, q) = set-live es i h d (omega arith) e in (ap suc p, q)

  pub set-tombstone :
      (es : List (HashEntry A)) (i h : ℕ) (d : A)
      → i < length es
      → get_or es i empty ≡ live h d
      → (suc (live_count (set es i tombstone)) ≡ live_count es)
        × (dead_count (set es i tombstone) ≡ suc (dead_count es))
  unfolding live_count dead_count
  set-tombstone [] i h d lt e = absurd (omega arith)
  set-tombstone (empty ∷ es) zero h d lt e = ground (arith, ap is_empty e)
  set-tombstone (tombstone ∷ es) zero h d lt e = ground arith
  set-tombstone (live g c ∷ es) zero h d lt e = (refl, refl)
  set-tombstone (empty ∷ es) (suc i) h d lt e = set-tombstone es i h d (omega arith) e
  set-tombstone (tombstone ∷ es) (suc i) h d lt e =
      let (p, q) = set-tombstone es i h d (omega arith) e in (p, ap suc q)
  set-tombstone (live g c ∷ es) (suc i) h d lt e =
      let (p, q) = set-tombstone es i h d (omega arith) e in (ap suc p, q)

pub count-replicate :
    (A : Type 0) (n : ℕ)
    → (live_count (replicate {A = HashEntry A} n empty) ≡ 0)
      × (dead_count (replicate {A = HashEntry A} n empty) ≡ 0)
unfolding live_count dead_count
count-replicate A zero = (refl, refl)
count-replicate A (suc n) = count-replicate A n

module _ {A : Type 0} where
  -- There is room for all the live entries of the old table in the new one.
  insert_all-some :
      (b : ℕ) (es new : List (HashEntry A))
      → length new ≡ 2 ^ b
      → dead_count new ≡ 0
      → live_count es + live_count new < 2 ^ b
      → (new' : List (HashEntry A)) × (insert_all (2 ^ b) es new ≡ some new')
        × (length new' ≡ 2 ^ b)
        × (dead_count new' ≡ 0)
        × (live_count new' ≡ live_count es + live_count new)
  unfolding insert_all live_count
  insert_all-some b [] new size clean room = (new, refl, size, clean, omega arith)
  insert_all-some b (empty ∷ es) new size clean room = insert_all-some b es new size clean room
  insert_all-some b (tombstone ∷ es) new size clean room = insert_all-some b es new size clean room
  insert_all-some b (live h d ∷ es) new size clean room =
      let (j, j_lt, free) = has_empty new (omega arith) in
      let (r, stopped, r_lt, stop) =
        probe-Ends (λ e. false) (2 ^ b) new (h % (2 ^ b)) j (start_lt h b) (omega arith) free in
      let (lives, deads) = set-live new r h d (omega arith) (ground arith) in
      let (new', done, size', clean', count) =
        insert_all-some b es (set new r (live h d)) (length-set new r (live h d) ∙ size)
          (deads ∙ clean) (omega arith) in
      (new', rw stopped done, size', clean', omega arith)

  pub resize_hash-IsValid :
      (t : HashTable A) (b : ℕ)
      → live_count t.entries ≡ t.num_entries
      → t.num_entries < 2 ^ b
      → t.num_entries * 8 ≤ 2 ^ b * 5
      → (t' : HashTable A) × (resize_hash t b ≡ some t') × IsValid t'
  unfolding resize_hash
  resize_hash-IsValid t b lives room load =
      let (none_live, none_dead) = count-replicate A (2 ^ b) in
      let (new, done, size, clean, count) =
        insert_all-some b t.entries (replicate (2 ^ b) empty) (length-replicate (2 ^ b) empty)
          none_dead (omega arith) in
      (
        record t { size_bits = b; num_dead_entries = 0; entries = new },
        rw done refl,
        record { size = size; lives = omega arith; deads = clean; load = omega arith },
      )

  pub add_at-IsValid :
      (t : HashTable A) (h : ℕ) (item : A) (i : ℕ)
      → IsValid t
      → i < 2 ^ t.size_bits
      → is_empty (get_or t.entries i empty) ≡ true
      → (t' : HashTable A) × (add_at t h item i ≡ some t') × IsValid t'
  unfolding add_at resize_hash
  add_at-IsValid t h item i v lt free =
      let size = v.size in
      let load = v.load in
      let es = set t.entries i (live h item) in
      let (lives, deads) = set-live t.entries i h item (omega (arith, size)) free in
      let t₁ : HashTable A = record t { num_entries = t.num_entries + 1; entries = es } in
      let positive = pow_pos t.size_bits in
      let doubled : 2 ^ suc t.size_bits ≡ 2 * 2 ^ t.size_bits = pow_step 2 t.size_bits in
      elim (Bool-cases (ltb (2 ^ t.size_bits * 5) ((t.num_entries + 1 + t.num_dead_entries) * 8))) [
        | inl full ↦
            let (t', done, v') =
              resize_hash-IsValid t₁ (suc t.size_bits) (omega (arith, lives, v.lives))
                (omega (arith, doubled, positive)) (omega (arith, doubled, positive)) in
            (t', rw full done, v')
        | inr fine ↦ (
          t₁,
          rw fine refl,
          record {
            size = length-set t.entries i (live h item) ∙ size;
            lives = omega (arith, lives, v.lives);
            deads = deads ∙ v.deads;
            load = ground (arith, fine);
          },
        )
      ]
