-- ===== src/Mtd/Table/Names.antt =====
-- A partition that is found has the name that was asked for, and its number is its place.
use recovery_sdx.Base.{
  ℕ, zero, suc, ◌+◌, ◌≡◌, refl, sym, ap, ◌∙◌, subst, inl, inr, ◌⊎◌, true, ◌&&◌, not, Option, none,
  some, List, [], ◌∷◌, Bytes, ltb, length, set, get_elem?, replicate, bytes_eq_iff, until_nul, take,
  arith, Bool-cases, eq_of_some, >>=-eq-some, &&-eq-true,
}
use recovery_sdx.Base.Int.{ℤ, pos, negsuc, minus_one, is_negative}
use recovery_sdx.Mtd.{MtdPartition}
use recovery_sdx.Mtd.Table.{
  MtdState, Line, clear_all, cleared, store, eat_line, scanned, scan_lines, mtd_scan_partitions,
  has_name, is_named, find_named, mtd_find_partition_by_name, blank, nump,
}

-- Each entry from the number `i` on is unused, or stands at its number.
abbrev pub InPlace : ℕ → List MtdPartition → Type 0
InPlace i [] = Unit
InPlace i (p ∷ ps) = ((p.device_index ≡ minus_one) ⊎ (p.device_index ≡ pos i)) × InPlace (suc i) ps

clear_all-InPlace : (i : ℕ) (ps : List MtdPartition) → InPlace i (clear_all ps)
unfolding clear_all
clear_all-InPlace i [] = tt
clear_all-InPlace i (p ∷ ps) = (inl refl, clear_all-InPlace (suc i) ps)

set-InPlace :
    (i n : ℕ) (ps : List MtdPartition) (p : MtdPartition)
    → p.device_index ≡ pos (i + n)
    → InPlace i ps
    → InPlace i (set ps n p)
set-InPlace i n [] p e h = tt
set-InPlace i zero (q ∷ ps) p e h = (inr (e ∙ ap pos (omega arith)), h.1)
set-InPlace i (suc n) (q ∷ ps) p e h =
    (h.0, set-InPlace (suc i) n ps p (e ∙ ap pos (omega arith)) h.1)

store-InPlace :
    (l : Line) (n : ℤ) (ps ps' : List MtdPartition)
    → store l n ps ≡ some ps'
    → InPlace 0 ps
    → InPlace 0 ps'
unfolding store
store-InPlace l (negsuc n) ps ps' e h = ground arith
store-InPlace l (pos n) ps ps' e h = elim (Bool-cases (ltb n (length ps))) [
  | inl t ↦
      subst (λ x. InPlace 0 x) (eq_of_some (rw t at e))
        (set-InPlace 0 n ps _ (ap pos (omega arith)) h)
  | inr t ↦ absurd (ground (arith, rw t at e))
]

module _ (scan_line : Bytes → Option Line) where
  scanned-InPlace :
      (o : Option Line) (ps : List MtdPartition) (count : ℕ) (r : List MtdPartition × ℕ)
      → scanned scan_line o ps count ≡ some r
      → InPlace 0 ps
      → InPlace 0 r.0
  unfolding scanned
  scanned-InPlace none ps count r e h = subst (λ x. InPlace 0 x.0) (eq_of_some e) h
  scanned-InPlace (some l) ps count r e h =
      let (ps', stored, same) = >>=-eq-some (store l l.mtdnum ps) _ e in
      subst (λ x. InPlace 0 x.0) (eq_of_some same) (store-InPlace l l.mtdnum ps ps' stored h)

  scan_lines-InPlace :
      (fuel : ℕ) (s : Bytes) (ps : List MtdPartition) (count : ℕ) (r : List MtdPartition × ℕ)
      → scan_lines scan_line fuel s ps count ≡ some r
      → InPlace 0 ps
      → InPlace 0 r.0
  unfolding scan_lines
  scan_lines-InPlace fuel [] ps count r e h = subst (λ x. InPlace 0 x.0) (eq_of_some e) h
  scan_lines-InPlace zero (c ∷ s) ps count r e h = subst (λ x. InPlace 0 x.0) (eq_of_some e) h
  scan_lines-InPlace (suc fuel) (c ∷ s) ps count r e h =
      let (r', first, rest) =
        >>=-eq-some (scanned scan_line (scan_line (until_nul (c ∷ s))) ps count) _ e in
      scan_lines-InPlace fuel (eat_line (c ∷ s)) r'.0 r'.1 r rest
        (scanned-InPlace (scan_line (until_nul (c ∷ s))) ps count r' first h)

  cleared-InPlace : (o : Option (List MtdPartition)) → InPlace 0 (cleared o)
  unfolding cleared
  cleared-InPlace none = clear_all-InPlace 0 (replicate nump blank)
  cleared-InPlace (some ps) = clear_all-InPlace 0 ps

  -- Behind a scan that stays in bounds there is a table, in which each entry stands at its number.
  scan-InPlace :
      (text : Option Bytes) (s s' : MtdState) (ret : ℤ)
      → mtd_scan_partitions scan_line text s ≡ some (ret, s')
      → (ps : List MtdPartition) × (s'.partitions ≡ some ps) × InPlace 0 ps
  unfolding mtd_scan_partitions
  scan-InPlace none s s' ret e = (
    cleared s.partitions,
    sym (ap (λ x. x.1.partitions) (eq_of_some e)),
    cleared-InPlace s.partitions,
  )
  scan-InPlace (some text) s s' ret e =
      let buf = take 2047 text in
      let (r, lines, same) =
        >>=-eq-some (scan_lines scan_line (length buf) buf (cleared s.partitions) 0) _ e in
      (
        r.0,
        sym (ap (λ x. x.1.partitions) (eq_of_some same)),
        scan_lines-InPlace (length buf) buf (cleared s.partitions) 0 r lines
            (cleared-InPlace s.partitions),
      )

has_name-true : (name : Bytes) (o : Option Bytes) → has_name name o ≡ true → o ≡ some name
unfolding has_name
has_name-true name none h = ground arith
has_name-true name (some n) h = ap some ((bytes_eq_iff n name).0 h)

numbered : (n : ℤ) (i : ℕ) → (n ≡ minus_one) ⊎ (n ≡ pos i) → not (is_negative n) ≡ true → n ≡ pos i
numbered n i (inl e) h = absurd (ground (arith, rw e at h))
numbered n i (inr e) h = e

find_named-InPlace :
    (name : Bytes) (i : ℕ) (ps : List MtdPartition) (p : MtdPartition)
    → InPlace i ps
    → find_named name ps ≡ some p
    → (p.name ≡ some name) × ((k : ℕ) × (p.device_index ≡ pos (i + k)) × (get_elem? ps k ≡ some p))
unfolding find_named is_named
find_named-InPlace name i [] p h e = ground arith
find_named-InPlace name i (q ∷ ps) p h e =
    elim (Bool-cases (not (is_negative q.device_index) && has_name name q.name)) [
      | inl t ↦
          let both = &&-eq-true _ _ t in
          let same = eq_of_some (rw t at e) in
          subst
            (λ x.
              (x.name ≡ some name)
              × ((k : ℕ) × (x.device_index ≡ pos (i + k)) × (get_elem? (q ∷ ps) k ≡ some x)))
            same
            (
              has_name-true name q.name both.1,
              (0, numbered q.device_index i h.0 both.0 ∙ ap pos (omega arith), refl),
            )
      | inr t ↦
          let (named, found) = find_named-InPlace name (suc i) ps p h.1 (rw t at e) in
          (named, (suc found.0, found.1 ∙ ap pos (omega arith), found.2))
    ]

-- A partition that is found behind a scan which stays in bounds has the name that was asked for, and
-- is the entry of the table at its own number.
pub mtd_find_partition_by_name-scan :
    (scan_line : Bytes → Option Line) (text : Option Bytes) (s s' : MtdState) (ret : ℤ)
    (name : Bytes) (p : MtdPartition)
    → mtd_scan_partitions scan_line text s ≡ some (ret, s')
    → mtd_find_partition_by_name name s' ≡ some p
    → (ps : List MtdPartition) × (s'.partitions ≡ some ps)
      × (p.name ≡ some name)
      × ((k : ℕ) × (p.device_index ≡ pos k) × (get_elem? ps k ≡ some p))
unfolding mtd_find_partition_by_name
mtd_find_partition_by_name-scan scan_line text s s' ret name p e f =
    let (ps, table, places) = scan-InPlace scan_line text s s' ret e in
    let (named, found) = find_named-InPlace name 0 ps p places (rw table at f) in
    (ps, table, named, (found.0, found.1 ∙ ap pos (omega arith), found.2))
