-- ===== src/Minzip/Hash/Probe.antt =====
-- A probe ends where the table has an empty entry.
use recovery_sdx.Base.{
  ℕ, zero, suc, ◌+◌, ◌≤◌, ◌<◌, ◌≡◌, refl, Bool, true, false, ◌||◌, Option, some, List, ==_iff, ◌==◌,
  ltb, ltb→lt, ◌≢◌, get_or, arith, Bool-cases, inl, inr,
}
use recovery_sdx.Minzip.Hash.{HashEntry, empty, is_empty, next, probe}

module _ {A : Type 0} (found : HashEntry A → Bool) (n : ℕ) (es : List (HashEntry A)) where
  abbrev stops : ℕ → Bool
  stops i = is_empty (get_or es i empty) || found (get_or es i empty)

  abbrev pub Ends : Option ℕ → Type 0
  Ends o = (r : ℕ) × (o ≡ some r) × (r < n) × (stops r ≡ true)

  still_going : (i j : ℕ) → is_empty (get_or es j empty) ≡ true → stops i ≡ false → i ≢ j
  still_going i j e s same =
      let t : is_empty (get_or es i empty) ≡ true = rw same e in ground (arith, t, s)

  next-below : (i : ℕ) → suc i < n → next n i ≡ suc i
  next-below i lt = ground arith

  next-last : (i : ℕ) → suc i ≡ n → next n i ≡ 0
  next-last i e = ground arith

  -- The empty entry is ahead.
  ahead :
      (fuel i j : ℕ)
      → i ≤ j
      → j < n
      → j < fuel + i
      → is_empty (get_or es j empty) ≡ true
      → Ends (probe found n es fuel i)
  unfolding probe
  ahead zero i j le lt room e = absurd (omega arith)
  ahead (suc fuel) i j le lt room e = elim (Bool-cases (stops i)) [
    | inl s ↦ rw s (i, refl, omega arith, s)
    | inr s ↦
        let ne = still_going i j e s in
        let below : suc i < n = omega (arith, ne) in
        rw (s, next-below i below) (ahead fuel (suc i) j (omega (arith, ne)) lt (omega arith) e)
  ]

  -- The empty entry is behind, and the probe wraps around.
  behind :
      (fuel i j : ℕ)
      → j < i
      → i < n
      → n + j < fuel + i
      → is_empty (get_or es j empty) ≡ true
      → Ends (probe found n es fuel i)
  unfolding probe
  behind zero i j le lt room e = absurd (omega arith)
  behind (suc fuel) i j le lt room e = elim (Bool-cases (stops i)) [
    | inl s ↦ rw s (i, refl, lt, s)
    | inr s ↦ elim (Bool-cases (suc i == n)) [
      | inl last ↦
          rw (s, next-last i ((==_iff (suc i) n).0 last))
            (ahead fuel 0 j (omega arith) (omega arith) (ground arith) e)
      | inr more ↦
          let below : suc i < n = ground arith in
          rw (s, next-below i below) (behind fuel (suc i) j (omega arith) below (omega arith) e)
    ]
  ]

  -- Once around the table is enough.
  pub probe-Ends :
      (i j : ℕ) → i < n → j < n → is_empty (get_or es j empty) ≡ true → Ends (probe found n es n i)
  probe-Ends i j hi hj e = elim (Bool-cases (ltb j i)) [
    | inl h ↦ behind n i j (ltb→lt j i h) hi (ground arith) e
    | inr h ↦ ahead n i j (ground arith) hj (omega arith) e
  ]
