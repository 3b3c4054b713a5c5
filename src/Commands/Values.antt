-- ===== src/Commands/Values.antt =====
-- What `matches` answers.
use recovery_sdx.Base.{
  ◌≡◌, refl, inl, inr, ◌⊎◌, Bool-cases, List, [], ◌∷◌, Bytes, bytes_eq, bytes_eq_iff, Among, arith,
  ap,
}
use recovery_sdx.Commands.{matches, match_any, value}

match_any-cases :
    (s : Bytes) (ts : List Bytes)
    → (Among s ts × (match_any s ts ≡ s)) ⊎ ((¬ Among s ts) × (match_any s ts ≡ []))
unfolding match_any
match_any-cases s [] = inr ((λ h. elim h [ ]), refl)
match_any-cases s (t ∷ ts) = elim (Bool-cases (bytes_eq s t)) [
  | inl e ↦ inl (inl ((bytes_eq_iff s t).0 e), rw e refl)
  | inr e ↦ elim (match_any-cases s ts) [
    | inl found ↦ inl (inr found.0, rw e found.1)
    | inr missing ↦ inr (
      (λ h. elim h [
        | inl same ↦ absurd (ground (arith, (bytes_eq_iff s t).1 same))
        | inr there ↦ missing.0 there
      ]),
      rw e missing.1,
    )
  ]
]

-- With a text and at least one more, `matches` gives the text if it is among the others, and the empty
-- text if it is not.
pub matches-cases :
    (s t : Bytes) (ts : List Bytes)
    → (Among s (t ∷ ts) × (matches (s ∷ t ∷ ts) ≡ value s))
      ⊎ ((¬ Among s (t ∷ ts)) × (matches (s ∷ t ∷ ts) ≡ value []))
unfolding matches
matches-cases s t ts = elim (match_any-cases s (t ∷ ts)) [
  | inl found ↦ inl (found.0, ap value found.1)
  | inr missing ↦ inr (missing.0, ap value missing.1)
]
