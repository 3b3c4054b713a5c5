-- ===== src/Verifier/Lines.antt =====
-- The loops `for (line = strtok_r(buf, "\r\n", &save); ...)` of verifier.c, as the list of the
-- lines that they see.
use recovery_sdx.Base.{ℕ, Bool, true, false, ◌||◌, List, [], ◌∷◌, ◌++◌, Bytes, ◌==◌}

is_eol : ℕ → Bool
is_eol c = c == b'\r' || c == b'\n'

-- strtok_r skips empty pieces
emit : Bytes → List Bytes → List Bytes
emit [] rest = rest
emit (c ∷ cs) rest = (c ∷ cs) ∷ rest

lines_from : Bytes → Bytes → List Bytes
lines_from piece [] = emit piece []
lines_from piece (c ∷ cs) = elim (is_eol c) [
  | true ↦ emit piece (lines_from [] cs)
  | false ↦ lines_from (piece ++ c ∷ []) cs
]

unfoldable pub lines : Bytes → List Bytes
unfolding lines_from emit is_eol
lines = lines_from []
