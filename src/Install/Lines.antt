-- ===== src/Install/Lines.antt =====
-- The lines in which the output of the update binary is read.
use recovery_sdx.Base.{◌≤◌, ◌<◌, ◌≡◌, false, List, [], ◌∷◌, ◌++◌, Bytes, ◌==◌, length}

-- The lines one after the other.
abbrev pub concat : List Bytes → Bytes
concat [] = []
concat (l ∷ ls) = l ++ concat ls

-- A line break stands at the end of the line only.
abbrev pub BreaksAtEnd : Bytes → Type 0
BreaksAtEnd [] = Unit
BreaksAtEnd (c ∷ []) = Unit
BreaksAtEnd (c ∷ d ∷ s) = ((c == 10) ≡ false) × BreaksAtEnd (d ∷ s)

-- No line is empty, and each fits the buffer.
abbrev pub AllFit : List Bytes → Type 0
AllFit [] = Unit
AllFit (l ∷ ls) = ((0 < length l) × (length l ≤ 80) × BreaksAtEnd l) × AllFit ls
