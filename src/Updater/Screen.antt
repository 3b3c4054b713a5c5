-- ===== src/Updater/Screen.antt =====
-- `ShowProgressFn`, `SetProgressFn` and `UIPrintFn` of updater/install.c: what is sent to recovery.
use recovery_sdx.Base.{List, [], ◌∷◌, ◌++◌, Bytes, ◌==◌, if◌then◌else◌, codes, length}
use recovery_sdx.Edify.Strings.{strtol}
use recovery_sdx.Edify.Expr.{M, ret, Arg}
use recovery_sdx.Edify.Arguments.{read_one, read_two, read_var_args}
use recovery_sdx.Updater.Machine.{Machine, Info, sending}
use recovery_sdx.Updater.Volumes.{expects}

-- The pieces that `strtok` gives for "\n": the lines that are not blank. `line` is what was read of
-- the current one.
unfoldable pub piece : Bytes → List Bytes → List Bytes
piece [] rest = rest
piece (c ∷ line) rest = (c ∷ line) ∷ rest

unfoldable pub pieces_from : Bytes → Bytes → List Bytes
unfolding piece
pieces_from line [] = piece line []
pieces_from line (c ∷ s) =
    let ended = piece line (pieces_from [] s) in
    let longer = pieces_from (line ++ (c ∷ [])) s in if c == 10 then ended else longer

unfoldable pub lines_of : Bytes → List Bytes
unfolding pieces_from
lines_of = pieces_from []

-- What is left of the text behind `strtok`: the first piece, with the line breaks in front of it.
unfoldable pub cut_behind : Bytes → Bytes
cut_behind [] = []
cut_behind (c ∷ s) = if c == 10 then [] else c ∷ cut_behind s

unfoldable pub cut : Bytes → Bytes
unfolding cut_behind
cut [] = []
cut (c ∷ s) = if c == 10 then c ∷ cut s else c ∷ cut_behind s

unfoldable pub print_lines : List Bytes → Bytes
print_lines [] = codes "ui_print" ++ (10 ∷ [])
print_lines (l ∷ ls) = codes "ui_print " ++ l ++ (10 ∷ []) ++ print_lines ls

unfoldable pub joined : List Bytes → Bytes
joined [] = []
joined (a ∷ as_) = a ++ joined as_

module _ {W : Type 0} (m : Machine W) where
  unfoldable pub show_progress_fn : Bytes → List (Arg (Info W)) → M (Info W)
  unfolding expects
  show_progress_fn name args =
      if length args == 2
      then read_two args (λ frac_str sec_str.
        sending
          (codes "progress "
            ++ m.format_f frac_str
            ++ codes " "
            ++ m.format_d (strtol sec_str).0
            ++ (10 ∷ []))
          (ret frac_str))
      else expects m name (codes "2 args") (length args)

  unfoldable pub set_progress_fn : Bytes → List (Arg (Info W)) → M (Info W)
  unfolding expects
  set_progress_fn name args =
      if length args == 1
      then read_one args (λ frac_str.
        sending (codes "set_progress " ++ m.format_f frac_str ++ (10 ∷ [])) (ret frac_str))
      else expects m name (codes "1 arg") (length args)

  unfoldable pub ui_print_fn : Bytes → List (Arg (Info W)) → M (Info W)
  unfolding lines_of print_lines joined cut
  ui_print_fn name args = read_var_args args (λ read.
      let buffer = joined read in sending (print_lines (lines_of buffer)) (ret (cut buffer)))
