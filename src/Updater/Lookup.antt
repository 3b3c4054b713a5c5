-- ===== src/Updater/Lookup.antt =====
-- What `file_getprop` finds in a file of properties.
pub mod Lines
use mathlib.Core.List.{append_assoc, append-nil}
use recovery_sdx.Base.{
  ℕ, ◌≡◌, refl, sym, ap, ◌∙◌, subst, inl, inr, Bool, true, false, not, ◌&&◌, ◌||◌, Option, none,
  some, List, [], ◌∷◌, ◌++◌, Bytes, ltb, leb, ◌==◌, if◌then◌else◌, codes, bytes_eq, length, take,
  until_nul, arith, Bool-cases, &&-eq-true, take_all, ==_iff, ◌≤◌, ◌<◌,
}
use recovery_sdx.Edify.Strings.{is_space, skip_space}
use recovery_sdx.Edify.Expr.{State, value, M, Arg}
use recovery_sdx.Edify.Arguments.{read_one, read_two}
use recovery_sdx.Updater.Machine.{Machine, Info, asking}
use recovery_sdx.Updater.Screen.{piece, pieces_from, lines_of}
use recovery_sdx.Updater.Properties.{
  trimmed, trim_end, with_first, at_equal, Meaning, skipped, malformed, property, property_line,
  started_line, line_of, max_file_getprop_size, said, find_property, find_from, read_properties,
  sized, file_get_prop_fn,
}
use recovery_sdx.Updater.Lookup.Lines.{
  writable, written, value_of, line_list, line_of-written_line, lines_of-written, lacks-written,
  until_nul-lacks, parts,
}

parts_blank : (v : Bytes) (ps : List (Bytes × Bytes)) → writable (([], v) ∷ ps) ≡ true → ⊥
unfolding writable
parts_blank v ps h = ground (arith, h)

not_above : (n : ℕ) → n ≤ max_file_getprop_size → ltb max_file_getprop_size n ≡ false
not_above n h = ground (arith, h)

module _ {W : Type 0} (m : Machine W) where
  find_property-value_of :
      (name filename key : Bytes) (ps : List (Bytes × Bytes)) (s : State (Info W))
      → writable ps ≡ true
      → find_property m name filename key (line_list ps) s ≡ (value (value_of key ps), s)
  unfolding find_property line_list value_of said
  find_property-value_of name filename key [] s h = refl
  find_property-value_of name filename key (([], v) ∷ ps) s h = absurd (parts_blank v ps h)
  find_property-value_of name filename key ((c ∷ k, v) ∷ ps) s h =
      let (hk, hv, hs) = parts (c ∷ k) v ps h in
      elim (Bool-cases (bytes_eq key (c ∷ k))) [
        | inl t ↦ rw (line_of-written_line c k v hk hv, t) refl
        | inr n ↦
            rw (line_of-written_line c k v hk hv, n)
              (find_property-value_of name filename key ps s hs)
      ]

  read_properties-written :
      (name filename key k v : Bytes) (ps : List (Bytes × Bytes)) (s : State (Info W))
      → writable ((k, v) ∷ ps) ≡ true
      → read_properties m name filename key
          (length (written ((k, v) ∷ ps)))
          (some (written ((k, v) ∷ ps)))
          s
        ≡ (value (value_of key ((k, v) ∷ ps)), s)
  unfolding read_properties find_from line_list
  read_properties-written name filename key k v ps s h =
      let text = written ((k, v) ∷ ps) in
      rw
        (
          take_all (length text) text refl,
          (==_iff (length text) (length text)).1 refl,
          until_nul-lacks text (lacks-written ((k, v) ∷ ps) h),
          lines_of-written ((k, v) ∷ ps) h,
        )
        (find_property-value_of name filename key ((k, v) ∷ ps) s h)

  sized-written :
      (name filename key k v : Bytes) (ps : List (Bytes × Bytes)) (s : State (Info W))
      → writable ((k, v) ∷ ps) ≡ true
      → m.file_contents filename s.cookie.world ≡ some (written ((k, v) ∷ ps))
      → ltb max_file_getprop_size (length (written ((k, v) ∷ ps))) ≡ false
      → sized m name filename key (some (length (written ((k, v) ∷ ps)))) s
        ≡ (value (value_of key ((k, v) ∷ ps)), s)
  unfolding sized asking
  sized-written name filename key k v ps s h contents fits =
      rw (fits, contents) (read_properties-written name filename key k v ps s h)

  -- In a file of at least one property, each on a line `key=value` of plain bytes, with no more
  -- than 65536 bytes, `file_getprop` finds the value of the first property with the key, or the
  -- empty text if there is none.
  pub file_get_prop_fn-value_of :
      (name filename key k v : Bytes) (ps : List (Bytes × Bytes)) (a b : Arg (Info W))
      (s s₁ s₂ : State (Info W))
      → a.run s ≡ (value filename, s₁)
      → b.run s₁ ≡ (value key, s₂)
      → writable ((k, v) ∷ ps) ≡ true
      → m.stat_size filename s₂.cookie.world ≡ some (length (written ((k, v) ∷ ps)))
      → m.file_contents filename s₂.cookie.world ≡ some (written ((k, v) ∷ ps))
      → length (written ((k, v) ∷ ps)) ≤ max_file_getprop_size
      → file_get_prop_fn m name (a ∷ b ∷ []) s ≡ (value (value_of key ((k, v) ∷ ps)), s₂)
  unfolding file_get_prop_fn read_two read_one asking
  file_get_prop_fn-value_of name filename key k v ps a b s s₁ s₂ e d h size contents fits =
      rw (e, d, size)
        (sized-written name filename key k v ps s₂ h contents
          (not_above (length (written ((k, v) ∷ ps))) fits))
