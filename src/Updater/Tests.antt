-- ===== src/Updater/Tests.antt =====
-- The updater on a machine whose state is the number of paths that were removed.
use recovery_sdx.Base.{
  inl, inr, Option, subst, sym, Bool-cases, eq_of_some, Among, bytes_eq_iff, bytes_eq_refl,
  if◌then◌else◌, false,
}
use recovery_sdx.Base.Int.{ℤ, is_nonzero}
use recovery_sdx.Edify.Table.{
  NamedFunction, Library, no_functions, register_builtins, finish_registration, find_function,
}
use recovery_sdx.Edify.Table.Named.{IsLibrary}
use recovery_sdx.Updater.Registration.{register_install_functions}
use recovery_sdx.Updater.Volumes.{is_mounted_fn}
use recovery_sdx.Updater.Names.{find_function-install_call}
use recovery_sdx.Updater.Lookup.Lines.{plain}
use recovery_sdx.Edify.Strings.{is_space, skip_space}
use recovery_sdx.Base.{List, arith, until_nul, length}
use recovery_sdx.Edify.Arguments.{read_two, read_var_args}
use recovery_sdx.Updater.Machine.{asking, calling, sending}
use recovery_sdx.Updater.Registration.{install_call, install_functions}
use recovery_sdx.Edify.Functions.{abort_args, sequence, with_two}
use recovery_sdx.Base.{ℕ, ◌+◌, ◌≡◌, refl, true, none, some, [], ◌∷◌, ◌++◌, Bytes, codes, bytes_eq}
use recovery_sdx.Base.Int.{pos}
use recovery_sdx.Edify.Expr.{
  State, value, null, fault, ret, Arg, Expr, node, nil, cons, literal, registered, abort_fn,
  sequence_fn,
}
use recovery_sdx.Edify.Functions.{evaluate, apply}
use recovery_sdx.Edify.Safety.Expressions.{well_formed}
use recovery_sdx.Install.{read_lines, child_lines}
use recovery_sdx.Updater.Machine.{Machine, Info}
use recovery_sdx.Updater.Properties.{file_get_prop_fn}
use recovery_sdx.Updater.Files.{delete_fn}
use recovery_sdx.Updater.Images.{write_firmware_image_fn}
use recovery_sdx.Updater.Screen.{ui_print_fn, print_lines}
use recovery_sdx.Updater.Registration.{Package, call_registered, start, run_parsed, main}
use recovery_sdx.Updater.Safety.Script.{updater_accepts, EndsWell, run_parsed-EndsWell}
use recovery_sdx.Updater.Lookup.Lines.{writable, written, value_of}
use recovery_sdx.Updater.Lookup.{file_get_prop_fn-value_of}
use recovery_sdx.Updater.Protocol.{is_word, write_firmware_image_fn-read_line}

abbrev toy : Machine ℕ
toy = record {
  format_d = λ n. codes "7";
  format_f = λ s. s;
  strtoul = λ s. (7, []);
  strerror = λ w. [];
  mkdir = λ p w. w;
  mount = λ l p t w. (pos 0, w);
  scan_mounted_volumes = λ w. w;
  find_mounted_volume_by_mount_point = λ p w. none;
  unmount_mounted_volume = λ v w. (pos 0, w);
  mtd_scan_partitions = λ w. w;
  mtd_find_partition_by_name = λ n w. some 0;
  mtd_mount_partition = λ p mp w. (pos 0, w);
  mtd_write_partition = λ p w. (some 0, w);
  mtd_write_data = λ c b w. (pos 0, w);
  mtd_erase_blocks = λ c w. (pos 0, w);
  mtd_write_close = λ c w. (pos 0, w);
  unlink = λ p w. (pos 0, w + 1);
  dir_unlink_hierarchy = λ p w. (pos 0, w + 1);
  symlink = λ t s w. w;
  chown = λ p u g w. w;
  chmod = λ p m w. w;
  dir_set_hierarchy_permissions = λ p u g d f w. w;
  extract_recursive = λ z d w. (true, w);
  find_zip_entry = λ n w. some 0;
  fopen_write = λ p w. (true, w);
  extract_entry_to_file = λ e p w. (true, w);
  property_get = λ k w. codes "value";
  stat_size = λ p w. some 21;
  file_contents = λ p w. some (codes "# c" ++ (10 ∷ codes "a = b") ++ (10 ∷ codes " key = val "));
  chunks = λ p w. some [];
  applypatch = λ a w. (pos 0, w);
}

abbrev text : Bytes → Expr
text t = node literal t nil 0 0

-- `delete(x); abort(no)`
abbrev script_of : Expr
script_of =
    node sequence_fn (codes ";")
      (cons (node (registered 6) (codes "delete") (cons (text (codes "x")) nil) 0 0)
        (cons (node abort_fn (codes "abort") (cons (text (codes "no")) nil) 0 0) nil))
      0 0

abbrev toy_package : Package ℕ
toy_package = record {
  mz_open_zip_archive = λ p w. (true, w);
  script_entry = λ w. some 0;
  read_zip_entry = λ e w. some (codes "delete");
  parse = λ s. some script_of;
}

aborted_script :
    main toy toy_package (codes "updater" ∷ codes "2" ∷ codes "3" ∷ codes "package" ∷ []) 0
    ≡ some (
      7,
      record { pipe = codes "ui_print no" ++ (10 ∷ codes "ui_print") ++ (10 ∷ []); world = 1 },
    )
unfolding main evaluate apply call_registered delete_fn with_two sequence install_call calling
    abort_args bytes_eq install_functions
aborted_script = refl

run_parsed-EndsWell_example :
    EndsWell
      (run_parsed toy toy_package (codes "delete") 0 (some script_of))
      (evaluate (call_registered toy) script_of (start (codes "delete") 0))
unfolding well_formed updater_accepts install_functions
run_parsed-EndsWell_example = run_parsed-EndsWell toy toy_package (codes "delete") 0 script_of refl

abbrev argument : Bytes → Arg (Info ℕ)
argument t = record { run = ret t; start = 0; end_ = 0 }

abbrev begin : State (Info ℕ)
begin = record {
  script = [];
  errmsg = none;
  out = [];
  sleeps = [];
  cookie = record { pipe = []; world = 0 };
}

write_firmware_image_fn-read_line_example :
    (line : Bytes) × (write_firmware_image_fn toy
        (codes "write_firmware_image")
        (argument (codes "/tmp/r") ∷ argument (codes "radio") ∷ [])
        begin
      ≡ (value (codes "radio"), record begin { cookie = record { pipe = line; world = 0 } }))
    × (read_lines none (child_lines (length line) line)
        ≡ some (some (codes "radio", codes "/tmp/r")))
unfolding is_word recovery_sdx.Install.is_space
write_firmware_image_fn-read_line_example =
    write_firmware_image_fn-read_line toy (codes "write_firmware_image") (codes "radio")
      (codes "/tmp/r") (argument (codes "/tmp/r")) (argument (codes "radio")) begin begin begin refl
      refl refl refl (omega arith)

property_found :
    file_get_prop_fn toy
      (codes "file_getprop")
      (argument (codes "/f") ∷ argument (codes "key") ∷ [])
      begin
    ≡ (value (codes "val"), begin)
unfolding file_get_prop_fn read_two asking until_nul skip_space is_space bytes_eq
property_found = refl

-- A file with two properties.
abbrev properties : List (Bytes × Bytes)
properties = (codes "ro.device", codes "dream") ∷ (codes "ro.debug", codes "1") ∷ []

abbrev with_file : Machine ℕ
with_file = record toy {
  stat_size = λ p w. some 27;
  file_contents = λ p w. some (codes "ro.device=dream" ++ (10 ∷ codes "ro.debug=1") ++ (10 ∷ []));
}

file_get_prop_fn-value_of_example :
    file_get_prop_fn with_file
      (codes "file_getprop")
      (argument (codes "/f") ∷ argument (codes "ro.debug") ∷ [])
      begin
    ≡ (value (codes "1"), begin)
unfolding writable written value_of bytes_eq plain is_space
file_get_prop_fn-value_of_example =
    file_get_prop_fn-value_of with_file (codes "file_getprop") (codes "/f") (codes "ro.debug")
      (codes "ro.device") (codes "dream") ((codes "ro.debug", codes "1") ∷ [])
      (argument (codes "/f")) (argument (codes "ro.debug")) begin begin begin refl refl refl refl
      refl (omega arith)

-- The text that is given back is cut at its first line break.
printed :
    ui_print_fn toy (codes "ui_print") (argument (codes "a" ++ (10 ∷ codes "b")) ∷ []) begin ≡ (
      value (codes "a"),
      record begin {
        cookie = record { pipe = print_lines (codes "a" ∷ codes "b" ∷ []); world = 0 };
      },
    )
unfolding ui_print_fn read_var_args sending
printed = refl

-- The argument behind a path that was read is NULL.
second_null :
    (delete_fn toy
      (codes "delete")
      (argument (codes "x") ∷ record { run = λ s. (null, s); start = 0; end_ = 0 } ∷ [])
      begin).0
    ≡ fault
unfolding delete_fn
second_null = refl

-- `strcmp` that says only whether two texts are equal, with which a table need not be sorted.
abbrev same_text : Bytes → Bytes → ℤ
same_text a b = if bytes_eq a b then pos 0 else pos 1

first_equal : (NamedFunction → ℤ) → List NamedFunction → Option NamedFunction
first_equal c [] = none
first_equal c (e ∷ es) = let rest = first_equal c es in if is_nonzero (c e) then rest else some e

abbrev toy_library : Library
toy_library = record { strcmp = same_text; qsort = λ c es. es; bsearch = first_equal }

first_equal_finds :
    (c : NamedFunction → ℤ) (es : List NamedFunction) (e : NamedFunction)
    → first_equal c es ≡ some e
    → Among e es × (is_nonzero (c e) ≡ false)
unfolding first_equal
first_equal_finds c [] e h = ground (arith, h)
first_equal_finds c (x ∷ es) e h = elim (Bool-cases (is_nonzero (c x))) [
  | inl t ↦ let (among, zero_here) = first_equal_finds c es e (rw t at h) in (inr among, zero_here)
  | inr f ↦
      let same = eq_of_some (rw f at h) in
      (inl (sym same), subst (λ y. is_nonzero (c y) ≡ false) same f)
]

first_equal_misses :
    (c : NamedFunction → ℤ) (es : List NamedFunction) (e : NamedFunction)
    → first_equal c es ≡ none
    → Among e es
    → is_nonzero (c e) ≡ true
unfolding first_equal
first_equal_misses c [] e h a = absurd a
first_equal_misses c (x ∷ es) e h (inl same) = elim (Bool-cases (is_nonzero (c x))) [
  | inl t ↦ subst (λ y. is_nonzero (c y) ≡ true) (sym same) t
  | inr f ↦ absurd (ground (arith, rw f at h))
]
first_equal_misses c (x ∷ es) e h (inr a) = elim (Bool-cases (is_nonzero (c x))) [
  | inl t ↦ first_equal_misses c es e (rw t at h) a
  | inr f ↦ absurd (ground (arith, rw f at h))
]

toy_library-IsLibrary : IsLibrary toy_library
unfolding first_equal
toy_library-IsLibrary = record {
  strcmp_eq = λ a b h. (bytes_eq_iff a b).0 (ground (arith, h));
  strcmp_refl = λ a. rw (bytes_eq_refl a) refl;
  bsearch_finds = λ name es e h. first_equal_finds (λ x. same_text name x.name) es e h;
  bsearch_misses = λ name es e h a. first_equal_misses (λ x. same_text name x.name) es e h a;
}

find_function-install_call_example :
    (i : ℕ) × (find_function toy_library (codes "is_mounted") (
        finish_registration toy_library
          (register_install_functions (register_builtins no_functions)))
      ≡ some (registered i))
    × (call_registered toy i ≡ is_mounted_fn toy)
find_function-install_call_example =
    find_function-install_call toy_library toy_library-IsLibrary toy (codes "is_mounted")
      (is_mounted_fn toy) (inr (inl refl))
