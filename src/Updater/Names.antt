-- ===== src/Updater/Names.antt =====
-- The names under which edify finds the functions of the updater.
use recovery_sdx.Base.{
  ℕ, suc, ◌+◌, ◌≡◌, refl, sym, ap, ◌∙◌, subst, inl, inr, true, some, List, [], ◌∷◌, ◌++◌, Bytes,
  codes, bytes_eq, get_elem?, arith, Among, Among-append_right,
}
use recovery_sdx.Edify.Expr.{Function, registered}
use recovery_sdx.Edify.Table.{
  NamedFunction, FunctionTable, Library, no_functions, register_function, register_each, builtins,
  register_builtins, finish_registration, find_function,
}
use recovery_sdx.Edify.Table.Named.{
  IsLibrary, distinct, entries_of, function_of-found, find_function-registered,
}
use recovery_sdx.Edify.Expr.{M, Arg}
use recovery_sdx.Updater.Machine.{Machine, Info}
use recovery_sdx.Updater.Volumes.{mount_fn, is_mounted_fn, unmount_fn, format_fn}
use recovery_sdx.Updater.Files.{
  delete_fn, package_extract_dir_fn, package_extract_file_fn, symlink_fn, set_perm_fn,
}
use recovery_sdx.Updater.Properties.{get_prop_fn, file_get_prop_fn}
use recovery_sdx.Updater.Images.{write_raw_image_fn, write_firmware_image_fn, apply_patch_fn}
use recovery_sdx.Updater.Screen.{show_progress_fn, set_progress_fn, ui_print_fn}
use recovery_sdx.Updater.Registration.{
  InstallFunction, install_functions, install_call, named, call_registered, numbered,
  register_install_functions,
}

register_each-append :
    (fs gs : List (Bytes × Function)) (t : FunctionTable)
    → register_each (fs ++ gs) t ≡ register_each gs (register_each fs t)
unfolding register_each
register_each-append [] gs t = refl
register_each-append ((k, f) ∷ fs) gs t = register_each-append fs gs (register_function k f t)

entries_of-append :
    (fs gs : List (Bytes × Function)) → entries_of (fs ++ gs) ≡ entries_of fs ++ entries_of gs
unfolding entries_of
entries_of-append [] gs = refl
entries_of-append ((k, f) ∷ fs) gs =
    ap (◌∷◌ (record { name = k; function = f })) (entries_of-append fs gs)

abbrev entry : Bytes → ℕ → NamedFunction
entry k j = record { name = k; function = registered j }

-- The number of a function, and its entry in the table.
numbered-Among :
    (name : Bytes) (f : InstallFunction) (n : ℕ) (fs : List (Bytes × InstallFunction))
    → Among (name, f) fs
    → (i : ℕ) × (get_elem? fs i ≡ some (name, f))
      × Among (entry name (n + i)) (entries_of (numbered n fs))
unfolding numbered entries_of
numbered-Among name f n [] h = absurd h
numbered-Among name f n ((k, g) ∷ fs) (inl same) =
    (0, ap some (sym same), inl (ap (λ x. entry x.0 (n + 0)) same ∙ ap (entry k) (omega arith)))
numbered-Among name f n ((k, g) ∷ fs) (inr h) =
    let (i, there, among) = numbered-Among name f (n + 1) fs h in
    (
      suc i,
      there,
      inr (
          subst (λ j. Among (entry name j) (entries_of (numbered (n + 1) fs))) (omega arith) among),
    )

all_functions : List (Bytes × Function)
unfolding numbered install_functions builtins
all_functions = builtins ++ numbered 0 install_functions

all_distinct : distinct all_functions ≡ true
unfolding all_functions distinct bytes_eq
all_distinct = refl

module _ {W : Type 0} (lib : Library) (is : IsLibrary lib) (m : Machine W) where
  call_registered-install_call :
      (name : Bytes) (f : InstallFunction) (i : ℕ)
      → get_elem? install_functions i ≡ some (name, f)
      → call_registered m i ≡ install_call m f
  unfolding call_registered named
  call_registered-install_call name f i e = ap (named m) e

  -- The names of the scripts, and what each one stands for.
  abbrev pub published : List (Bytes × (Bytes → List (Arg (Info W)) → M (Info W)))
  published =
      (codes "mount", mount_fn m)
      ∷ (codes "is_mounted", is_mounted_fn m)
      ∷ (codes "unmount", unmount_fn m)
      ∷ (codes "format", format_fn m)
      ∷ (codes "show_progress", show_progress_fn m)
      ∷ (codes "set_progress", set_progress_fn m)
      ∷ (codes "delete", delete_fn m)
      ∷ (codes "delete_recursive", delete_fn m)
      ∷ (codes "package_extract_dir", package_extract_dir_fn m)
      ∷ (codes "package_extract_file", package_extract_file_fn m)
      ∷ (codes "symlink", symlink_fn m)
      ∷ (codes "set_perm", set_perm_fn m)
      ∷ (codes "set_perm_recursive", set_perm_fn m)
      ∷ (codes "getprop", get_prop_fn m)
      ∷ (codes "file_getprop", file_get_prop_fn m)
      ∷ (codes "write_raw_image", write_raw_image_fn m)
      ∷ (codes "write_firmware_image", write_firmware_image_fn m)
      ∷ (codes "apply_patch", apply_patch_fn m)
      ∷ (codes "apply_patch_check", apply_patch_fn m)
      ∷ (codes "apply_patch_space", apply_patch_fn m)
      ∷ (codes "ui_print", ui_print_fn m)
      ∷ []

  called_pairs :
      List (Bytes × InstallFunction) → List (Bytes × (Bytes → List (Arg (Info W)) → M (Info W)))
  called_pairs [] = []
  called_pairs ((k, g) ∷ fs) = (k, install_call m g) ∷ called_pairs fs

  called_pairs-Among :
      (name : Bytes) (f : Bytes → List (Arg (Info W)) → M (Info W))
      (fs : List (Bytes × InstallFunction))
      → Among (name, f) (called_pairs fs)
      → (g : InstallFunction) × Among (name, g) fs × (install_call m g ≡ f)
  unfolding called_pairs
  called_pairs-Among name f [] h = absurd h
  called_pairs-Among name f ((k, g) ∷ fs) (inl e) =
      (g, inl (ap (λ x. (x.0, g)) e), sym (ap (λ x. x.1) e))
  called_pairs-Among name f ((k, g) ∷ fs) (inr h) =
      let (g', among, same) = called_pairs-Among name f fs h in (g', inr among, same)

  published-eq : published ≡ called_pairs install_functions
  unfolding called_pairs install_functions install_call
  published-eq = refl

  found_call :
      (name : Bytes) (f : InstallFunction)
      → Among (name, f) install_functions
      → (i : ℕ) × (find_function lib name
            (finish_registration lib (register_install_functions (register_builtins no_functions)))
          ≡ some (registered i))
        × (call_registered m i ≡ install_call m f)
  unfolding register_install_functions register_builtins all_functions
  found_call name f h =
      let (i, there, among) = numbered-Among name f 0 install_functions h in
      let same : i ≡ 0 + i = omega arith in
      let in_table =
        subst (λ es. Among (entry name (0 + i)) es)
          (sym (entries_of-append builtins (numbered 0 install_functions)))
          (Among-append_right _ (entries_of builtins) _ among) in
      let found = function_of-found name _ all_functions all_distinct in_table refl in
      (
        0 + i,
        ap (λ t. find_function lib name (finish_registration lib t))
              (sym (register_each-append builtins (numbered 0 install_functions) no_functions))
            ∙ find_function-registered lib is all_functions name all_distinct
            ∙ found,
        call_registered-install_call name f (0 + i)
            (subst (λ j. get_elem? install_functions j ≡ some (name, f)) same there),
      )

  -- Behind the registrations of `main`, each function of updater/install.c is found by the name, or
  -- each of the names, that it has in scripts, and what edify then calls is this function.
  pub find_function-install_call :
      (name : Bytes) (f : Bytes → List (Arg (Info W)) → M (Info W))
      → Among (name, f) published
      → (i : ℕ) × (find_function lib name
            (finish_registration lib (register_install_functions (register_builtins no_functions)))
          ≡ some (registered i))
        × (call_registered m i ≡ f)
  find_function-install_call name f h =
      let (g, among, same) =
        called_pairs-Among name f install_functions
          (subst (λ fs. Among (name, f) fs) published-eq h) in
      let (i, at, called) = found_call name g among in (i, at, called ∙ same)
