-- ===== src/Updater/Safety/Files.antt =====
-- `DeleteFn` with one path, `PackageExtractDirFn`, `PackageExtractFileFn`, `SymlinkFn` and `SetPermFn`
-- keep the rules.
use recovery_sdx.Base.{
  ℕ, ◌≡◌, Bool, true, false, Option, none, some, List, [], ◌∷◌, Bytes, ltb, leb, codes, bytes_eq,
  length, arith,
}
use recovery_sdx.Edify.Expr.{State, Result, value, null, fault, M, Arg}
use recovery_sdx.Edify.Safety.{Outcome, Safe, pass-Outcome, bind-Safe, ret-Safe, if-Safe}
use recovery_sdx.Edify.Safety.Functions.{SafeArgs}
use recovery_sdx.Updater.Machine.{Machine, Info}
use recovery_sdx.Updater.Files.{
  collected, collect, delete_all, delete_fn, package_extract_dir_fn, extract_opened, extract_found,
  package_extract_file_fn, symlink_all, symlink_fn, number_of, not_valid, checked, valid,
  set_perm_args, set_perm_fn, least, min_args,
}
use recovery_sdx.Updater.Safety.{
  calling-Safe, running-Safe, asking-Safe, error_abort-Safe, read_two-Safe, read_var_args-Safe,
}
use recovery_sdx.Updater.Safety.Volumes.{expects-Safe, counted-Safe}

collected-Outcome :
    {W : Type 0} (s : State (Info W)) (o : Result × State (Info W)) (k : Bytes → M (Info W))
    → Outcome s o
    → ((v : Bytes) → Safe s.script (k v))
    → Outcome s (collected true o k)
unfolding collected
collected-Outcome s (value v, s') k o h = pass-Outcome s (value v, s') k o h
collected-Outcome s (null, s') k o h = o
collected-Outcome s (fault, s') k o h = o

module _ {W : Type 0} (m : Machine W) {script : Bytes} where
  -- With at most one path, there is none behind which the loop that frees them could start.
  pub delete_fn-Safe :
      (name : Bytes) (args : List (Arg (Info W)))
      → SafeArgs script args
      → leb (length args) 1 ≡ true
      → Safe script (delete_fn m name args)
  unfolding delete_fn collect
  delete_fn-Safe name [] h n = calling-Safe _ _ λ r. ret-Safe _
  delete_fn-Safe name (a ∷ []) h n = λ s e. collected-Outcome s (a.run s) _ (h.0.run s e) λ v.
      calling-Safe (delete_all m (bytes_eq name (codes "delete_recursive")) (v ∷ [])) _
        λ r. ret-Safe _
  delete_fn-Safe name (a ∷ b ∷ more) h n = absurd (ground (arith, n))

  pub package_extract_dir_fn-Safe :
      (name : Bytes) (args : List (Arg (Info W)))
      → SafeArgs script args
      → Safe script (package_extract_dir_fn m name args)
  unfolding package_extract_dir_fn
  package_extract_dir_fn-Safe name args h =
      counted-Safe m (length args) 2 _ _
        (λ n. read_two-Safe args _ h (ground arith) λ zip_path dest_path.
          calling-Safe (m.extract_recursive zip_path dest_path) _ λ r. ret-Safe _)
        (expects-Safe m _ _ _)

  extract_opened-Safe :
      (e : ℕ) (dest_path : Bytes) (opened : Bool)
      → Safe script (extract_opened m e dest_path opened)
  unfolding extract_opened
  extract_opened-Safe e dest_path opened =
      if-Safe opened _ _ (calling-Safe (m.extract_entry_to_file e dest_path) _ λ r. ret-Safe _)
        (ret-Safe [])

  extract_found-Safe :
      (dest_path : Bytes) (o : Option ℕ) → Safe script (extract_found m dest_path o)
  unfolding extract_found
  extract_found-Safe dest_path none = ret-Safe []
  extract_found-Safe dest_path (some e) =
      calling-Safe (m.fopen_write dest_path) _ (extract_opened-Safe e dest_path)

  pub package_extract_file_fn-Safe :
      (name : Bytes) (args : List (Arg (Info W)))
      → SafeArgs script args
      → Safe script (package_extract_file_fn m name args)
  unfolding package_extract_file_fn
  package_extract_file_fn-Safe name args h =
      counted-Safe m (length args) 2 _ _
        (λ n. read_two-Safe args _ h (ground arith) λ zip_path dest_path.
          asking-Safe (m.find_zip_entry zip_path) _ (extract_found-Safe dest_path))
        (expects-Safe m _ _ _)

  pub symlink_fn-Safe :
      (name : Bytes) (args : List (Arg (Info W)))
      → SafeArgs script args
      → Safe script (symlink_fn m name args)
  unfolding symlink_fn
  symlink_fn-Safe name [] h = expects-Safe m _ _ _
  symlink_fn-Safe name (a ∷ more) h = bind-Safe a.run _ h.0.run λ target.
      read_var_args-Safe more _ h.1
        λ srcs n. running-Safe (symlink_all m target srcs) _ (ret-Safe [])

  checked-Safe :
      (name what text : Bytes) (k : ℕ → M (Info W)) (o : Option ℕ)
      → ((n : ℕ) → Safe script (k n))
      → Safe script (checked m name what text k o)
  unfolding checked not_valid
  checked-Safe name what text k none h = error_abort-Safe _
  checked-Safe name what text k (some n) h = h n

  valid-Safe :
      (name what text : Bytes) (k : ℕ → M (Info W))
      → ((n : ℕ) → Safe script (k n))
      → Safe script (valid m name what text k)
  unfolding valid
  valid-Safe name what text k h = checked-Safe name what text k (number_of m text) h

  set_perm_args-Safe :
      (name : Bytes) (recursive : Bool) (args : List Bytes)
      → ltb (length args) (least recursive) ≡ false
      → Safe script (set_perm_args m name recursive args)
  unfolding set_perm_args least
  set_perm_args-Safe name true (a ∷ b ∷ c ∷ d ∷ paths) n = valid-Safe name _ a _ λ uid.
      valid-Safe name _ b _ λ gid.
        valid-Safe name _ c _
          λ dir_mode. valid-Safe name _ d _ λ file_mode. running-Safe _ _ (ret-Safe [])
  set_perm_args-Safe name true [] n = ground arith
  set_perm_args-Safe name true (a ∷ []) n = ground arith
  set_perm_args-Safe name true (a ∷ b ∷ []) n = ground arith
  set_perm_args-Safe name true (a ∷ b ∷ c ∷ []) n = ground arith
  set_perm_args-Safe name false (a ∷ b ∷ c ∷ paths) n = valid-Safe name _ a _ λ uid.
      valid-Safe name _ b _ λ gid. valid-Safe name _ c _ λ mode. running-Safe _ _ (ret-Safe [])
  set_perm_args-Safe name false [] n = ground arith
  set_perm_args-Safe name false (a ∷ []) n = ground arith
  set_perm_args-Safe name false (a ∷ b ∷ []) n = ground arith

  pub set_perm_fn-Safe :
      (name : Bytes) (args : List (Arg (Info W)))
      → SafeArgs script args
      → ltb (length args) (min_args name) ≡ false
      → Safe script (set_perm_fn m name args)
  unfolding set_perm_fn min_args least
  set_perm_fn-Safe name args h n =
      let recursive = bytes_eq name (codes "set_perm_recursive") in
      rw n (read_var_args-Safe args _ h λ vs same. set_perm_args-Safe name recursive vs (rw same n))
