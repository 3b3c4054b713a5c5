-- ===== src/Updater/Safety.antt =====
-- The functions of updater/install.c keep the rules that edify has for registered functions.
pub mod Volumes
pub mod Files
pub mod Rest
pub mod Script
use recovery_sdx.Base.{
  ℕ, zero, suc, ◌+◌, ◌≡◌, refl, sym, subst, ap, inl, inr, Bool, true, false, not, ◌&&◌, ◌||◌,
  Option, none, some, List, [], ◌∷◌, ◌++◌, Bytes, ltb, leb, ◌==◌, if◌then◌else◌, codes, bytes_eq,
  length, get_elem?, arith, Bool-cases, until_nul, take,
}
use recovery_sdx.Base.Int.{ℤ, pos, negsuc, is_nonzero, is_negative}
use recovery_sdx.Edify.Strings.{of_bool, skip_space}
use recovery_sdx.Edify.Expr.{State, Result, value, null, fault, M, ◌>>=◌, ret, undefined, Arg, Expr}
use recovery_sdx.Edify.Functions.{evaluate}
use recovery_sdx.Edify.Arguments.{error_abort, read_one, read_two, read_three, read_var_args}
use recovery_sdx.Edify.Safety.{Outcome, Safe, bind-Safe, ret-Safe, abort_with-Safe, if-Safe}
use recovery_sdx.Edify.Safety.Functions.{SafeArgs}
use recovery_sdx.Updater.Machine.{Machine, Info, calling, running, asking, sending}
use recovery_sdx.Updater.Volumes.{
  expects, is_blank, cannot_be_empty, mount_partition, mount_at, mount_fn, is_found, is_mounted_fn,
  unmount_found, unmount_fn,
}
use recovery_sdx.Updater.Files.{
  collected, collect, delete_all, delete_fn, package_extract_dir_fn, extract_opened, extract_found,
  package_extract_file_fn, symlink_all, symlink_fn, number_of, not_valid, set_each, set_each_below,
  valid, set_perm_args, set_perm_fn,
}
use recovery_sdx.Updater.Images.{
  write_chunks, write_file, write_opened, write_found, write_raw_image_fn, firmware_command,
  write_firmware_image_fn, prepended, applied, apply_patch_fn,
}
use recovery_sdx.Updater.Screen.{
  lines_of, print_lines, joined, cut, show_progress_fn, set_progress_fn, ui_print_fn,
}

module _ {W : Type 0} {script : Bytes} where
  pub calling-Safe :
      {A : Type 0} (f : W → A × W) (k : A → M (Info W))
      → ((a : A) → Safe script (k a))
      → Safe script (calling f k)
  unfolding calling
  calling-Safe f k h s e =
      let o =
        h (f s.cookie.world).0
          (record s { cookie = record s.cookie { world = (f s.cookie.world).1 } }) e in
      record {
        script_same = o.script_same;
        printed = o.printed;
        out_grows = o.out_grows;
        ends = o.ends;
      }

  pub running-Safe : (f : W → W) (m : M (Info W)) → Safe script m → Safe script (running f m)
  unfolding running
  running-Safe f m h s e =
      let o = h (record s { cookie = record s.cookie { world = f s.cookie.world } }) e in
      record {
        script_same = o.script_same;
        printed = o.printed;
        out_grows = o.out_grows;
        ends = o.ends;
      }

  pub asking-Safe :
      {A : Type 0} (f : W → A) (k : A → M (Info W))
      → ((a : A) → Safe script (k a))
      → Safe script (asking f k)
  unfolding asking
  asking-Safe f k h s e = h (f s.cookie.world) s e

  pub sending-Safe : (text : Bytes) (m : M (Info W)) → Safe script m → Safe script (sending text m)
  unfolding sending
  sending-Safe text m h s e =
      let o = h (record s { cookie = record s.cookie { pipe = s.cookie.pipe ++ text } }) e in
      record {
        script_same = o.script_same;
        printed = o.printed;
        out_grows = o.out_grows;
        ends = o.ends;
      }

  pub error_abort-Safe : (msg : Bytes) → Safe {W = Info W} script (error_abort msg)
  unfolding error_abort
  error_abort-Safe msg = abort_with-Safe (take 4095 msg)

  -- Reading arguments that are there.
  pub read_one-Safe :
      (args : List (Arg (Info W))) (k : Bytes → M (Info W))
      → SafeArgs script args
      → leb 1 (length args) ≡ true
      → ((v : Bytes) → Safe script (k v))
      → Safe script (read_one args k)
  unfolding read_one
  read_one-Safe [] k h n j = ground arith
  read_one-Safe (a ∷ more) k h n j = bind-Safe a.run k h.0.run j

  pub read_two-Safe :
      (args : List (Arg (Info W))) (k : Bytes → Bytes → M (Info W))
      → SafeArgs script args
      → leb 2 (length args) ≡ true
      → ((v u : Bytes) → Safe script (k v u))
      → Safe script (read_two args k)
  unfolding read_two
  read_two-Safe [] k h n j = ground arith
  read_two-Safe (a ∷ more) k h n j =
      bind-Safe a.run _ h.0.run λ v. read_one-Safe more (k v) h.1 (ground arith) (j v)

  pub read_three-Safe :
      (args : List (Arg (Info W))) (k : Bytes → Bytes → Bytes → M (Info W))
      → SafeArgs script args
      → leb 3 (length args) ≡ true
      → ((v u t : Bytes) → Safe script (k v u t))
      → Safe script (read_three args k)
  unfolding read_three
  read_three-Safe [] k h n j = ground arith
  read_three-Safe (a ∷ more) k h n j =
      bind-Safe a.run _ h.0.run λ v. read_two-Safe more (k v) h.1 (ground arith) (j v)

  pub read_var_args-Safe :
      (args : List (Arg (Info W))) (k : List Bytes → M (Info W))
      → SafeArgs script args
      → ((vs : List Bytes) → length vs ≡ length args → Safe script (k vs))
      → Safe script (read_var_args args k)
  unfolding read_var_args
  read_var_args-Safe [] k h j = j [] refl
  read_var_args-Safe (a ∷ more) k h j =
      bind-Safe a.run _ h.0.run
        λ v. read_var_args-Safe more (λ vs. k (v ∷ vs)) h.1 (λ vs n. j (v ∷ vs) (ap suc n))
