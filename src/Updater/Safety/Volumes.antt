-- ===== src/Updater/Safety/Volumes.antt =====
-- `MountFn`, `IsMountedFn` and `UnmountFn` keep the rules.
use recovery_sdx.Base.{
  ℕ, ◌≡◌, inl, inr, true, Option, none, some, List, [], ◌++◌, Bytes, ◌==◌, if◌then◌else◌, codes,
  bytes_eq, length, arith, Bool-cases,
}
use recovery_sdx.Edify.Expr.{M, Arg}
use recovery_sdx.Edify.Safety.{Safe, ret-Safe, if-Safe}
use recovery_sdx.Edify.Safety.Functions.{SafeArgs}
use recovery_sdx.Updater.Machine.{Machine, Info}
use recovery_sdx.Updater.Volumes.{
  expects, is_blank, cannot_be_empty, mount_partition, mount_at, mount_fn, is_found, is_mounted_fn,
  unmount_found, unmount_fn,
}
use recovery_sdx.Updater.Safety.{
  calling-Safe, running-Safe, asking-Safe, error_abort-Safe, read_one-Safe, read_three-Safe,
}

module _ {W : Type 0} (m : Machine W) {script : Bytes} where
  pub expects-Safe : (name what : Bytes) (argc : ℕ) → Safe script (expects m name what argc)
  unfolding expects
  expects-Safe name what argc = error_abort-Safe _

  pub cannot_be_empty-Safe :
      (what name : Bytes) → Safe {W = Info W} script (cannot_be_empty what name)
  unfolding cannot_be_empty
  cannot_be_empty-Safe what name = error_abort-Safe _

  -- A test of the number of the arguments in front of a function.
  pub counted-Safe :
      (argc n : ℕ) (f g : M (Info W))
      → ((argc == n) ≡ true → Safe script f)
      → Safe script g
      → Safe script (if argc == n then f else g)
  counted-Safe argc n f g h k = elim (Bool-cases (argc == n)) [
    | inl t ↦ rw t (h t)
    | inr t ↦ rw t k
  ]

  mount_partition-Safe :
      (mount_point : Bytes) (o : Option ℕ) → Safe script (mount_partition m mount_point o)
  unfolding mount_partition
  mount_partition-Safe mp none = ret-Safe []
  mount_partition-Safe mp (some mtd) = calling-Safe (m.mtd_mount_partition mtd mp) _ λ r. ret-Safe _

  mount_at-Safe : (type location mp : Bytes) → Safe script (mount_at m type location mp)
  unfolding mount_at
  mount_at-Safe type location mp = running-Safe (m.mkdir mp) _ (
      if-Safe (bytes_eq type (codes "MTD")) _ _
        (running-Safe m.mtd_scan_partitions _
          (asking-Safe (m.mtd_find_partition_by_name location) _ (mount_partition-Safe mp)))
        (calling-Safe (m.mount location mp type) _ λ r. ret-Safe _))

  pub mount_fn-Safe :
      (name : Bytes) (args : List (Arg (Info W)))
      → SafeArgs script args
      → Safe script (mount_fn m name args)
  unfolding mount_fn
  mount_fn-Safe name args h =
      counted-Safe (length args) 3 _ _
        (λ n. read_three-Safe args _ h (ground arith) λ type location mp.
          if-Safe (is_blank type) _ _ (cannot_be_empty-Safe (codes "type") (name ++ codes "()")) (
            if-Safe (is_blank location) _ _
              (cannot_be_empty-Safe (codes "location") (name ++ codes "()"))
              (if-Safe (is_blank mp) _ _
                (cannot_be_empty-Safe (codes "mount_point") (name ++ codes "()"))
                (mount_at-Safe type location mp))))
        (expects-Safe _ _ _)

  is_found-Safe : (mp : Bytes) (o : Option ℕ) → Safe script (is_found m mp o)
  unfolding is_found
  is_found-Safe mp none = ret-Safe []
  is_found-Safe mp (some vol) = ret-Safe mp

  unmount_found-Safe : (mp : Bytes) (o : Option ℕ) → Safe script (unmount_found m mp o)
  unfolding unmount_found
  unmount_found-Safe mp none = ret-Safe []
  unmount_found-Safe mp (some vol) = calling-Safe (m.unmount_mounted_volume vol) _ λ r. ret-Safe mp

  pub is_mounted_fn-Safe :
      (name : Bytes) (args : List (Arg (Info W)))
      → SafeArgs script args
      → Safe script (is_mounted_fn m name args)
  unfolding is_mounted_fn
  is_mounted_fn-Safe name args h =
      counted-Safe (length args) 1 _ _
        (λ n. read_one-Safe args _ h (ground arith) λ mp.
          if-Safe (is_blank mp) _ _ (cannot_be_empty-Safe (codes "mount_point") (codes "unmount()"))
            (running-Safe m.scan_mounted_volumes _
              (asking-Safe (m.find_mounted_volume_by_mount_point mp) _ (is_found-Safe mp))))
        (expects-Safe _ _ _)

  pub unmount_fn-Safe :
      (name : Bytes) (args : List (Arg (Info W)))
      → SafeArgs script args
      → Safe script (unmount_fn m name args)
  unfolding unmount_fn
  unmount_fn-Safe name args h =
      counted-Safe (length args) 1 _ _
        (λ n. read_one-Safe args _ h (ground arith) λ mp.
          if-Safe (is_blank mp) _ _ (cannot_be_empty-Safe (codes "mount_point") (codes "unmount()"))
            (running-Safe m.scan_mounted_volumes _
              (asking-Safe (m.find_mounted_volume_by_mount_point mp) _ (unmount_found-Safe mp))))
        (expects-Safe _ _ _)
