-- ===== src/Mtd/Mounts/Unmounted.antt =====
-- A search for a mount point and the unmount of what it finds, on the list of mounted volumes.
use recovery_sdx.Base.{
  ℕ, zero, suc, ◌≡◌, refl, sym, ap, subst, inl, inr, Bool, true, false, Option, none, some, List,
  [], ◌∷◌, Bytes, if◌then◌else◌, set, get_or, bytes_eq_iff, bytes_eq_refl, arith, Bool-cases,
  eq_of_some, >>=-eq-some,
}
use recovery_sdx.Base.Int.{ℤ, pos, negsuc, is_nonzero}
use recovery_sdx.Mtd.Mounts.{
  MountedVolume, MountsState, no_volume, is_text, find_volume, find_mounted_volume_by_mount_point,
  mount_point_of, unmount_mounted_volume,
}
use recovery_sdx.Mtd.Mounts.Mounted.{is_mounted, live, live_in, mounted}

-- Without the first volume at the mount point.
pub without : Bytes → List MountedVolume → List MountedVolume
without mp [] = []
without mp (v ∷ vs) = let rest = without mp vs in if is_text mp v.mount_point then vs else v ∷ rest

abbrev at : Bytes → MountedVolume → Bool
unfolding is_text
at mp v = is_text mp v.mount_point

is_text-eq : (mp : Bytes) (o : Option Bytes) → is_text mp o ≡ true → o ≡ some mp
unfolding is_text
is_text-eq mp none h = ground arith
is_text-eq mp (some t) h = ap some ((bytes_eq_iff t mp).0 h)

first :
    (mp : Bytes) (n : ℕ) (v : MountedVolume) (vs : List MountedVolume)
    → at mp v ≡ true
    → v.mount_point ≡ some mp
    → live n vs ≡ without mp (live (suc n) (v ∷ vs))
unfolding live without is_mounted at
first mp n v vs t here = rw (here, bytes_eq_refl mp) refl

later :
    (mp : Bytes) (n : ℕ) (v : MountedVolume) (vs : List MountedVolume) (j : ℕ)
    → at mp v ≡ false
    → live n (set vs j no_volume) ≡ without mp (live n vs)
    → live (suc n) (v ∷ set vs j no_volume) ≡ without mp (live (suc n) (v ∷ vs))
unfolding live without is_mounted at
later mp n v vs j f left = elim (Bool-cases (is_mounted v.mount_point)) [
  | inl t ↦ rw (t, f) (ap (λ x. v ∷ x) left)
  | inr t ↦ rw t left
]

find_volume-eq :
    (mp : Bytes) (n : ℕ) (vs : List MountedVolume) (i : ℕ)
    → find_volume (at mp) n vs ≡ some i
    → ((get_or vs i no_volume).mount_point ≡ some mp)
      × (live n (set vs i no_volume) ≡ without mp (live n vs))
unfolding find_volume live without is_mounted at
find_volume-eq mp zero vs i h = ground arith
find_volume-eq mp (suc n) [] i h = ground arith
find_volume-eq mp (suc n) (v ∷ vs) i h = elim (Bool-cases (at mp v)) [
  | inl t ↦
      let here = is_text-eq mp v.mount_point t in
      subst
        (λ x.
          ((get_or (v ∷ vs) x no_volume).mount_point ≡ some mp)
          × (live (suc n) (set (v ∷ vs) x no_volume) ≡ without mp (live (suc n) (v ∷ vs))))
        (eq_of_some (rw t at h)) (here, first mp n v vs t here)
  | inr f ↦
      let (j, found, same) = >>=-eq-some (find_volume (at mp) n vs) _ (rw f at h) in
      let (point, left) = find_volume-eq mp n vs j found in
      subst
        (λ x.
          ((get_or (v ∷ vs) x no_volume).mount_point ≡ some mp)
          × (live (suc n) (set (v ∷ vs) x no_volume) ≡ without mp (live (suc n) (v ∷ vs))))
        (eq_of_some same) (point, later mp n v vs j f left)
]

is_zero : (r : ℤ) → is_nonzero r ≡ false → r ≡ pos 0
is_zero (pos zero) h = refl
is_zero (pos (suc n)) h = ground arith
is_zero (negsuc n) h = ground arith

module _ {W : Type 0} (umount : Option Bytes → W → ℤ × W) where
  -- The volume that is found is unmounted at the mount point that was asked for. With success it is
  -- the first one there that leaves the list; a failure leaves all as it was.
  pub unmount_mounted_volume-without :
      (mp : Bytes) (s : MountsState) (i : ℕ) (w : W)
      → find_mounted_volume_by_mount_point mp s ≡ some i
      → ((unmount_mounted_volume umount i s w).0 ≡ (umount (some mp) w).0)
        × (mounted (unmount_mounted_volume umount i s w).1
            ≡ (if is_nonzero (umount (some mp) w).0 then mounted s else without mp (mounted s)))
        × ((unmount_mounted_volume umount i s w).2 ≡ (umount (some mp) w).1)
  unfolding find_mounted_volume_by_mount_point unmount_mounted_volume mount_point_of mounted live_in
  unmount_mounted_volume-without mp s i w h =
      let (vs, table, found) = >>=-eq-some s.volumes _ h in
      let (point, left) = find_volume-eq mp s.volume_count vs i found in
      elim (Bool-cases (is_nonzero (umount (some mp) w).0)) [
        | inl t ↦ rw (table, point, t) (refl, refl, refl)
        | inr t ↦ rw (table, point, t) (sym (is_zero _ t), left, refl)
      ]
