-- ===== src/Mtd/Mounts.antt =====
-- mtdutils/mounts.c: the table of mounted volumes, over the text of /proc/mounts. A pointer to a
-- volume is its place in the table. Memory is taken to suffice.
pub mod Mounted
pub mod Unmounted
mod Tests
use recovery_sdx.Base.{
  ℕ, zero, suc, ◌+◌, Bool, true, false, ◌&&◌, not, Option, none, some, List, [], ◌∷◌, Bytes, ltb,
  ◌==◌, if◌then◌else◌, length, set, get_elem?, get_or, replicate, bytes_eq, until_nul, take, ◌>>=◌,
}
use recovery_sdx.Base.Int.{ℤ, pos, minus_one, is_nonzero}
use recovery_sdx.Mtd.Table.{eat_line}

-- `none` is a null pointer.
pub record MountedVolume : Type 0 where
  pub device : Option Bytes
  pub mount_point : Option Bytes
  pub filesystem : Option Bytes
  pub flags : Option Bytes

pub record MountsState : Type 0 where
  pub volumes : Option (List MountedVolume)
  pub volumes_allocd : ℕ
  pub volume_count : ℕ

abbrev pub numv : ℕ
numv = 32

abbrev pub no_volume : MountedVolume
no_volume = record { device = none; mount_point = none; filesystem = none; flags = none }

-- What `sscanf` gives for the format of a line where all four fields match.
pub record Fields : Type 0 where
  pub device : Bytes
  pub mount_point : Bytes
  pub filesystem : Bytes
  pub flags : Bytes

unfoldable pub volume_of : Fields → MountedVolume
volume_of f = record {
  device = some f.device;
  mount_point = some f.mount_point;
  filesystem = some f.filesystem;
  flags = some f.flags;
}

-- The loop of `free_volume_internals`, with `zero` set.
unfoldable pub free_volumes : ℕ → List MountedVolume → List MountedVolume
free_volumes zero vs = vs
free_volumes (suc n) [] = []
free_volumes (suc n) (v ∷ vs) = no_volume ∷ free_volumes n vs

-- The table at the start of a scan.
unfoldable pub emptied : ℕ → Option (List MountedVolume) → List MountedVolume
unfolding free_volumes
emptied count none = replicate numv no_volume
emptied count (some vs) = free_volumes count vs

unfoldable pub allocd : ℕ → Option (List MountedVolume) → ℕ
allocd n none = numv
allocd n (some vs) = n

-- The volume at `volume_count` is assigned; `none` is an assignment out of bounds.
unfoldable pub store_volume : MountedVolume → ℕ → List MountedVolume → Option (List MountedVolume)
store_volume v count vs = if ltb count (length vs) then some (set vs count v) else none

module _ (scan_fields : Bytes → Option Fields) where
  unfoldable pub add_fields :
      Option Fields → List MountedVolume → ℕ → Option (List MountedVolume × ℕ)
  unfolding store_volume volume_of
  add_fields none vs count = some (vs, count)
  add_fields (some f) vs count =
      store_volume (volume_of f) count vs >>= λ vs'. some (vs', count + 1)

  -- The loop over the lines. Each of them takes at least one byte.
  unfoldable pub scan_text : ℕ → Bytes → List MountedVolume → ℕ → Option (List MountedVolume × ℕ)
  unfolding add_fields
  scan_text fuel [] vs count = some (vs, count)
  scan_text zero (c ∷ s) vs count = none
  scan_text (suc fuel) (c ∷ s) vs count =
      add_fields (scan_fields (until_nul (c ∷ s))) vs count >>= λ r.
      scan_text fuel (eat_line (c ∷ s)) r.0 r.1

  -- `scan_mounted_volumes`, with the first 2047 bytes of the file, if it can be opened and read.
  unfoldable pub scan_mounted_volumes : Option Bytes → MountsState → Option (ℤ × MountsState)
  unfolding scan_text emptied allocd
  scan_mounted_volumes none s = some (
    minus_one,
    record {
      volumes = some (emptied s.volume_count s.volumes);
      volumes_allocd = allocd s.volumes_allocd s.volumes;
      volume_count = 0;
    },
  )
  scan_mounted_volumes (some text) s =
      let buf = take 2047 text in
      scan_text (length buf) buf (emptied s.volume_count s.volumes) 0 >>= λ r. some (
        pos 0,
        record {
          volumes = some r.0;
          volumes_allocd = allocd s.volumes_allocd s.volumes;
          volume_count = r.1;
        },
      )

unfoldable pub is_text : Bytes → Option Bytes → Bool
is_text t none = false
is_text t (some u) = bytes_eq u t

-- The loops of the two searches, over the first entries.
unfoldable pub find_volume : (MountedVolume → Bool) → ℕ → List MountedVolume → Option ℕ
find_volume test zero vs = none
find_volume test (suc n) [] = none
find_volume test (suc n) (v ∷ vs) =
    let rest = find_volume test n vs in if test v then some 0 else rest >>= λ i. some (suc i)

unfoldable pub find_mounted_volume_by_device : Bytes → MountsState → Option ℕ
unfolding find_volume is_text
find_mounted_volume_by_device device s =
    s.volumes >>= find_volume (λ v. is_text device v.device) s.volume_count

unfoldable pub find_mounted_volume_by_mount_point : Bytes → MountsState → Option ℕ
unfolding find_volume is_text
find_mounted_volume_by_mount_point mount_point s =
    s.volumes >>= find_volume (λ v. is_text mount_point v.mount_point) s.volume_count

-- The entry of `volume` is cleared.
unfoldable pub free_volume : ℕ → Option (List MountedVolume) → Option (List MountedVolume)
free_volume i vs = vs >>= λ t. some (set t i no_volume)

unfoldable pub mount_point_of : ℕ → Option (List MountedVolume) → Option Bytes
mount_point_of i none = none
mount_point_of i (some vs) = (get_or vs i no_volume).mount_point

module _ {W : Type 0} (umount : Option Bytes → W → ℤ × W) where
  unfoldable pub unmount_mounted_volume : ℕ → MountsState → W → ℤ × MountsState × W
  unfolding free_volume mount_point_of
  unmount_mounted_volume i s w =
      let (ret, w') = umount (mount_point_of i s.volumes) w in
      if is_nonzero ret
      then (ret, s, w')
      else (pos 0, record s { volumes = free_volume i s.volumes }, w')
