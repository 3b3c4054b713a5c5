-- ===== src/Mtd/Mounts/Mounted.antt =====
-- The volumes that are mounted, as a list: what a scan, a search and an unmount do to it.
use recovery_sdx.Base.{
  ℕ, zero, suc, ◌≤◌, ◌<◌, ◌≡◌, ◌⊎◌, Bool, true, false, Option, none, some, List, [], ◌∷◌, Bytes,
  ◌==◌, if◌then◌else◌, length, until_nul,
}
use recovery_sdx.Mtd.Mounts.{MountedVolume, MountsState, numv, Fields, volume_of}

unfoldable pub is_mounted : Option Bytes → Bool
is_mounted none = false
is_mounted (some mount_point) = true

-- The entries among the first that have a mount point.
unfoldable pub live : ℕ → List MountedVolume → List MountedVolume
unfolding is_mounted
live zero vs = []
live (suc n) [] = []
live (suc n) (v ∷ vs) = let rest = live n vs in if is_mounted v.mount_point then v ∷ rest else rest

unfoldable pub live_in : ℕ → Option (List MountedVolume) → List MountedVolume
live_in n none = []
live_in n (some vs) = live n vs

unfoldable pub mounted : MountsState → List MountedVolume
unfolding live_in
mounted s = live_in s.volume_count s.volumes

-- The table has its size, once it is there.
unfoldable pub HasRoom : Option (List MountedVolume) → Type 0
HasRoom none = Unit
HasRoom (some vs) = length vs ≡ numv

-- What is left of the text at the start of each line.
unfoldable pub starts : Bool → Bytes → List Bytes
starts at [] = []
starts true (c ∷ s) = (c ∷ s) ∷ starts (c == 10) s
starts false (c ∷ s) = starts (c == 10) s

module _ (scan_fields : Bytes → Option Fields) where
  unfoldable and_then : Option Fields → List MountedVolume → List MountedVolume
  and_then none rest = rest
  and_then (some f) rest = volume_of f ∷ rest

  -- The volumes of the lines that match.
  unfoldable pub parsed : List Bytes → List MountedVolume
  unfolding and_then
  parsed [] = []
  parsed (s ∷ ss) = and_then (scan_fields (until_nul s)) (parsed ss)

  -- The scan ends with `now`, or at the 33rd volume.
  Ends : ℕ → List MountedVolume → Option (List MountedVolume × ℕ) → Type 0
  Ends n now o =
      ((n ≤ numv)
        × (r : List MountedVolume × ℕ) × (o ≡ some r)
        × (length r.0 ≡ numv)
        × (live r.1 r.0 ≡ now))
      ⊎ ((numv < n) × (o ≡ none))
