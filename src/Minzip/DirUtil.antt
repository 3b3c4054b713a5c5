-- ===== src/Minzip/DirUtil.antt =====
-- minzip/DirUtil.c: directories made, removed and given to an owner, with all below them.
pub mod Above
pub mod Hierarchy
pub mod Permissions
pub mod Unlinked
pub mod Below
mod Tests
use recovery_sdx.Base.{
  ◌>>=◌, ◌-◌, ℕ, zero, suc, ◌+◌, Bool, true, false, ◌||◌, Option, none, some, List, [], ◌∷◌, ◌++◌,
  Bytes, ◌==◌, if◌then◌else◌, take, codes, bytes_eq,
}
use recovery_sdx.Base.Int.{ℤ, pos, negsuc, minus_one, is_negative, is_nonzero}

-- What `st_mode` is asked for.
pub data Kind : Type 0 where
  directory link other : Kind

-- The calls of the system; `W` is its state with `errno`, `D` what `opendir` gives.
pub record Calls (W D : Type 0) : Type 0 where
  pub errno : W → ℤ
  pub set_errno : ℤ → W → W
  pub stat : Bytes → W → Option Kind × W
  pub lstat : Bytes → W → Option Kind × W
  pub mkdir : Bytes → ℕ → W → ℤ × W
  pub utime : Bytes → ℕ → W → ℤ × W
  pub unlink : Bytes → W → ℤ × W
  pub rmdir : Bytes → W → ℤ × W
  pub chown : Bytes → ℕ → ℕ → W → ℤ × W
  pub chmod : Bytes → ℕ → W → ℤ × W
  pub opendir : Bytes → W → Option D × W
  pub readdir : D → W → Option Bytes × W
  pub closedir : D → W → ℤ × W

pub data DirStatus : Type 0 where
  missing dir illegal : DirStatus

abbrev pub enoent : ℤ
enoent = pos 2

abbrev pub enotdir : ℤ
enotdir = pos 20

-- Is `e` the error number `n`?
unfoldable pub is_error : ℕ → ℤ → Bool
is_error n (pos e) = e == n
is_error n (negsuc e) = false

unfoldable pub ends_at : ℕ → Option Bytes → Option Bytes
ends_at c none = if c == b'/' then some (c ∷ []) else none
ends_at c (some s) = some (c ∷ s)

-- The bytes up to the last slash, with it.
unfoldable pub up_to_slash : Bytes → Option Bytes
unfolding ends_at
up_to_slash [] = none
up_to_slash (c ∷ s) = ends_at c (up_to_slash s)

-- `stripFileName`: a slash that is the first byte does not count.
unfoldable pub strip_file_name : Bytes → Option Bytes
unfolding up_to_slash
strip_file_name [] = none
strip_file_name (c ∷ s) = up_to_slash s >>= λ t. some (c ∷ t)

-- `cpath`; `none` is a path without a directory.
unfoldable pub cpath_of : Bool → Bytes → Option Bytes
unfolding strip_file_name
cpath_of true path = strip_file_name path
cpath_of false [] = none
cpath_of false (c ∷ s) = some ((c ∷ s) ++ codes "/")

-- `PATH_MAX`
abbrev pub path_max : ℕ
path_max = 4096

-- `dn`, as `snprintf` leaves it.
unfoldable pub child : Bytes → Bytes → Bytes
child path name = take (path_max - 1) (path ++ codes "/" ++ name)

-- The entries that the loops pass over.
unfoldable pub is_dots : Bytes → Bool
is_dots name = bytes_eq name (codes "..") || bytes_eq name (codes ".")

module _ {W D : Type 0} (sys : Calls W D) where
  unfoldable pub dir_status : Option Kind × W → DirStatus × W
  dir_status (some directory, w) = (dir, w)
  dir_status (some link, w) = (illegal, sys.set_errno enotdir w)
  dir_status (some other, w) = (illegal, sys.set_errno enotdir w)
  dir_status (none, w) = (if is_error 2 (sys.errno w) then missing else illegal, w)

  unfoldable pub get_path_dir_status : Bytes → W → DirStatus × W
  unfolding dir_status
  get_path_dir_status path w = dir_status (sys.stat path w)

  -- `timestamp` is `none` for a null pointer.
  unfoldable pub stamp : Option ℕ → Bytes → W → Bool × W
  stamp none path w = (true, w)
  stamp (some t) path w =
      let (ret, w') = sys.utime path t w in (if is_nonzero ret then false else true, w')

  unfoldable pub make_level : ℕ → Option ℕ → Bytes → DirStatus × W → Bool × W
  unfolding stamp
  make_level mode timestamp path (dir, w) = (true, w)
  make_level mode timestamp path (illegal, w) = (false, w)
  make_level mode timestamp path (missing, w) =
      let (err, w') = sys.mkdir path mode w in
      let stamped = stamp timestamp path w' in if is_nonzero err then (false, w') else stamped

  abbrev pub proceed : Bool × W → (W → ℤ × W) → ℤ × W
  proceed (true, w) rest = rest w
  proceed (false, w) rest = (minus_one, w)

  -- The loop over the levels: `p` points behind `before`, and stands in a component if `inside`.
  -- The path ends in a slash, so it does not end in a component.
  unfoldable pub make_levels : ℕ → Option ℕ → Bytes → Bool → Bytes → W → ℤ × W
  unfolding make_level get_path_dir_status
  make_levels mode timestamp before inside [] w = (pos 0, w)
  make_levels mode timestamp before false (c ∷ s) w =
      if c == b'/'
      then make_levels mode timestamp (before ++ (c ∷ [])) false s w
      else make_levels mode timestamp (before ++ (c ∷ [])) true s w
  make_levels mode timestamp before true (c ∷ s) w =
      let level =
        proceed (make_level mode timestamp before (get_path_dir_status before w))
          (make_levels mode timestamp (before ++ (c ∷ [])) false s) in
      if c == b'/' then level else make_levels mode timestamp (before ++ (c ∷ [])) true s w

  unfoldable pub make_below : ℕ → Option ℕ → Bytes → DirStatus × W → ℤ × W
  make_below mode timestamp cpath (dir, w) = (pos 0, w)
  make_below mode timestamp cpath (illegal, w) = (minus_one, w)
  make_below mode timestamp cpath (missing, w) = make_levels mode timestamp [] false cpath w

  unfoldable pub make_hierarchy : ℕ → Option ℕ → Option Bytes → W → ℤ × W
  unfolding make_below get_path_dir_status
  make_hierarchy mode timestamp none w = (minus_one, sys.set_errno enoent w)
  make_hierarchy mode timestamp (some cpath) w =
      make_below mode timestamp cpath (get_path_dir_status cpath w)

  -- `dirCreateHierarchy`
  unfoldable pub dir_create_hierarchy : Bytes → ℕ → Option ℕ → Bool → W → ℤ × W
  unfolding make_hierarchy cpath_of
  dir_create_hierarchy path mode timestamp strip w =
      make_hierarchy mode timestamp (cpath_of strip path) w

  -- `closedir` behind a failure.
  unfoldable pub give_up : D → W → Option ℤ × W
  give_up d w = let save = sys.errno w in (some minus_one, sys.set_errno save (sys.closedir d w).1)

  module _ (unlink_child : Bytes → W → Option ℤ × W) where
    unfoldable pub judged : (W → Option Bool × W) → Option ℤ × W → Option Bool × W
    judged again (none, w) = (none, w)
    judged again (some r, w) =
        let rest = again (sys.set_errno (pos 0) w) in if is_negative r then (some true, w) else rest

    unfoldable pub unlink_entry : (W → Option Bool × W) → Bytes → Option Bytes × W → Option Bool × W
    unfolding judged
    unlink_entry again path (none, w) = (some false, w)
    unlink_entry again path (some name, w) =
        let next = again w in
        let unlinked = judged again (unlink_child (child path name) w) in
        if is_dots name then next else unlinked

    -- The loop of `dirUnlinkHierarchy`, and its flag `fail`; `none` is a lack of fuel.
    unfoldable pub unlink_entries : ℕ → Bytes → D → W → Option Bool × W
    unfolding unlink_entry
    unlink_entries zero path d w = (none, w)
    unlink_entries (suc n) path d w = unlink_entry (unlink_entries n path d) path (sys.readdir d w)

  unfoldable pub result : ℤ × W → Option ℤ × W
  result (r, w) = (some r, w)

  unfoldable pub remove_dir : Bytes → ℤ × W → Option ℤ × W
  unfolding result
  remove_dir path (closed, w) =
      let removed = result (sys.rmdir path w) in
      if is_negative closed then (some minus_one, w) else removed

  unfoldable pub unlinked_entries : Bytes → D → Option Bool × W → Option ℤ × W
  unfolding give_up remove_dir
  unlinked_entries path d (none, w) = (none, w)
  unlinked_entries path d (some fail, w) =
      let done = remove_dir path (sys.closedir d w) in
      if fail || is_negative (sys.errno w) then give_up d w else done

  unfoldable pub unlink_dir : (Bytes → W → Option ℤ × W) → ℕ → Bytes → Option D × W → Option ℤ × W
  unfolding unlink_entries unlinked_entries
  unlink_dir unlink_child n path (none, w) = (some minus_one, w)
  unlink_dir unlink_child n path (some d, w) =
      unlinked_entries path d (unlink_entries unlink_child n path d (sys.set_errno (pos 0) w))

  unfoldable pub unlink_kind :
      (Bytes → W → Option ℤ × W) → ℕ → Bytes → Option Kind × W → Option ℤ × W
  unfolding result unlink_dir
  unlink_kind unlink_child n path (none, w) = (some minus_one, w)
  unlink_kind unlink_child n path (some directory, w) =
      unlink_dir unlink_child n path (sys.opendir path w)
  unlink_kind unlink_child n path (some link, w) = result (sys.unlink path w)
  unlink_kind unlink_child n path (some other, w) = result (sys.unlink path w)

  -- `dirUnlinkHierarchy`. The fuel bounds the depth, and the entries of a directory; without it the
  -- result is `none`, with the state so far.
  unfoldable pub dir_unlink_hierarchy : ℕ → Bytes → W → Option ℤ × W
  unfolding unlink_kind
  dir_unlink_hierarchy zero path w = (none, w)
  dir_unlink_hierarchy (suc n) path w =
      unlink_kind (dir_unlink_hierarchy n) n path (sys.lstat path w)

  module _ (set_child : Bytes → W → Option ℤ × W) where
    -- `errno` behind the call for an entry.
    unfoldable pub errno_of : ℤ → W → W
    errno_of r w =
        if is_nonzero r
        then (if is_nonzero (sys.errno w) then w else sys.set_errno minus_one w)
        else sys.set_errno (pos 0) w

    unfoldable pub child_set : (W → Bool × W) → Option ℤ × W → Bool × W
    unfolding errno_of
    child_set again (none, w) = (false, w)
    child_set again (some r, w) = again (errno_of r w)

    unfoldable pub set_entry : (W → Bool × W) → Bytes → Option Bytes × W → Bool × W
    unfolding child_set
    set_entry again path (none, w) = (true, w)
    set_entry again path (some name, w) =
        let next = again w in
        let set = child_set again (set_child (child path name) w) in
        if is_dots name then next else set

    -- The loop of `dirSetHierarchyPermissions`; `false` is a lack of fuel.
    unfoldable pub set_entries : ℕ → Bytes → D → W → Bool × W
    unfolding set_entry
    set_entries zero path d w = (false, w)
    set_entries (suc n) path d w =
        let entry = set_entry (set_entries n path d) path (sys.readdir d w) in
        if is_nonzero (sys.errno w) then (true, w) else entry

  unfoldable pub closed : ℤ × W → Option ℤ × W
  closed (ret, w) = (some (if is_nonzero ret then minus_one else pos 0), w)

  unfoldable pub set_all : D → Bool × W → Option ℤ × W
  unfolding give_up closed
  set_all d (false, w) = (none, w)
  set_all d (true, w) =
      let done = closed (sys.closedir d w) in if is_nonzero (sys.errno w) then give_up d w else done

  unfoldable pub set_dir : (Bytes → W → Option ℤ × W) → ℕ → Bytes → Option D × W → Option ℤ × W
  unfolding set_entries set_all
  set_dir set_child n path (none, w) = (some minus_one, w)
  set_dir set_child n path (some d, w) =
      set_all d (set_entries set_child n path d (sys.set_errno (pos 0) w))

  unfoldable pub set_below : (Bytes → W → Option ℤ × W) → ℕ → Bytes → Kind → W → Option ℤ × W
  unfolding set_dir
  set_below set_child n path directory w = set_dir set_child n path (sys.opendir path w)
  set_below set_child n path link w = (some (pos 0), w)
  set_below set_child n path other w = (some (pos 0), w)

  module _ (uid gid dir_mode file_mode : ℕ) where
    unfoldable pub mode_of : Kind → ℕ
    mode_of directory = dir_mode
    mode_of link = file_mode
    mode_of other = file_mode

    unfoldable pub set_node : (Bytes → W → Option ℤ × W) → ℕ → Bytes → Kind → W → Option ℤ × W
    unfolding set_below mode_of
    set_node set_child n path kind w =
        let (owned, w₁) = sys.chown path uid gid w in
        let (changed, w₂) = sys.chmod path (mode_of kind) w₁ in
        let below = set_below set_child n path kind w₂ in
        if is_nonzero owned
        then (some minus_one, w₁)
        else if is_nonzero changed
        then (some minus_one, w₂)
        else below

    unfoldable pub set_kind :
        (Bytes → W → Option ℤ × W) → ℕ → Bytes → Option Kind × W → Option ℤ × W
    unfolding set_node
    set_kind set_child n path (none, w) = (some minus_one, w)
    set_kind set_child n path (some link, w) = (some (pos 0), w)
    set_kind set_child n path (some directory, w) = set_node set_child n path directory w
    set_kind set_child n path (some other, w) = set_node set_child n path other w

    -- `dirSetHierarchyPermissions`, with fuel as above.
    unfoldable pub dir_set_hierarchy_permissions : ℕ → Bytes → W → Option ℤ × W
    unfolding set_kind
    dir_set_hierarchy_permissions zero path w = (none, w)
    dir_set_hierarchy_permissions (suc n) path w =
        set_kind (dir_set_hierarchy_permissions n) n path (sys.lstat path w)
