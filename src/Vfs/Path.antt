-- ===== src/Vfs/Path.antt =====
-- kernel/filesystem/virtual.c: virt_fs_path_find, the walk along a path.
-- A name of 256 characters or more is written behind the end of the array `name`, or fills it without
-- a closing zero: what the code does from there on is not defined, which is a missing result.
use yuzuos.Base.{
  ℕ, zero, suc, Bool, true, false, ◌&&◌, Option, none, some, ◌==◌, if◌then◌else◌, update, List, [],
  ◌∷◌, ◌++◌, ltb, length,
}
use mathlib.Core.Option.{bind}
use yuzuos.Base.Int.{ℤ, pos, eqb_ℤ}
use yuzuos.DList.{Ptr}
use yuzuos.Ext2.Lookup.{strcmp}
use yuzuos.Vfs.{
  Driver, Vfs, Dentry, slash, creates, excludes, mount_get, dentry_alloc, enoent, eexist,
  is_negative,
}

-- `struct nameidata`
pub record Namei : Type 0 where
  pub dentry : Ptr
  pub mount : Ptr

-- What the walk gives: the state, the place reached, and the result.
pub record Reached : Type 0 where
  pub state : Vfs
  pub place : Namei
  pub result : ℤ

-- The part of a path up to the next slash, what stands from there on, and the slashes taken off.
unfoldable pub take_name : List ℕ → List ℕ
take_name [] = []
take_name (c ∷ cs) = let rest = take_name cs in if c == slash then [] else c ∷ rest

unfoldable pub drop_name : List ℕ → List ℕ
drop_name [] = []
drop_name (c ∷ cs) = let rest = drop_name cs in if c == slash then c ∷ cs else rest

unfoldable pub skip_slashes : List ℕ → List ℕ
skip_slashes [] = []
skip_slashes (c ∷ cs) = let rest = skip_slashes cs in if c == slash then rest else c ∷ cs

abbrev pub is_end : List ℕ → Bool
is_end [] = true
is_end (c ∷ cs) = false

-- The first of the entries that has the name, 0 where none has.
unfoldable pub child_of : List ℕ → List Ptr → (Ptr → Dentry) → Ptr
child_of name [] dentries = 0
child_of name (d ∷ ds) dentries =
    let rest = child_of name ds dentries in
    if eqb_ℤ (strcmp name (dentries d).name) (pos 0) then d else rest

-- `dentry` becomes the place, and the mount where something is mounted there.
unfoldable pub move_to : (dentry : Ptr) → (mount : Ptr) → Vfs → Reached
move_to dentry mount s =
    let found = mount_get dentry s in
    record {
      state = s;
      place = record { dentry = dentry; mount = if found == 0 then mount else found };
      result = pos 0;
    }

abbrev pub stopped : ℤ → Namei → Vfs → Reached
stopped result at s = record { state = s; place = at; result = result }

-- `child->inode = inode`, and the child put behind the other entries.
abbrev pub add_child : (child inode dir : Ptr) → Vfs → Vfs
add_child child inode dir s =
    let d = update s.dentries child (record (s.dentries child) { inode = inode }) in
    record s {
      dentries = update d dir (record (d dir) { subdirs = (d dir).subdirs ++ child ∷ [] });
    }

-- What comes behind a name: the rest of the loop, unless it has returned.
abbrev pub go_on : (Namei → Vfs → Option Reached) → Reached → Option Reached
go_on rest r = if is_negative r.result then some r else rest r.place r.state

-- The place where the walk starts.
abbrev pub start_of : List ℕ → Vfs → Namei
start_of [] s = record { dentry = s.fs_root; mount = s.fs_mount }
start_of (c ∷ cs) s = record {
  dentry = if c == slash then (s.mounts s.fs_mount).mount else s.fs_root;
  mount = s.fs_mount;
}

-- NAME_MAX
abbrev pub name_max : ℕ
name_max = 256

-- Whether a name and its closing zero fit into `name`.
unfoldable pub fits : List ℕ → Bool
fits name = ltb (length name) name_max

module _ (drv : Driver) (flags mode : ℕ) where
  -- The inode that the file system gives for a new entry, 0 for NULL.
  abbrev pub look_up : (dir child : Ptr) → Vfs → Vfs × Ptr
  look_up dir child s = if (s.inodes dir).op.lookup then drv.lookup dir child s else (s, 0)

  -- The part of the loop for a name that is not among the entries.
  unfoldable pub find_new : (at_end : Bool) → List ℕ → Namei → Vfs → Option Reached
  find_new at_end name at s =
      let (s1, child) = dentry_alloc name at.dentry s in
      let dir = (s1.dentries at.dentry).inode in
      let (s2, inode) = look_up dir child s1 in
      let (s3, made) = drv.create dir child mode s2 in
      if inode == 0
      then (if at_end && creates flags
          then (if (s2.inodes dir).op.create
              then some (move_to child at.mount (add_child child made at.dentry s3))
              else none)
          else some (stopped enoent at s2))
      else if at_end && creates flags && excludes flags
      then some (stopped eexist at s2)
      else some (move_to child at.mount (add_child child inode at.dentry s2))

  -- The body of the loop, with the name and whether it is the last one.
  unfoldable pub enter_name : (at_end : Bool) → List ℕ → Namei → Vfs → Option Reached
  enter_name at_end name at s =
      let child = child_of name (s.dentries at.dentry).subdirs s.dentries in
      if child == 0
      then find_new at_end name at s
      else if at_end && creates flags && excludes flags
      then some (stopped eexist (record at { dentry = child }) s)
      else some (move_to child at.mount s)

  -- The loop, at what is left of the path.
  unfoldable pub find_from : (fuel : ℕ) → List ℕ → Namei → Vfs → Option Reached
  find_from zero path at s = none
  find_from (suc fuel) path at s =
      let left = skip_slashes (drop_name path) in
      let rest = find_from fuel left in
      elim (is_end path) [
        | true ↦ some (stopped (pos 0) at s)
        | false ↦
            if fits (take_name path)
            then bind (enter_name (is_end left) (take_name path) at s) (go_on rest)
            else none
      ]

  unfoldable pub path_find : (fuel : ℕ) → List ℕ → Vfs → Option Reached
  path_find fuel path s = find_from fuel (skip_slashes path) (start_of path s) s
