-- ===== src/Vfs/Entries.antt =====
-- kernel/filesystem/virtual.c: paths whose names are among the entries in memory, and the first one
-- that is not.
use yuzuos.Base.{
  ℕ, ◌<◌, ◌≡◌, refl, sym, ap, ◌∙◌, arith, Bool, false, ◌&&◌, Option, none, some, ◌==◌,
  if◌then◌else◌, List, [], ◌∷◌, ◌++◌, length, Bool-cases, inl, inr,
}
use mathlib.Core.List.{append-nil}
use mathlib.Core.Option.{bind, some-injective}
use yuzuos.Base.Int.{pos}
use yuzuos.DList.{Ptr}
use yuzuos.Vfs.{Driver, Vfs, creates, excludes, mount_get, enoent, dentry_alloc}
use yuzuos.Vfs.Path.{
  Namei, Reached, child_of, move_to, stopped, enter_name, find_new, look_up, start_of, path_find,
}
use yuzuos.Vfs.Walk.{AllFit, names_of, walk, path_find-walk, has_no_name}

-- The entry that the names lead to from another one, from name to name.
unfoldable pub follow : Vfs → Ptr → List (List ℕ) → Option Ptr
follow s d [] = some d
follow s d (n ∷ ns) =
    let child = child_of n (s.dentries d).subdirs s.dentries in
    let rest = follow s child ns in if child == 0 then none else rest

-- The last mount on the way, or the one that is there at the start.
unfoldable pub mount_on : Vfs → (mount d : Ptr) → List (List ℕ) → Ptr
mount_on s mount d [] = mount
mount_on s mount d (n ∷ ns) =
    let child = child_of n (s.dentries d).subdirs s.dentries in
    mount_on s (if mount_get child s == 0 then mount else mount_get child s) child ns

abbrev reached : Vfs → (dentry mount : Ptr) → Reached
reached s dentry mount = stopped (pos 0) (record { dentry = dentry; mount = mount }) s

module _ (drv : Driver) (flags mode : ℕ) where
  -- One step over an entry that is there, unless it has to be a new one.
  enter-there :
      (at_end : Bool) (n : List ℕ) (at : Namei) (s : Vfs)
      → (child_of n (s.dentries at.dentry).subdirs s.dentries == 0) ≡ false
      → (at_end && creates flags && excludes flags) ≡ false
      → enter_name drv flags mode at_end n at s
        ≡ some (move_to (child_of n (s.dentries at.dentry).subdirs s.dentries) at.mount s)
  unfolding enter_name
  enter-there at_end n at s there old = rw (there, old) refl

  not_new :
      (at_end : Bool)
      → (creates flags && excludes flags) ≡ false
      → (at_end && creates flags && excludes flags) ≡ false
  not_new at_end old = ground arith

  not_made : (at_end : Bool) → creates flags ≡ false → (at_end && creates flags) ≡ false
  not_made at_end old = ground arith

  not_both : creates flags ≡ false → (creates flags && excludes flags) ≡ false
  not_both old = ground arith

  -- One step over an entry that is there, before the rest of the names.
  walk-there :
      (n : List ℕ) (ns : List (List ℕ)) (at : Namei) (s : Vfs)
      → (child_of n (s.dentries at.dentry).subdirs s.dentries == 0) ≡ false
      → (creates flags && excludes flags) ≡ false
      → (let child = child_of n (s.dentries at.dentry).subdirs s.dentries in
          let mount = mount_get child s in
          walk drv flags mode (n ∷ ns) at s
          ≡ walk drv flags mode ns
              (record { dentry = child; mount = if mount == 0 then at.mount else mount })
              s)
  unfolding walk bind move_to
  walk-there n ns at s there old =
      rw (enter-there (has_no_name ns) n at s there (not_new (has_no_name ns) old)) refl

  -- The names in front of others, where their entries are there.
  walk_entries :
      (ns more : List (List ℕ)) (at : Namei) (s : Vfs) (d : Ptr)
      → (creates flags && excludes flags) ≡ false
      → follow s at.dentry ns ≡ some d
      → walk drv flags mode (ns ++ more) at s
        ≡ walk drv flags mode more
            (record { dentry = d; mount = mount_on s at.mount at.dentry ns })
            s
  unfolding follow mount_on
  walk_entries [] more at s d old f =
      ap (λ (x : Ptr). walk drv flags mode more (record { dentry = x; mount = at.mount }) s)
        (some-injective at.dentry d f)
  walk_entries (n ∷ ns) more at s d old f =
      let child = child_of n (s.dentries at.dentry).subdirs s.dentries in
      let mount = if mount_get child s == 0 then at.mount else mount_get child s in
      elim (Bool-cases (child == 0)) [
        | inl gone ↦ let no_entry = rw gone at f in cc
        | inr there ↦
            walk-there n (ns ++ more) at s there old
            ∙ walk_entries ns more (record { dentry = child; mount = mount }) s d old
                (rw there at f)
      ]

  -- Where every name of a path has less than 256 characters and is among the entries in memory, `virt_fs_path_find` comes to its end
  -- with 0 at the entry that the names lead to, and at the last mount on the way there. It changes
  -- nothing and does not ask the file system, unless the flags are O_CREAT and O_EXCL.
  pub path_find-follow :
      (fuel : ℕ) (path : List ℕ) (s : Vfs) (d : Ptr)
      → length path < fuel
      → AllFit (names_of path)
      → (creates flags && excludes flags) ≡ false
      → follow s (start_of path s).dentry (names_of path) ≡ some d
      → path_find drv flags mode fuel path s
        ≡ some (
            reached s d
              (mount_on s (start_of path s).mount (start_of path s).dentry (names_of path)))
  path_find-follow fuel path s d enough short old f =
      let names = names_of path in
      path_find-walk drv flags mode fuel path s enough short
      ∙ (ap (λ (ns : List (List ℕ)). walk drv flags mode ns (start_of path s) s)
            (sym (append-nil names))
          ∙ (walk_entries names [] (start_of path s) s d old f ∙ unfold walk in refl))

  -- A name that no entry has, in a directory whose file system gives no inode for it.
  enter-missing :
      (at_end : Bool) (n : List ℕ) (at : Namei) (s : Vfs)
      → (at_end && creates flags) ≡ false
      → child_of n (s.dentries at.dentry).subdirs s.dentries ≡ 0
      → (let r = dentry_alloc n at.dentry s in
          (look_up drv flags mode (r.0.dentries at.dentry).inode r.1 r.0).1 ≡ 0)
      → (s' : Vfs) × (enter_name drv flags mode at_end n at s ≡ some (stopped enoent at s'))
  unfolding enter_name find_new
  enter-missing at_end n at s old gone none_there =
      let r = dentry_alloc n at.dentry s in
      (
        (look_up drv flags mode (r.0.dentries at.dentry).inode r.1 r.0).0,
        rw (gone, none_there, old) refl,
      )

  -- Where the names of a path have less than 256 characters each and are among the entries up to a
  -- name that is not, and the file system gives no inode for that one, `virt_fs_path_find` without O_CREAT comes to its end with -ENOENT at
  -- the entry before it, whatever names follow.
  pub path_find-missing :
      (fuel : ℕ) (path : List ℕ) (s : Vfs) (d : Ptr) (n : List ℕ) (ns more : List (List ℕ))
      → length path < fuel
      → AllFit (names_of path)
      → creates flags ≡ false
      → names_of path ≡ ns ++ n ∷ more
      → follow s (start_of path s).dentry ns ≡ some d
      → child_of n (s.dentries d).subdirs s.dentries ≡ 0
      → (let r = dentry_alloc n d s in
          (look_up drv flags mode (r.0.dentries d).inode r.1 r.0).1 ≡ 0)
      → (s' : Vfs) × (path_find drv flags mode fuel path s
          ≡ some (
              stopped enoent
                (record {
                  dentry = d;
                  mount = mount_on s (start_of path s).mount (start_of path s).dentry ns;
                })
                s'))
  path_find-missing fuel path s d n ns more enough short old parts f gone none_there =
      let start = start_of path s in
      let at : Namei = record { dentry = d; mount = mount_on s start.mount start.dentry ns } in
      let (s', e) =
        enter-missing (has_no_name more) n at s (not_made (has_no_name more) old) gone none_there in
      (
        s',
        path_find-walk drv flags mode fuel path s enough short
            ∙ (ap (λ (l : List (List ℕ)). walk drv flags mode l start s) parts
                ∙ (walk_entries ns (n ∷ more) start s d (not_both old) f
                    ∙ unfold walk bind in rw e refl)),
      )
