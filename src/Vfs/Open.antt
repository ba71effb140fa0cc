-- ===== src/Vfs/Open.antt =====
-- kernel/filesystem/virtual.c: virt_fs_open and virt_fs_read.
use yuzuos.Base.{
  ℕ, ◌+◌, Bool, false, Option, none, some, ◌==◌, if◌then◌else◌, update, bit_and, bit_or, List, [],
  ◌∷◌, ◌++◌,
}
use mathlib.Core.Option.{bind}
use yuzuos.Base.Int.{ℤ, pos, negsuc}
use yuzuos.Bitmap.{u32}
use yuzuos.DList.{Ptr}
use yuzuos.Vfs.{Driver, Vfs, FileOp, creates, is_negative, fd_find, file_alloc, fstat, fread}
use yuzuos.Vfs.Path.{Namei, Reached, path_find}

-- OPEN_FMODE, and the bits that `virt_fs_open` adds.
abbrev pub open_fmode : ℕ → ℕ
open_fmode flags = bit_or (bit_and (u32 (flags + 1)) 3) (bit_and flags 0x400_0000)

unfoldable pub mode_of : ℕ → ℕ
mode_of flags =
    let m = open_fmode flags in
    let r = if bit_and m 1 == 0 then m else bit_or m 0x2_0000 in
    if bit_and r 2 == 0 then r else bit_or r 0x4_0000

-- `sched_process_get()->files->fd[fd] = file`; a negative `fd` is a place in front of the table.
unfoldable pub set_fd : ℤ → Ptr → Vfs → Vfs
set_fd (pos n) file s = record s { fd = update s.fd n file }
set_fd (negsuc n) file s = record s { stray = s.stray ++ (negsuc n, file) ∷ [] }

-- The file for the place that the walk has reached.
unfoldable pub new_file : (flags : ℕ) → Namei → Vfs → Vfs × Ptr
new_file flags at s =
    let (s1, file) = file_alloc s in
    let inode = s.inodes (s.dentries at.dentry).inode in
    let f = s1.files file in
    (
      record s1 {
        files = update s1.files file (record f {
          dentry = at.dentry;
          mount = at.mount;
          flags = flags;
          mode = mode_of flags;
          op = inode.fop;
        });
      },
      file,
    )

-- `atomic_inc(&file->dentry->inode->count)`
unfoldable pub count_inode : (file : Ptr) → Vfs → Vfs
count_inode file s =
    let at = (s.dentries (s.files file).dentry).inode in
    let i = s.inodes at in
    record s { inodes = update s.inodes at (record i { count = u32 (i.count + 1) }) }

abbrev pub has_open : Option FileOp → Bool
has_open none = false
has_open (some op) = op.open_file

module _ (drv : Driver) where
  -- `file->op->open`, where it is set.
  unfoldable pub call_open : (flags : ℕ) → Namei → Vfs × Ptr → Vfs × ℤ
  call_open flags at r =
      let inode = (r.0.dentries at.dentry).inode in
      if has_open (r.0.files r.1).op then drv.open_file inode r.1 r.0 else (r.0, pos 0)

  -- What `virt_fs_open` does behind the walk.
  unfoldable pub open_at : (fd : ℤ) → (flags : ℕ) → Namei → Vfs → Vfs × ℤ
  open_at fd flags at s =
      let r = new_file flags at s in
      let opened = call_open flags at r in
      if is_negative opened.1 then opened else (set_fd fd r.1 (count_inode r.1 opened.0), fd)

  -- `mode` is the argument behind the flags, which is only read with O_CREAT.
  unfoldable pub virt_open : (fuel : ℕ) → List ℕ → (flags mode : ℕ) → Vfs → Option (Vfs × ℤ)
  virt_open fuel path flags mode s =
      let fd = fd_find 0 s in
      bind (path_find drv flags (if creates flags then mode else 0) fuel path s) (λ (r : Reached).
        if is_negative r.result
        then some (r.state, r.result)
        else some (open_at fd flags r.place r.state))

  -- The bytes, `none` for NULL. O_RDWR is 2.
  unfoldable pub virt_read : (fuel : ℕ) → List ℕ → Vfs → Option (Vfs × Option (List ℕ))
  virt_read fuel path s = bind (virt_open fuel path 2 0 s) (λ (r : Vfs × ℤ).
      let st = fstat drv r.1 r.0 in
      if is_negative r.1
      then some (r.0, none)
      else if is_negative st.1
      then some (r.0, none)
      else elim st.0 [
        | none ↦ some (r.0, none)
        | some stat ↦
            bind (fread drv r.1 stat.size r.0)
              (λ (q : Vfs × List ℕ × ℤ). some (q.0, if is_negative q.2 then none else some q.1))
      ])
