-- ===== src/Vfs.antt =====
-- kernel/filesystem/virtual.c and virtual.h: files, directory entries, mounts and descriptors.
-- Directory entries, inodes and files are addresses of their structs; the entries of a directory and
-- the mounts are lists in the order of their `struct dlist_head` lists. A text is the list of its
-- bytes before the closing zero. The operations of a file system are a record of functions, and an
-- inode tells which of its pointers are set; a call through NULL is a missing result. calloc gives
-- the blocks `fresh 0`, `fresh 1`, … in turn, and does not fail.
pub mod Path
pub mod Walk
pub mod Entries
pub mod Descriptor
pub mod Open
use yuzuos.Base.{
  ℕ, zero, suc, ◌+◌, ◌-◌, ◌*◌, ◌/◌, ◌^◌, Bool, true, false, not, ◌&&◌, ◌||◌, Option, none, some,
  ltb, ◌==◌, if◌then◌else◌, update, bit_and, bit_or, List, [], ◌∷◌, ◌++◌,
}
use mathlib.Core.Option.{bind}
use mathlib.Core.Option
use yuzuos.Base.Int.{ℤ, pos, negsuc, eqb_ℤ}
use yuzuos.Bitmap.{u32}
use yuzuos.DList.{Ptr}
use yuzuos.Ext2.Lookup.{strcmp}

pub record Dentry : Type 0 where
  pub name : List ℕ
  pub sb : Ptr
  pub inode : Ptr
  pub parent : Ptr
  pub subdirs : List Ptr

-- Which pointers of `struct vfs_inode_op` and `struct vfs_file_op` are set; `fop` is `none` for NULL.
pub record InodeOp : Type 0 where
  pub lookup : Bool
  pub create : Bool
  pub getattr : Bool

pub record FileOp : Type 0 where
  pub open_file : Bool
  pub read : Bool

pub record Inode : Type 0 where
  pub ino : ℕ
  pub mode : ℕ
  pub size : ℕ
  pub blocks : ℕ
  pub blksize : ℕ
  pub nlink : ℕ
  pub uid : ℕ
  pub gid : ℕ
  pub rdev : ℕ
  pub atime : ℕ
  pub mtime : ℕ
  pub ctime : ℕ
  pub count : ℕ
  pub sb : Ptr
  pub op : InodeOp
  pub fop : Option FileOp

pub record File : Type 0 where
  pub flags : ℕ
  pub max_count : ℕ
  pub mode : ℕ
  pub position : ℕ
  pub count : ℕ
  pub op : Option FileOp
  pub dentry : Ptr
  pub mount : Ptr

pub record Mount : Type 0 where
  pub sb : Ptr
  pub root : Ptr
  pub mount : Ptr

-- The fields of `struct vfs_sb` that stat reads.
pub record Sb : Type 0 where
  pub dev : ℕ
  pub blocksize : ℕ
  pub blocksize_bits : ℕ

-- The structs in memory, the mounts in order, the types of file systems, the `fs` and `files` of the
-- current process, what is written in front of its table of descriptors, and the blocks to come.
pub record Vfs : Type 0 where
  pub dentries : Ptr → Dentry
  pub inodes : Ptr → Inode
  pub files : Ptr → File
  pub mounts : Ptr → Mount
  pub sbs : Ptr → Sb
  pub mount_list : List Ptr
  pub type_list : List Ptr
  pub fs_root : Ptr
  pub fs_mount : Ptr
  pub fd : ℕ → Ptr
  pub stray : List (ℤ × Ptr)
  pub fresh : ℕ → Ptr
  pub used : ℕ

pub record Stat : Type 0 where
  pub dev : ℕ
  pub ino : ℕ
  pub mode : ℕ
  pub nlink : ℕ
  pub uid : ℕ
  pub gid : ℕ
  pub rdev : ℕ
  pub size : ℕ
  pub atim : ℕ
  pub mtim : ℕ
  pub ctim : ℕ
  pub blksize : ℕ
  pub blocks : ℕ

-- The functions behind the pointers. A result of 0 of `lookup` is NULL; `read` gives the bytes that
-- it puts into the buffer, and its result.
pub record Driver : Type 0 where
  pub lookup : (inode dentry : Ptr) → Vfs → Vfs × Ptr
  pub create : (inode dentry : Ptr) (mode : ℕ) → Vfs → Vfs × Ptr
  pub getattr : (mount dentry : Ptr) → Vfs → Stat × ℤ
  pub open_file : (inode file : Ptr) → Vfs → Vfs × ℤ
  pub read : (file count ppos : ℕ) → Vfs → Vfs × List ℕ × ℤ

-- The errors of errno.h that are used, as results.
abbrev pub enoent : ℤ
enoent = negsuc 1

abbrev pub ebadf : ℤ
ebadf = negsuc 8

abbrev pub eexist : ℤ
eexist = negsuc 16

abbrev pub einval : ℤ
einval = negsuc 21

abbrev pub is_negative : ℤ → Bool
is_negative (pos n) = false
is_negative (negsuc n) = true

-- `flags & O_CREAT` and `flags & O_EXCL`
abbrev pub creates : ℕ → Bool
creates flags = not (bit_and flags 64 == 0)

abbrev pub excludes : ℕ → Bool
excludes flags = not (bit_and flags 128 == 0)

abbrev pub slash : ℕ
slash = b'/'

-- The first mount at the entry, 0 for NULL.
abbrev pub first_mount : List Ptr → Ptr → (Ptr → Mount) → Ptr
first_mount [] dentry mounts = 0
first_mount (m ∷ ms) dentry mounts =
    let rest = first_mount ms dentry mounts in if (mounts m).mount == dentry then m else rest

unfoldable pub mount_get : Ptr → Vfs → Ptr
mount_get dentry s = first_mount s.mount_list dentry s.mounts

-- The new entry stands at the next block.
unfoldable pub dentry_alloc : List ℕ → (parent : Ptr) → Vfs → Vfs × Ptr
dentry_alloc name parent s =
    let at = s.fresh s.used in
    (
      record s {
        dentries = update s.dentries at (record {
          name = name;
          sb = if parent == 0 then 0 else (s.dentries parent).sb;
          inode = 0;
          parent = parent;
          subdirs = [];
        });
        used = s.used + 1;
      },
      at,
    )

unfoldable pub file_alloc : Vfs → Vfs × Ptr
file_alloc s =
    let at = s.fresh s.used in
    (
      record s {
        files = update s.files at (record {
          flags = 0;
          max_count = 0x7fff_ffff;
          mode = 0;
          position = 0;
          count = 1;
          op = none;
          dentry = 0;
          mount = 0;
        });
        used = s.used + 1;
      },
      at,
    )

abbrev pub no_op : InodeOp
no_op = record { lookup = false; create = false; getattr = false }

unfoldable pub inode_alloc : Vfs → Vfs × Ptr
inode_alloc s =
    let at = s.fresh s.used in
    (
      record s {
        inodes = update s.inodes at (record {
          ino = 0;
          mode = 0;
          size = 0;
          blocks = 0;
          blksize = 0;
          nlink = 0;
          uid = 0;
          gid = 0;
          rdev = 0;
          atime = 0;
          mtime = 0;
          ctime = 0;
          count = 0;
          sb = 0;
          op = no_op;
          fop = none;
        });
        used = s.used + 1;
      },
      at,
    )

-- The fields of an inode, as `virt_fs_getattr` copies them.
abbrev pub stat_of : Inode → Sb → Stat
stat_of i sb = record {
  dev = sb.dev;
  ino = i.ino;
  mode = i.mode;
  nlink = i.nlink;
  uid = i.uid;
  gid = i.gid;
  rdev = i.rdev;
  size = i.size;
  atim = i.atime;
  mtim = i.mtime;
  ctim = i.ctime;
  blksize = i.blksize;
  blocks = i.blocks;
}

-- The loop of `virt_fs_fd_find`, `left` rounds before its end.
unfoldable pub fd_find_from : (left i : ℕ) → Vfs → ℤ
fd_find_from zero i s = einval
fd_find_from (suc left) i s =
    let rest = fd_find_from left (i + 1) s in if s.fd i == 0 then pos i else rest

unfoldable pub fd_find : (limit : ℕ) → Vfs → ℤ
fd_find limit s = fd_find_from (256 - limit) limit s

-- The file of a descriptor, 0 for NULL and for a negative one.
abbrev pub file_at : ℤ → Vfs → Ptr
file_at (pos n) s = s.fd n
file_at (negsuc n) s = 0

module _ (drv : Driver) where
  unfoldable pub getattr : (mount dentry : Ptr) → Vfs → Stat × ℤ
  getattr mount dentry s =
      let i = s.inodes (s.dentries dentry).inode in
      let sb = s.sbs i.sb in
      let st = stat_of i sb in
      let blocks =
        if st.size + sb.blocksize == 0
        then 2 ^ 32 - 1
        else u32 ((st.size + sb.blocksize - 1) / 2 ^ sb.blocksize_bits) in
      if i.op.getattr
      then drv.getattr mount dentry s
      else if i.blksize == 0
      then (record st { blocks = u32 (sb.blocksize / 512 * blocks); blksize = sb.blocksize }, pos 0)
      else (st, pos 0)

  -- The result, with what stands in `stat` where it is 0.
  unfoldable pub fstat : ℤ → Vfs → Option Stat × ℤ
  unfolding getattr
  fstat fd s =
      let file = file_at fd s in
      let r = getattr (s.files file).mount (s.files file).dentry s in
      if is_negative fd then (none, ebadf) else if file == 0 then (none, ebadf) else (some r.0, r.1)

  unfoldable pub fread : (fd : ℤ) → (count : ℕ) → Vfs → Option (Vfs × List ℕ × ℤ)
  fread fd count s =
      let at = file_at fd s in
      let file = s.files at in
      if is_negative fd
      then some (s, [], ebadf)
      else if at == 0
      then some (s, [], ebadf)
      else if not (bit_and file.mode 0x2_0000 == 0)
      then elim file.op [
        | none ↦ none
        | some op ↦ if op.read then some (drv.read at count file.position s) else none
      ]
      else some (s, [], einval)

-- `virt_fs_type_add`
unfoldable pub type_add : Ptr → Vfs → Vfs
type_add type s = record s { type_list = s.type_list ++ type ∷ [] }

-- `mount` is what the type's own mount gives; NULL is a panic.
unfoldable pub mount_root : (mount : Ptr) → Vfs → Option Vfs
mount_root mount s =
    if mount == 0
    then none
    else some (record s {
      mount_list = s.mount_list ++ mount ∷ [];
      fs_mount = mount;
      fs_root = (s.mounts mount).root;
    })

-- `virt_fs_inode_special_init`; a character device is 0x2000 in the bits of S_IFMT.
unfoldable pub inode_special_init : (inode : Ptr) → (mode dev : ℕ) → Vfs → Vfs
inode_special_init inode mode dev s =
    let i = s.inodes inode in
    let rdev = if bit_and mode 0xf000 == 0x2000 then dev else i.rdev in
    record s { inodes = update s.inodes inode (record i { mode = mode; rdev = rdev }) }

-- `virt_fs_init`, with the type of ext2 that `ext2_fs_init` adds and the mount that it gives.
unfoldable pub virt_init : (type mount : Ptr) → Vfs → Option Vfs
unfolding type_add mount_root
virt_init type mount s =
    mount_root mount (type_add type (record s { mount_list = []; type_list = [] }))
