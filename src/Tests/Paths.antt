-- ===== src/Tests/Paths.antt =====
-- A root directory at 10 with one entry `a` at 20; the root is mounted at 30.
use yuzuos.Base.{
  ℕ, ◌+◌, ◌*◌, ◌≡◌, refl, arith, true, false, some, none, [], ◌∷◌, List, ◌==◌, if◌then◌else◌,
}
use yuzuos.Base.Int.{pos, negsuc}
use yuzuos.DList.{Ptr}
use mathlib.Core.Option.{bind}
use yuzuos.Ext2.Lookup.{strcmp}
use yuzuos.Vfs.{
  mount_get, dentry_alloc, Dentry, Inode, File, Vfs, Driver, Stat, no_op, fread, einval, enoent,
}
use yuzuos.Vfs.Path.{
  fits, find_from, skip_slashes, enter_name, child_of, take_name, drop_name, move_to, path_find,
  start_of, stopped,
}
use yuzuos.Vfs.Walk.{AllFit, names_of, walk, path_find-walk}
use yuzuos.Vfs.Entries.{follow, mount_on, path_find-follow, path_find-missing}
use yuzuos.Vfs.Open.{virt_open}
use yuzuos.Vfs.Descriptor.{open-fread, open-full}

abbrev entries : Ptr → Dentry
entries p =
    if p == 10
    then record { name = []; sb = 40; inode = 11; parent = 0; subdirs = 20 ∷ [] }
    else record { name = b'a' ∷ []; sb = 40; inode = 21; parent = 10; subdirs = [] }

abbrev inode : Inode
inode = record {
  ino = 2;
  mode = 0;
  size = 3;
  blocks = 1;
  blksize = 1024;
  nlink = 1;
  uid = 0;
  gid = 0;
  rdev = 0;
  atime = 0;
  mtime = 0;
  ctime = 0;
  count = 0;
  sb = 40;
  op = no_op;
  fop = some (record { open_file = false; read = true });
}

abbrev no_file : File
no_file = record {
  flags = 0;
  max_count = 0;
  mode = 0;
  position = 0;
  count = 0;
  op = none;
  dentry = 0;
  mount = 0;
}

-- Only the descriptor 0 is taken.
abbrev disk : Vfs
disk = record {
  dentries = entries;
  inodes = λ p. inode;
  files = λ p. no_file;
  mounts = λ p. record { sb = 40; root = 10; mount = 10 };
  sbs = λ p. record { dev = 0; blocksize = 1024; blocksize_bits = 10 };
  mount_list = 30 ∷ [];
  type_list = [];
  fs_root = 10;
  fs_mount = 30;
  fd = λ n. if n == 0 then 900 else 0;
  stray = [];
  fresh = λ k. 1000 + 100 * k;
  used = 0;
}

abbrev full : Vfs
full = record disk { fd = λ n. 900 }

abbrev no_stat : Stat
no_stat = record {
  dev = 0;
  ino = 0;
  mode = 0;
  nlink = 0;
  uid = 0;
  gid = 0;
  rdev = 0;
  size = 0;
  atim = 0;
  mtim = 0;
  ctim = 0;
  blksize = 0;
  blocks = 0;
}

-- A file system whose reads give three bytes, and that finds and makes nothing.
abbrev driver : Driver
driver = record {
  lookup = λ inode dentry s. (s, 0);
  create = λ inode dentry mode s. (s, 0);
  getattr = λ mount dentry s. (no_stat, pos 0);
  open_file = λ inode file s. (s, pos 0);
  read = λ file count ppos s. (s, 1 ∷ 2 ∷ 3 ∷ [], pos 3);
}

-- `//a/` and `/a/b/c`
abbrev slashed : List ℕ
slashed = b'/' ∷ b'/' ∷ b'a' ∷ b'/' ∷ []

abbrev deep : List ℕ
deep = b'/' ∷ b'a' ∷ b'/' ∷ b'b' ∷ b'/' ∷ b'c' ∷ []

slashed_short : AllFit (names_of slashed)
unfolding names_of fits
slashed_short = (refl, tt)

path_find-walk_example :
    path_find driver 0 0 5 slashed disk
    ≡ walk driver 0 0 (names_of slashed) (start_of slashed disk) disk
path_find-walk_example = path_find-walk driver 0 0 5 slashed disk (omega arith) slashed_short

path_find-follow_example :
    path_find driver 0 0 5 slashed disk
    ≡ some (
        stopped
          (pos 0)
          (record { dentry = 20; mount = mount_on disk 30 10 (names_of slashed) })
          disk)
unfolding fits follow names_of child_of strcmp
path_find-follow_example =
    path_find-follow driver 0 0 5 slashed disk 20 (omega arith) slashed_short refl refl

path_find-missing_example :
    (s' : Vfs) × (path_find driver 0 0 7 deep disk
      ≡ some (
          stopped enoent
            (record { dentry = 20; mount = mount_on disk 30 10 ((b'a' ∷ []) ∷ []) })
            s'))
unfolding fits follow names_of child_of strcmp dentry_alloc
path_find-missing_example =
    path_find-missing driver 0 0 7 deep disk 20 (b'b' ∷ []) ((b'a' ∷ []) ∷ []) ((b'c' ∷ []) ∷ [])
      (omega arith) (refl, (refl, (refl, tt))) refl refl refl refl refl

open-fread_example :
    (s2 : Vfs) × (virt_open driver 5 slashed 0 0 disk ≡ some (s2, pos 1))
    × (s2.fd 1 ≡ 1000)
    × (fread driver (pos 1) 8 s2
        ≡ some (if 0 == 1 then (s2, [], einval) else driver.read (s2.fd 1) 8 0 s2))
unfolding fits path_find find_from skip_slashes bind enter_name child_of strcmp take_name drop_name
    move_to mount_get
open-fread_example =
    open-fread driver 5 slashed 0 0 1 8 disk disk (record { dentry = 20; mount = 30 })
      (record { open_file = false; read = true }) refl (omega arith) (omega arith) refl
      (λ m below. ground arith) refl refl refl refl

open-full_example :
    (s2 : Vfs) × (virt_open driver 5 slashed 0 0 full ≡ some (s2, negsuc 21))
    × (s2.stray ≡ (negsuc 21, 1000) ∷ [])
    × (s2.fd ≡ full.fd)
unfolding fits path_find find_from skip_slashes bind enter_name child_of strcmp take_name drop_name
    move_to mount_get
open-full_example =
    open-full driver 5 slashed 0 0 full full (record { dentry = 20; mount = 30 }) refl
      (λ m below. refl) refl
