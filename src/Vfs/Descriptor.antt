-- ===== src/Vfs/Descriptor.antt =====
-- kernel/filesystem/virtual.c: the descriptor that virt_fs_open takes, and reads from it.
use yuzuos.Base.{
  ℕ, zero, suc, ◌+◌, ◌-◌, ◌<◌, ◌≡◌, refl, ap, ◌∙◌, arith, Bool, true, false, not, Option, none,
  some, ◌==◌, if◌then◌else◌, bit_and, List, [], ◌∷◌, ◌++◌, Bool-cases, inl, inr,
}
use mathlib.Core.Option.{bind}
use yuzuos.Base.Search.{find, find-none, find-least}
use yuzuos.Base.Int.{ℤ, pos, negsuc}
use yuzuos.DList.{Ptr}
use yuzuos.Vfs.{
  Driver, Vfs, FileOp, File, fd_find_from, fd_find, einval, fread, creates, file_alloc,
}
use yuzuos.Vfs.Path.{Namei, path_find}
use yuzuos.Vfs.Open.{
  mode_of, set_fd, new_file, has_open, call_open, open_at, virt_open, count_inode,
}

-- What a search for a descriptor gives as a result.
abbrev pub or_einval : Option ℕ → ℤ
or_einval none = einval
or_einval (some n) = pos n

fd_find_from-find :
    (left i : ℕ) (s : Vfs) → fd_find_from left i s ≡ or_einval (find (λ n. s.fd n == 0) left i)
unfolding fd_find_from find
fd_find_from-find zero i s = refl
fd_find_from-find (suc left) i s = elim (Bool-cases (s.fd i == 0)) [
  | inl free ↦ rw free refl
  | inr taken ↦ rw taken (fd_find_from-find left (i + 1) s)
]

fd_find-find :
    (limit : ℕ) (s : Vfs)
    → fd_find limit s ≡ or_einval (find (λ n. s.fd n == 0) (256 - limit) limit)
unfolding fd_find
fd_find-find limit s = fd_find_from-find (256 - limit) limit s

-- The least free descriptor.
pub fd_find-least :
    (s : Vfs) (n : ℕ)
    → n < 256
    → s.fd n ≡ 0
    → ((m : ℕ) → m < n → (s.fd m == 0) ≡ false)
    → fd_find 0 s ≡ pos n
fd_find-least s n small free taken =
    fd_find-find 0 s
    ∙ ap or_einval (
        find-least (λ k. s.fd k == 0) 256 0 n (ground (arith, free)) (omega arith) (omega arith)
          (λ m _ below. taken m below))

-- The table of descriptors is full up to the bound of the search.
pub fd_find-full : (s : Vfs) → ((m : ℕ) → m < 256 → (s.fd m == 0) ≡ false) → fd_find 0 s ≡ einval
fd_find-full s full =
    fd_find-find 0 s
    ∙ ap or_einval (find-none (λ k. s.fd k == 0) 256 0 (λ m _ below. full m (omega arith)))

-- Whether a file that is opened with the flags may be read.
abbrev can_read : ℕ → Bool
can_read flags = not (bit_and (mode_of flags) 0x2_0000 == 0)

access_of : (flags : ℕ) → flags < 3 → can_read flags ≡ not (flags == 1)
unfolding mode_of
access_of zero small = refl
access_of (suc zero) small = refl
access_of (suc (suc zero)) small = refl
access_of (suc (suc (suc n))) small = absurd (omega arith)

-- The file that `virt_fs_open` makes.
abbrev file_of : (flags : ℕ) → Namei → Vfs → File
file_of flags at s = record {
  flags = flags;
  max_count = 0x7fff_ffff;
  mode = mode_of flags;
  position = 0;
  count = 1;
  op = (s.inodes (s.dentries at.dentry).inode).fop;
  dentry = at.dentry;
  mount = at.mount;
}

new_file-file :
    (flags : ℕ) (at : Namei) (s : Vfs)
    → ((new_file flags at s).0.files (s.fresh s.used) ≡ file_of flags at s)
      × ((new_file flags at s).1 ≡ s.fresh s.used)
unfolding new_file file_alloc
new_file-file flags at s =
    let same : (s.fresh s.used == s.fresh s.used) ≡ true = ground arith in (rw same refl, refl)

count_inode-files : (file : Ptr) (s : Vfs) → (count_inode file s).files ≡ s.files
unfolding count_inode
count_inode-files file s = refl

call_open-plain :
    (drv : Driver) (flags : ℕ) (at : Namei) (r : Vfs × Ptr)
    → has_open (r.0.files r.1).op ≡ false
    → call_open drv flags at r ≡ (r.0, pos 0)
unfolding call_open
call_open-plain drv flags at r plain = rw plain refl

set_fd-files : (fd : ℤ) (file : Ptr) (s : Vfs) → (set_fd fd file s).files ≡ s.files
unfolding set_fd
set_fd-files (pos n) file s = refl
set_fd-files (negsuc n) file s = refl

module _ (drv : Driver) (flags : ℕ) (at : Namei) (s1 : Vfs) where
  -- The state in which `virt_fs_open` ends, and the file.
  abbrev made : Vfs × Ptr
  made = new_file flags at s1

  abbrev opened : ℤ → Vfs
  opened fd = set_fd fd made.1 (count_inode made.1 made.0)

  open_at-plain :
      (fd : ℤ)
      → has_open (s1.inodes (s1.dentries at.dentry).inode).fop ≡ false
      → open_at drv fd flags at s1 ≡ (opened fd, fd)
  unfolding open_at
  open_at-plain fd plain =
      let f = new_file-file flags at s1 in
      let file : made.0.files made.1 ≡ file_of flags at s1 =
        ap (λ (p : Ptr). made.0.files p) f.1 ∙ f.0 in
      let plain' : has_open (made.0.files made.1).op ≡ false =
        ap (λ (x : File). has_open x.op) file ∙ plain in
      rw (call_open-plain drv flags at made plain') refl

  opened-file : (fd : ℤ) → (opened fd).files (s1.fresh s1.used) ≡ file_of flags at s1
  opened-file fd =
      ap (λ (g : Ptr → File). g (s1.fresh s1.used))
        (set_fd-files fd made.1 (count_inode made.1 made.0) ∙ count_inode-files made.1 made.0)
      ∙ (new_file-file flags at s1).0

  opened-fd : (n : ℕ) → (opened (pos n)).fd n ≡ s1.fresh s1.used
  unfolding set_fd new_file file_alloc count_inode
  opened-fd n = let same : (n == n) ≡ true = ground arith in rw same refl

  opened-stray :
      ((opened (negsuc 21)).stray ≡ s1.stray ++ (negsuc 21, s1.fresh s1.used) ∷ [])
      × ((opened (negsuc 21)).fd ≡ s1.fd)
  unfolding set_fd new_file file_alloc count_inode
  opened-stray = (refl, refl)

-- What a read from a file gives that has been opened with the flags.
abbrev read_result : (drv : Driver) (flags file count : ℕ) → Vfs → Vfs × List ℕ × ℤ
read_result drv flags file count s =
    if can_read flags then drv.read file count 0 s else (s, [], einval)

fread-file :
    (drv : Driver) (n count flags : ℕ) (s : Vfs) (op : FileOp)
    → (s.fd n == 0) ≡ false
    → (s.files (s.fd n)).mode ≡ mode_of flags
    → (s.files (s.fd n)).position ≡ 0
    → (s.files (s.fd n)).op ≡ some op
    → op.read ≡ true
    → fread drv (pos n) count s ≡ some (read_result drv flags (s.fd n) count s)
unfolding fread
fread-file drv n count flags s op there mode start fop reads = elim (Bool-cases (can_read flags)) [
  | inl yes_read ↦
      rw (there, mode, fop, reads, yes_read)
        (ap (λ (p : ℕ). some (drv.read (s.fd n) count p s)) start)
  | inr not_read ↦ rw (there, mode, not_read) refl
]

-- `virt_fs_open` of a path whose walk comes to its end takes the least free descriptor below 256, for
-- a file of a file system with `read` and without `open`, where the flags are O_RDONLY, O_WRONLY or
-- O_RDWR and the block for the file is not NULL. A `virt_fs_fread` from it then reads from the
-- position 0, and gives -EINVAL where the flags are O_WRONLY.
pub open-fread :
    (drv : Driver) (fuel : ℕ) (path : List ℕ) (flags mode n count : ℕ) (s s1 : Vfs) (at : Namei)
    (op : FileOp)
    → path_find drv flags (if creates flags then mode else 0) fuel path s
      ≡ some (record { state = s1; place = at; result = pos 0 })
    → flags < 3
    → n < 256
    → s.fd n ≡ 0
    → ((m : ℕ) → m < n → (s.fd m == 0) ≡ false)
    → (s1.inodes (s1.dentries at.dentry).inode).fop ≡ some op
    → op.open_file ≡ false
    → op.read ≡ true
    → (s1.fresh s1.used == 0) ≡ false
    → (s2 : Vfs) × (virt_open drv fuel path flags mode s ≡ some (s2, pos n))
      × (s2.fd n ≡ s1.fresh s1.used)
      × (fread drv (pos n) count s2
          ≡ some (if flags == 1 then (s2, [], einval) else drv.read (s2.fd n) count 0 s2))
unfolding virt_open bind
open-fread drv fuel path flags mode n count s s1 at op walked access small free taken fop plain
      reads there =
    let least = fd_find-least s n small free taken in
    let s2 = opened drv flags at s1 (pos n) in
    let plain' : has_open (s1.inodes (s1.dentries at.dentry).inode).fop ≡ false = rw fop plain in
    let held : s2.fd n ≡ s1.fresh s1.used = opened-fd drv flags at s1 n in
    let file : s2.files (s2.fd n) ≡ file_of flags at s1 =
      ap (λ (p : Ptr). s2.files p) held ∙ opened-file drv flags at s1 (pos n) in
    let result =
      fread-file drv n count flags s2 op (ap (λ (p : Ptr). p == 0) held ∙ there)
        (ap (λ (f : File). f.mode) file) (ap (λ (f : File). f.position) file)
        (ap (λ (f : File). f.op) file ∙ fop) reads in
    let readable = access_of flags access in
    (
      s2,
      rw (walked, least, open_at-plain drv flags at s1 (pos n) plain') refl,
      held,
      elim (Bool-cases (flags == 1)) [
        | inl writes ↦ result ∙ rw (readable, writes) refl
        | inr not_only ↦ result ∙ rw (readable, not_only) refl
      ],
    )

-- Where every descriptor below 256 is taken, `virt_fs_open` of a path whose walk comes to its end, for
-- a file without `open`, still makes the file: it returns -EINVAL and writes the file to the place
-- -22 of the table of descriptors, in front of its start, and leaves the table as the walk left it.
pub open-full :
    (drv : Driver) (fuel : ℕ) (path : List ℕ) (flags mode : ℕ) (s s1 : Vfs) (at : Namei)
    → path_find drv flags (if creates flags then mode else 0) fuel path s
      ≡ some (record { state = s1; place = at; result = pos 0 })
    → ((m : ℕ) → m < 256 → (s.fd m == 0) ≡ false)
    → has_open (s1.inodes (s1.dentries at.dentry).inode).fop ≡ false
    → (s2 : Vfs) × (virt_open drv fuel path flags mode s ≡ some (s2, negsuc 21))
      × (s2.stray ≡ s1.stray ++ (negsuc 21, s1.fresh s1.used) ∷ [])
      × (s2.fd ≡ s1.fd)
unfolding virt_open bind
open-full drv fuel path flags mode s s1 at walked full plain =
    let s2 = opened drv flags at s1 (negsuc 21) in
    (
      s2,
      rw (walked, fd_find-full s full, open_at-plain drv flags at s1 (negsuc 21) plain) refl,
      (opened-stray drv flags at s1).0,
      (opened-stray drv flags at s1).1,
    )
