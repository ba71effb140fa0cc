-- ===== src/Elf32.antt =====
-- kernel/task/elf32.c and elf32.h: a program loaded into the memory of a process.
-- The file that virt_fs_read gives stands in memory at `buffer`, 0 for NULL. The blocks that calloc
-- gives for new memory areas are arguments, and so is what stands in the frames that a mapping puts
-- behind the pages of its area: the bytes that were at those addresses are lost.
pub mod Segment
use yuzuos.Base.{
  ℕ, zero, suc, ◌+◌, ◌-◌, ◌*◌, ◌/◌, ◌^◌, Bool, true, false, not, ◌||◌, ◌&&◌, Option, none, some,
  ltb, ◌==◌, if◌then◌else◌,
}
use mathlib.Core.Option.{bind}
use mathlib.Core.Option
use yuzuos.Base.Int.{ℤ, pos, negsuc}
use yuzuos.Bitmap.{u32}
use yuzuos.DList.{Ptr}
use yuzuos.Mmap.{Mm, Vm, find_vm, align_down}
use yuzuos.Physical.{block_size, div_ceil}
use yuzuos.Mmap.Process.{Proc, mmap_map, area_for}
use yuzuos.Strings.{memcpy, memset, is_in}

-- The numbers of two and four bytes at an address.
abbrev pub half_at : (ℕ → ℕ) → ℕ → ℕ
half_at m p = m p + 2 ^ 8 * m (p + 1)

abbrev pub word_at : (ℕ → ℕ) → ℕ → ℕ
word_at m p = half_at m p + 2 ^ 16 * half_at m (p + 2)

-- The fields of `struct elf32_ehdr` that are used, and of `struct elf32_phdr`.
pub record Ehdr : Type 0 where
  pub ident : ℕ → ℕ
  pub type : ℕ
  pub machine : ℕ
  pub entry : ℕ
  pub phoff : ℕ
  pub phentsize : ℕ
  pub phnum : ℕ

abbrev pub ehdr_at : (ℕ → ℕ) → ℕ → Ehdr
ehdr_at m p = record {
  ident = λ i. m (p + i);
  type = half_at m (p + 16);
  machine = half_at m (p + 18);
  entry = word_at m (p + 24);
  phoff = word_at m (p + 28);
  phentsize = half_at m (p + 42);
  phnum = half_at m (p + 44);
}

pub record Phdr : Type 0 where
  pub type : ℕ
  pub offset : ℕ
  pub vaddr : ℕ
  pub filesz : ℕ
  pub memsz : ℕ

abbrev pub phdr_at : (ℕ → ℕ) → ℕ → Phdr
phdr_at m p = record {
  type = word_at m p;
  offset = word_at m (p + 4);
  vaddr = word_at m (p + 8);
  filesz = word_at m (p + 16);
  memsz = word_at m (p + 20);
}

-- 0 for success, and the errors below 0.
unfoldable pub elf_verify : Ehdr → ℤ
elf_verify h =
    if not
      ((h.ident 0 == 0x7f) && (h.ident 1 == b'E') && (h.ident 2 == b'L') && (h.ident 3 == b'F'))
    then negsuc 0
    else if not (h.ident 4 == 1)
    then negsuc 1
    else if not (h.ident 5 == 1)
    then negsuc 2
    else if not (h.ident 6 == 1)
    then negsuc 4
    else if not (h.machine == 3)
    then negsuc 1
    else if not (h.type == 2)
    then negsuc 3
    else pos 0

abbrev pub is_success : ℤ → Bool
is_success (pos n) = n == 0
is_success (negsuc n) = false

-- The process with its memory.
pub record Image : Type 0 where
  pub proc : Proc
  pub memory : ℕ → ℕ

-- `struct elf32_layout`
pub record Layout : Type 0 where
  pub stack : ℕ
  pub entry : ℕ

-- SCHED_HEAP_SIZE, SCHED_STACK_SIZE and HEAP_USER_TOP
abbrev pub heap_size : ℕ
heap_size = 0x2_0000

abbrev pub stack_size : ℕ
stack_size = 0x2000

abbrev pub heap_user_top : ℕ
heap_user_top = 0x4000_0000

-- The bytes of a segment, and zeros up to its size in memory.
abbrev pub set_segment : (buffer : ℕ) → Phdr → Proc → (ℕ → ℕ) → Image
set_segment buffer h proc memory = record {
  proc = proc;
  memory = memcpy h.vaddr (buffer + h.offset) h.filesz (memset h.vaddr 0 h.memsz memory);
}

-- Whether an address lies in the pages that the loop of `mmap_map` maps for an area.
abbrev pub in_pages : Vm → ℕ → Bool
in_pages v a =
    is_in (v.start / block_size) (div_ceil (v.end_at - v.start) block_size) (a / block_size)

-- Memory once those pages have new frames, with what stands in the frames.
abbrev pub remap : (content : ℕ → ℕ) → Vm → (ℕ → ℕ) → ℕ → ℕ
remap content v memory a = if in_pages v a then content a else memory a

module _ (file_mmap : Ptr → Ptr → Proc → Proc) (fds : ℕ → Ptr) (fuel : ℕ) (fresh : ℕ → Ptr)
    (content : ℕ → ℕ → ℕ) where
  -- A mapping without a file, in the block `fresh k` where it needs one.
  abbrev pub map_anonymous : (k addr len : ℕ) → Proc → Option (Proc × ℕ)
  map_anonymous k addr len p = mmap_map file_mmap fds fuel (fresh k) addr len (negsuc 0) p

  -- The area whose pages `mmap_map` maps: the one that holds the address, grown if need be, or a new
  -- one.
  abbrev pub mapped_area : (k addr len : ℕ) → Proc → Option Vm
  mapped_area k addr len p = bind (find_vm fuel (align_down addr) p.mm) (λ vm.
      Option.map (λ (r : Mm × Ptr). (r.0).vms r.1)
        (area_for file_mmap fds fuel (fresh k) addr len vm p.mm))

  -- The mapping, with what it makes of memory; the frames of the mapping `k` hold `content k`.
  unfoldable pub map_memory : (k addr len : ℕ) → Image → Option (Image × ℕ)
  map_memory k addr len im = bind (mapped_area k addr len im.proc) (λ v.
      Option.map
        (λ (r : Proc × ℕ). (record { proc = r.0; memory = remap (content k) v im.memory }, r.1))
        (map_anonymous k addr len im.proc))

  -- One program header; the three kinds of section differ in their log lines only.
  unfoldable pub load_segment : (buffer k : ℕ) → Phdr → Image → Option Image
  unfolding map_memory
  load_segment buffer k h im =
      if not (h.type == 1)
      then some im
      else Option.map (λ (r : Image × ℕ). set_segment buffer h r.0.proc r.0.memory)
          (map_memory k h.vaddr h.memsz im)

  -- The loop over the program headers, at `pheader`.
  unfoldable pub load_segments : (rounds : ℕ) → (buffer pheader end_at k : ℕ) → Image → Option Image
  unfolding load_segment
  load_segments zero buffer pheader end_at k im = none
  load_segments (suc rounds) buffer pheader end_at k im =
      if ltb pheader end_at
      then bind (load_segment buffer k (phdr_at im.memory pheader) im)
          (λ im'. load_segments rounds buffer (pheader + 32) end_at (k + 1) im')
      else some im

  -- The heap and the stack, in the blocks `fresh k` and `fresh (k + 1)`.
  unfoldable pub lay_out : (k entry : ℕ) → Image → Option (Image × Layout)
  unfolding map_memory
  lay_out k entry im = bind (map_memory k 0 heap_size im) (λ h.
      let p = h.0.proc in
      let m = p.mm in
      let im1 : Image = record (h.0) {
        proc = record p { mm = record m { brk = h.1; brk_end = heap_user_top } };
      } in
      let layout : ℕ → Layout =
        λ stack. record { stack = u32 (stack + stack_size); entry = entry } in
      Option.map (λ (s : Image × ℕ). (s.0, layout s.1)) (map_memory (k + 1) 0 stack_size im1))

  -- The image afterwards, and the layout, `none` for NULL.
  pub elf32_load : (buffer k : ℕ) → Image → Option (Image × Option Layout)
  unfolding elf_verify load_segments lay_out
  elf32_load buffer k im =
      let h = ehdr_at im.memory buffer in
      let start = buffer + h.phoff in
      if buffer == 0
      then some (im, none)
      else if not (is_success (elf_verify h)) || (h.phoff == 0)
      then some (im, none)
      else bind (load_segments fuel buffer start (start + h.phentsize * h.phnum) 0 im)
          (λ im1. Option.map (λ (r : Image × Layout). (r.0, some r.1)) (lay_out k h.entry im1))
