-- ===== src/Mmap.antt =====
-- kernel/memory/mmap.c: the memory areas of a process, a list of `struct process_vm` by address.
-- The areas stand in a list of DList; an area is the address of its struct, and the list's head that
-- of the `struct process_mm`. The block that calloc gives for a new area is an argument, and so is
-- the operation of a mapped file. A loop that follows pointers takes fuel, and gives `none` where it
-- runs out.
pub mod Areas
pub mod Find
pub mod Place
pub mod Search
pub mod Unmapped
pub mod Low
pub mod Process
pub mod Brk
use yuzuos.Base.{
  ℕ, zero, suc, ◌+◌, ◌-◌, ◌*◌, ◌/◌, ◌^◌, Bool, true, false, not, ◌||◌, ◌&&◌, Option, none, some,
  ltb, leb, ◌==◌, if◌then◌else◌, update, bit_or, max,
}
use mathlib.Core.Option.{bind}
use mathlib.Core.Option
use yuzuos.Bitmap.{u32}
use yuzuos.DList.{Ptr, Mem, add, is_last, is_empty, set_next, set_prev}
use yuzuos.DList
use yuzuos.Physical.{block_size, block_alloc, block_n_alloc}
use yuzuos.Paging.{Space, map_addr, addr_unmap, present, writable}
use yuzuos.Base.Int.{ℤ, pos, negsuc}

-- The fields of a `struct process_vm` before its list.
pub record Vm : Type 0 where
  pub start : ℕ
  pub end_at : ℕ
  pub flags : ℕ
  pub file : Ptr
  pub mm : Ptr

-- The `struct process_mm` at `at`, with the memory that holds its list and the areas.
pub record Mm : Type 0 where
  pub at : Ptr
  pub brk : ℕ
  pub brk_end : ℕ
  pub cache : ℕ
  pub links : Mem
  pub vms : Ptr → Vm

-- `&mm->list`, `&vm->list` and `dlist_entry` for it.
abbrev pub mm_list : Ptr → Ptr
mm_list mm = mm + 16

abbrev pub vm_list : Ptr → Ptr
vm_list vm = vm + 20

abbrev pub vm_entry : Ptr → Ptr
vm_entry p = p - 20

-- `dlist_entry_next`
abbrev pub next_vm : Ptr → Mm → Ptr
next_vm vm s = vm_entry (s.links.next (vm_list vm))

abbrev pub first_vm : Mm → Ptr
first_vm s = vm_entry (s.links.next (mm_list s.at))

-- `PAGE_ALIGN` and `ALIGN_DOWN` to a block.
abbrev pub page_align : ℕ → ℕ
page_align addr = u32 (addr + block_size - 1) / block_size * block_size

abbrev pub align_down : ℕ → ℕ
align_down addr = addr / block_size * block_size

-- A new area, all zero but for its owner.
abbrev pub calloc_vm : Ptr → Mm → Mm
calloc_vm vma s = record s {
  links = set_next (vm_list vma) 0 (set_prev (vm_list vma) 0 s.links);
  vms = update s.vms vma (record { start = 0; end_at = 0; flags = 0; file = 0; mm = s.at });
}

-- The loop of `mmap_find_unmapped_vm`, at `iter`: the list with the new area, and `addr_found`.
unfoldable pub find_place : (fuel : ℕ) → (addr len vma iter : ℕ) → Mm → Option (Mm × ℕ)
unfolding is_last
find_place zero addr len vma iter s = none
find_place (suc fuel) addr len vma iter s =
    let head = mm_list s.at in
    let next = next_vm iter s in
    let at_end = is_last (vm_list iter) head s.links in
    let behind = record s { links = add (vm_list vma) (vm_list iter) s.links } in
    let rest = find_place fuel addr len vma next s in
    let last_addr = u32 (addr + len) in
    let end_at = (s.vms iter).end_at in
    let gap_end = (s.vms next).start in
    if vm_list iter == head
    then some (s, addr)
    else if leb last_addr (s.vms iter).start
    then some (record s { links = add (vm_list iter) head s.links }, addr)
    else if leb end_at addr && (at_end || (not at_end && leb last_addr gap_end))
    then some (behind, addr)
    else if not at_end
        && (leb end_at addr && ltb addr gap_end)
        && leb len (u32 (gap_end + 2 ^ 32 - end_at))
    then some (behind, u32 (gap_end + 2 ^ 32 - len))
    else rest

-- The fields of the new area, unless `addr_found` is 0.
abbrev pub set_range : (vma len found : ℕ) → Mm → Mm
set_range vma len found s = if found == 0 then s else record s {
  vms = update s.vms vma (record (s.vms vma) { start = found; end_at = u32 (found + len) });
  cache = u32 (found + len);
}

-- Where the search starts.
abbrev pub from_addr : ℕ → Mm → ℕ
from_addr addr s =
    if (addr == 0) || ltb addr s.brk_end
    then (if ltb s.brk_end s.cache then s.cache else s.brk_end)
    else addr

-- The result is `vma`.
unfoldable pub find_unmapped_vm : (fuel : ℕ) → (vma addr len : ℕ) → Mm → Option Mm
unfolding find_place
find_unmapped_vm fuel vma addr len s =
    let s0 = calloc_vm vma s in
    let addr' = from_addr addr s in
    let len' = page_align len in
    let found =
      if is_empty (mm_list s.at) s0.links
      then some (record s0 { links = add (vm_list vma) (mm_list s.at) s0.links }, addr')
      else find_place fuel addr' len' vma (first_vm s0) s0 in
    Option.map (λ (r : Mm × ℕ). set_range vma len' r.1 r.0) found

-- The loop of `mmap_find_vm`, at `iter`.
unfoldable pub find_vm_from : (fuel : ℕ) → (addr iter : ℕ) → Mm → Option Ptr
find_vm_from zero addr iter s = none
find_vm_from (suc fuel) addr iter s =
    let rest = find_vm_from fuel addr (next_vm iter s) s in
    if vm_list iter == mm_list s.at
    then some 0
    else if leb (s.vms iter).start addr && ltb addr (s.vms iter).end_at
    then some iter
    else rest

unfoldable pub find_vm : (fuel : ℕ) → (addr : ℕ) → Mm → Option Ptr
unfolding find_vm_from
find_vm fuel addr s = find_vm_from fuel addr (first_vm s) s

abbrev pub set_end : (vm end_at : ℕ) → Mm → Mm
set_end vm end_at s = record s { vms = update s.vms vm (record (s.vms vm) { end_at = end_at }) }

-- `memcpy(vm, vm_from, sizeof(struct process_vm))`, the links included.
abbrev pub copy_vm : (vm vm_from : ℕ) → Mm → Mm
copy_vm vm vm_from s = record s {
  links =
      set_next (vm_list vm) (s.links.next (vm_list vm_from))
        (set_prev (vm_list vm) (s.links.prev (vm_list vm_from)) s.links);
  vms = update s.vms vm (s.vms vm_from);
}

-- `fresh` is the block for the area that `mmap_find_unmapped_vm` makes.
unfoldable pub expand_vm : (fuel : ℕ) → (fresh vm address : ℕ) → Mm → Option Mm
unfolding find_unmapped_vm is_last
expand_vm fuel fresh vm address s =
    let address' = page_align address in
    let v = s.vms vm in
    let grown = set_end vm address' s in
    let moved =
      find_unmapped_vm fuel fresh 0 (u32 (address' + 2 ^ 32 - v.start))
        (record s { links = DList.remove (vm_list vm) s.links }) in
    if leb address' v.end_at
    then some s
    else if is_last (vm_list vm) (mm_list s.at) s.links
    then some grown
    else if leb address' (s.vms (next_vm vm s)).start
    then some grown
    else Option.map (copy_vm vm fresh) moved
