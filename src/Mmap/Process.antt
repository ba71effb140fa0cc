-- ===== src/Mmap/Process.antt =====
-- kernel/memory/mmap.c: mmap_map and mmap_brk, with the pages behind the areas.
use yuzuos.Base.{
  ℕ, zero, suc, ◌+◌, ◌-◌, ◌/◌, ◌^◌, not, ◌||◌, Option, none, some, ltb, leb, ◌==◌, if◌then◌else◌,
  update, bit_or,
}
use mathlib.Core.Option.{bind}
use mathlib.Core.Option
use yuzuos.Bitmap.{u32}
use yuzuos.DList.{Ptr}
use yuzuos.Physical.{block_size, block_alloc, block_n_alloc}
use yuzuos.Paging.{Space, map_addr, addr_unmap, present, writable}
use yuzuos.Base.Int.{ℤ, pos, negsuc}
use yuzuos.Mmap.{Mm, align_down, copy_vm, expand_vm, find_unmapped_vm, find_vm, page_align, set_end}

-- The areas and the pages of the process.
pub record Proc : Type 0 where
  pub mm : Mm
  pub space : Space

-- PAGE_TBL_PRESENT | PAGE_TBL_WRITABLE | PAGE_TBL_USER
abbrev pub user_flags : ℕ
user_flags = bit_or (bit_or present writable) 4

-- The loop of `mmap_map` over the pages, each with a frame of its own.
unfoldable pub map_new : (fuel : ℕ) → (virtual end_at : ℕ) → Space → Option Space
map_new zero virtual end_at s = none
map_new (suc fuel) virtual end_at s =
    let frame = block_alloc s.phys in
    let rest =
      map_new fuel (u32 (virtual + block_size)) end_at
        (map_addr frame.1 virtual user_flags (record s { phys = frame.0 })) in
    if ltb virtual end_at then rest else some s

-- The loop of `mmap_brk` over the pages, with frames one behind the other.
unfoldable pub map_run : (fuel : ℕ) → (physical virtual end_at : ℕ) → Space → Option Space
map_run zero physical virtual end_at s = none
map_run (suc fuel) physical virtual end_at s =
    let rest =
      map_run fuel (u32 (physical + block_size)) (u32 (virtual + block_size)) end_at
        (map_addr physical virtual user_flags s) in
    if ltb virtual end_at then rest else some s

-- The loop of `mmap_brk` that unmaps; its test does not depend on `virtual`.
unfoldable pub unmap_run : (fuel : ℕ) → (virtual addr end_at : ℕ) → Space → Option Space
unmap_run zero virtual addr end_at s = none
unmap_run (suc fuel) virtual addr end_at s =
    let rest = unmap_run fuel (u32 (virtual + block_size)) addr end_at (addr_unmap virtual s) in
    if ltb addr end_at then rest else some s

-- `process_file->op->mmap(process_file, vm)`, and the files of the process; `fresh` is the block that
-- calloc gives.
module _ (file_mmap : Ptr → Ptr → Proc → Proc) (fds : ℕ → Ptr) (fuel : ℕ) where
  -- The file of a descriptor, NULL for a negative one.
  abbrev pub file_of : ℤ → Ptr
  file_of (pos fd) = fds fd
  file_of (negsuc fd) = 0

  -- The area for the mapping.
  unfoldable pub area_for : (fresh addr len vm : ℕ) → Mm → Option (Mm × Ptr)
  unfolding find_unmapped_vm expand_vm
  area_for fresh addr len vm s =
      if vm == 0
      then Option.map (λ (s1 : Mm). (s1, fresh))
          (find_unmapped_vm fuel fresh (align_down addr) len s)
      else if ltb (s.vms vm).end_at (u32 (addr + len))
      then Option.map (λ (s1 : Mm). (s1, vm)) (expand_vm fuel fresh vm (u32 (addr + len)) s)
      else some (s, vm)

  -- What stands behind the area: the file, or pages.
  unfoldable pub back_area : (vm file : ℕ) → Proc → Option Proc
  unfolding map_new
  back_area vm file p =
      let mapped = file_mmap file vm p in
      let v = p.mm.vms vm in
      let s = mapped.mm in
      if not (file == 0)
      then some (record mapped {
        mm = record s { vms = update s.vms vm (record (s.vms vm) { file = file }) };
      })
      else Option.map (λ (space : Space). record p { space = space })
          (map_new fuel v.start v.end_at p.space)

  unfoldable pub mmap_map : (fresh addr len : ℕ) → ℤ → Proc → Option (Proc × ℕ)
  unfolding area_for back_area find_vm
  mmap_map fresh addr len fd p = bind (find_vm fuel (align_down addr) p.mm) (λ vm.
      bind (area_for fresh addr len vm p.mm) (λ r.
        Option.map (λ (q : Proc). (q, if addr == 0 then (q.mm.vms r.1).start else addr))
          (back_area r.1 (file_of fd) (record p { mm = r.0 }))))

  -- The pages of `mmap_brk`, from the end that the area `vm` had to that of `new_vm`.
  unfoldable pub move_end : (vm new_vm addr : ℕ) → Proc → Option Proc
  unfolding map_run unmap_run
  move_end vm new_vm addr p =
      let old_end = (p.mm.vms vm).end_at in
      let new_end = (p.mm.vms new_vm).end_at in
      let frames = block_n_alloc (u32 (new_end + 2 ^ 32 - old_end) / block_size) p.space.phys in
      let s = p.space in
      let to_proc = λ (space : Space). record p { space = space } in
      if ltb old_end new_end
      then Option.map to_proc (map_run fuel frames.1 old_end new_end (record s { phys = frames.0 }))
      else if ltb new_end old_end
      then Option.map to_proc (unmap_run fuel new_end addr old_end s)
      else some p

  -- The copy of the area, with its new end.
  unfoldable pub copy_grown : (fresh fresh' vm new_brk : ℕ) → Mm → Option Mm
  unfolding expand_vm
  copy_grown fresh fresh' vm new_brk s =
      let copied = copy_vm fresh vm s in
      if ltb copied.brk new_brk
      then expand_vm fuel fresh' fresh new_brk copied
      else some (set_end fresh new_brk copied)

  -- What stands between the old end and the new one.
  unfoldable pub back_end : (fresh vm addr : ℕ) → Proc → Option Proc
  unfolding move_end
  back_end fresh vm addr p =
      if not ((p.mm.vms vm).file == 0)
      then some (file_mmap (p.mm.vms vm).file fresh p)
      else move_end vm fresh addr p

  abbrev pub set_mm : Mm → Proc → Proc
  set_mm s p = record p { mm = s }

  -- `fresh` is the copy of the area and `fresh'` the block for an area that is made anew.
  unfoldable pub mmap_brk : (fresh fresh' addr len : ℕ) → Proc → Option Proc
  unfolding find_vm copy_grown back_end
  mmap_brk fresh fresh' addr len p =
      let new_brk = page_align (u32 (addr + len)) in
      let m = p.mm in
      let s = record m { brk = new_brk } in
      bind (find_vm fuel addr m) (λ vm.
        if (vm == 0) || leb new_brk (s.vms vm).end_at
        then some (set_mm s p)
        else bind (copy_grown fresh fresh' vm new_brk s) (λ s1.
          Option.map (λ (q : Proc). set_mm (copy_vm vm fresh q.mm) q)
            (back_end fresh vm addr (set_mm s1 p))))
