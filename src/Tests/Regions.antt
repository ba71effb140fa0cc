-- ===== src/Tests/Regions.antt =====
-- A process with two memory areas: 0x10000 to 0x12000 at 2000, and 0x20000 to 0x21000 at 3000.
use yuzuos.Base.{◌+◌, ◌≡◌, refl, arith, some, none, inr, [], ◌∷◌, ◌==◌, if◌then◌else◌}
use yuzuos.Bitmap.{u32}
use yuzuos.DList.{Ptr, Mem, add_tail}
use yuzuos.Physical.{Phys}
use yuzuos.Mmap.{Vm, Mm, mm_list, vm_list, find_vm, find_unmapped_vm, page_align, from_addr}
use yuzuos.Mmap.Process.{Proc, mmap_brk}
use yuzuos.Mmap.Areas.{IsAreas, next_start}
use yuzuos.Mmap.Find.{area_of, find_vm_lem}
use yuzuos.Mmap.Place.{place}
use yuzuos.Mmap.Unmapped.{find_unmapped_vm-IsAreas}
use yuzuos.Mmap.Low.{find_unmapped_vm-low}
use yuzuos.Mmap.Brk.{mmap_brk_lem}

-- Every `struct dlist_head` is initialised.
abbrev initialised : Mem
initialised = record { next = λ p. p; prev = λ p. p }

abbrev ranges : Ptr → Vm
ranges p =
    if p == 2000
    then record { start = 0x10000; end_at = 0x12000; flags = 0; file = 0; mm = 1000 }
    else record { start = 0x20000; end_at = 0x21000; flags = 0; file = 0; mm = 1000 }

abbrev two : Mm
two = record {
  at = 1000;
  brk = 0x8000;
  brk_end = 0x8000;
  cache = 0;
  links = add_tail 3020 1016 (add_tail 2020 1016 initialised);
  vms = ranges;
}

two-IsAreas : IsAreas two (2000 ∷ 3000 ∷ [])
unfolding add_tail
two-IsAreas = record {
  lies = omega arith;
  ring = record {
    distinct = (refl, (refl, (refl, tt)));
    path = ((refl, refl), ((refl, refl), tt));
    closes = (refl, refl);
  };
  sorted = (omega arith, omega arith, (omega arith, omega arith, tt));
}

find_vm_lem_example : find_vm 5 0x20800 two ≡ some (area_of ranges 0x20800 (2000 ∷ 3000 ∷ []))
find_vm_lem_example = find_vm_lem two (2000 ∷ 3000 ∷ []) 5 0x20800 two-IsAreas (omega arith)

-- The gap behind the first area, where 0x1f800 leaves too little room.
find_unmapped_vm-IsAreas_example :
    (s' : Mm) × (find_unmapped_vm 5 4000 0x1f800 0x1000 two ≡ some s')
    × IsAreas s' (2000 ∷ 4000 ∷ 3000 ∷ [])
    × ((s'.vms 4000).start
        ≡ place (from_addr 0x1f800 two) (page_align 0x1000) (next_start ranges (3000 ∷ [])))
    × ((s'.vms 4000).end_at ≡ (s'.vms 4000).start + page_align 0x1000)
find_unmapped_vm-IsAreas_example =
    find_unmapped_vm-IsAreas two [] 2000 (3000 ∷ []) 4000 0x1f800 0x1000 5 two-IsAreas refl
      (omega arith) (omega arith) (omega arith) (omega arith) (omega arith) (omega arith)

find_unmapped_vm-low_example :
    (s' : Mm) × (find_unmapped_vm 5 4000 0x9000 0x1000 two ≡ some s')
    × (s'.links.next (mm_list s'.at) ≡ vm_list 2000)
    × (s'.links.next (vm_list 2000) ≡ vm_list 2000)
    × (find_vm 100 0x20800 s' ≡ none)
find_unmapped_vm-low_example =
    find_unmapped_vm-low two 2000 (3000 ∷ []) 4000 0x9000 0x1000 4 100 0x20800 two-IsAreas refl
      (omega arith) (inr (omega arith))

abbrev frames : Phys
frames = record { bitmap = λ i. 0; used = 0; max_bits = 1024 }

abbrev pub process : Proc
process = record { mm = two; space = record { dir = λ i. 0; tables = λ i j. 0; phys = frames } }

-- The file operation is not called.
abbrev pub unmapped_file : Ptr → Ptr → Proc → Proc
unmapped_file file vm p = p

found_first : find_vm 20 0x10000 two ≡ some 2000
found_first = find_vm_lem two (2000 ∷ 3000 ∷ []) 20 0x10000 two-IsAreas (omega arith)

-- A break above the start of the second area.
mmap_brk_lem_example :
    (p' : Proc) × (mmap_brk unmapped_file (λ fd. 0) 20 4000 5000 0x10000 0x10800 process ≡ some p')
    × (p'.mm.vms 2000 ≡ record (ranges 2000) { end_at = page_align (u32 (0x10000 + 0x10800)) })
    × (p'.mm.brk ≡ page_align (u32 (0x10000 + 0x10800)))
mmap_brk_lem_example =
    mmap_brk_lem unmapped_file (λ fd. 0) 20 4000 5000 0x10000 0x10800 2000 process found_first refl
      refl refl (omega arith) (omega arith)
