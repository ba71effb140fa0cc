-- ===== src/Mmap/Find.antt =====
-- `mmap_find_vm` over areas in order.
use yuzuos.Base.{
  ℕ, zero, suc, ◌<◌, ◌≤◌, ◌≡◌, arith, false, ◌&&◌, some, List, [], ◌∷◌, map, length, ltb, leb,
  if◌then◌else◌, last,
}
use yuzuos.Base.Distinct.{has}
use yuzuos.DList.{Ptr}
use yuzuos.DList.Segment.{Link, Segment}
use yuzuos.Mmap.{Vm, Mm, vm_list, vm_entry, mm_list, find_vm, find_vm_from}
use yuzuos.Mmap.Areas.{IsAreas}

-- The first area of the list that holds an address, 0 where there is none.
abbrev pub area_of : (Ptr → Vm) → ℕ → List Ptr → Ptr
area_of f addr [] = 0
area_of f addr (x ∷ xs) =
    if leb (f x).start addr && ltb addr (f x).end_at then x else area_of f addr xs

find_vm_from-Segment :
    (s : Mm) (a : Ptr) (xs : List Ptr) (fuel addr : ℕ)
    → 4 ≤ s.at
    → has (mm_list s.at) (map vm_list xs) ≡ false
    → Segment s.links a (map vm_list xs)
    → Link s.links (last a (map vm_list xs)) (mm_list s.at)
    → length xs < fuel
    → find_vm_from fuel addr (vm_entry (s.links.next a)) s ≡ some (area_of s.vms addr xs)
unfolding find_vm_from
find_vm_from-Segment s a xs zero addr lies out p l enough = absurd (omega arith)
find_vm_from-Segment s a [] (suc fuel) addr lies out p l enough =
    let here : vm_list (vm_entry (s.links.next a)) ≡ mm_list s.at = omega (arith, l.0) in
    ground (arith, here)
find_vm_from-Segment s a (x ∷ xs) (suc fuel) addr lies out p l enough =
    let here : vm_entry (s.links.next a) ≡ x = omega (arith, p.0.0) in
    rw here (
      ground (
        arith,
        find_vm_from-Segment s (vm_list x) xs fuel addr lies (ground arith) p.1 l (omega arith),
      ))

-- Given more rounds than there are areas, `mmap_find_vm` comes to an end, and finds the area that
-- holds the address, or NULL where none does.
pub find_vm_lem :
    (s : Mm) (xs : List Ptr) (fuel addr : ℕ)
    → IsAreas s xs
    → length xs < fuel
    → find_vm fuel addr s ≡ some (area_of s.vms addr xs)
unfolding find_vm
find_vm_lem s xs fuel addr h enough =
    find_vm_from-Segment s (mm_list s.at) xs fuel addr h.lies h.ring.distinct.0 h.ring.path
      h.ring.closes enough
