-- ===== src/Mmap/Low.antt =====
-- What `mmap_find_unmapped_vm` does in front of the first area.
use yuzuos.Base.{
  ℕ, zero, suc, ◌+◌, ◌^◌, ◌≤◌, ◌<◌, ◌≡◌, ◌⊎◌, refl, sym, ◌∙◌, ap, arith, true, false, ◌&&◌, none,
  some, List, [], ◌∷◌, map, ltb, leb, ◌==◌, Bool-cases, inl, inr,
}
use mathlib.Core.Path.{subst}
use mathlib.Core.Option
use yuzuos.Bitmap.{u32}
use yuzuos.DList.{Ptr, Mem, add, is_empty}
use yuzuos.DList.Query.{tests_of_IsRing}
use yuzuos.Mmap.{
  Vm, Mm, vm_list, mm_list, find_place, find_unmapped_vm, calloc_vm, page_align, from_addr,
  set_range, first_vm, find_vm, find_vm_from, next_vm,
}
use yuzuos.Mmap.Areas.{IsAreas, IsNew, next_start_le}
use yuzuos.Mmap.Search.{off_head, off_tail}
use yuzuos.Mmap.Unmapped.{calloc_vm-IsAreas, other_than}

-- The first area put into the list a second time.
abbrev twice : Ptr → Mm → Mm
twice x s = record s { links = add (vm_list x) (mm_list s.at) s.links }

find_place-low :
    (s : Mm) (x : Ptr) (addr len vma fuel : ℕ)
    → (vm_list x == mm_list s.at) ≡ false
    → addr + len < 2 ^ 32
    → addr + len ≤ (s.vms x).start
    → find_place (suc fuel) addr len vma x s ≡ some (twice x s, addr)
unfolding find_place
find_place-low s x addr len vma fuel off fits low =
    let inside : u32 (addr + len) ≡ addr + len = omega arith in
    let before : leb (addr + len) (s.vms x).start ≡ true = ground arith in
    rw (off, inside, before) refl

-- The area follows itself, behind the head.
add_twice :
    (m : Mem) (h p : Ptr)
    → (p == h) ≡ false
    → m.next h ≡ p
    → ((add p h m).next h ≡ p) × ((add p h m).next p ≡ p)
unfolding add
add_twice m h p off first = ground (arith, first)

-- A walk that stands on such an area does not end.
find_vm_from-loop :
    (s : Mm) (x : Ptr) (fuel addr : ℕ)
    → (vm_list x == mm_list s.at) ≡ false
    → s.links.next (vm_list x) ≡ vm_list x
    → (addr < (s.vms x).start) ⊎ ((s.vms x).end_at ≤ addr)
    → find_vm_from fuel addr x s ≡ none
unfolding find_vm_from
find_vm_from-loop s x zero addr off self out = refl
find_vm_from-loop s x (suc fuel) addr off self out =
    let same : next_vm x s ≡ x = omega (arith, self) in
    let beside : (leb (s.vms x).start addr && ltb addr (s.vms x).end_at) ≡ false = ground arith in
    let rest =
      ap (λ (y : Ptr). find_vm_from fuel addr y s) same
      ∙ find_vm_from-loop s x fuel addr off self out in
    rw (off, beside) rest

find_vm-loop :
    (s : Mm) (x : Ptr) (rounds addr : ℕ)
    → (vm_list x == mm_list s.at) ≡ false
    → s.links.next (mm_list s.at) ≡ vm_list x
    → s.links.next (vm_list x) ≡ vm_list x
    → (addr < (s.vms x).start) ⊎ ((s.vms x).end_at ≤ addr)
    → find_vm rounds addr s ≡ none
unfolding find_vm
find_vm-loop s x rounds addr off first self out =
    let here : first_vm s ≡ x = omega (arith, first) in
    ap (λ (y : Ptr). find_vm_from rounds addr y s) here
    ∙ find_vm_from-loop s x rounds addr off self out

-- The range of another area is written elsewhere.
set_range-off :
    (vma len found x : ℕ) (s : Mm)
    → (x == vma) ≡ false
    → ((set_range vma len found s).links ≡ s.links)
      × ((set_range vma len found s).at ≡ s.at)
      × ((set_range vma len found s).vms x ≡ s.vms x)
set_range-off vma len found x s other = elim (Bool-cases (found == 0)) [
  | inl nothing ↦ rw nothing (refl, refl, refl)
  | inr some_found ↦ rw some_found (refl, refl, rw other refl)
]

-- Where the range that is searched for ends at or before the first area, `mmap_find_unmapped_vm` ends
-- with a list in which that area follows the head, and follows itself, so that no other area, nor the
-- new one, is reached from the head; `mmap_find_vm` does not come to an end there, whatever its
-- rounds, for any address outside of that area.
pub find_unmapped_vm-low :
    (s : Mm) (x : Ptr) (xs : List Ptr) (vma addr len fuel rounds wanted : ℕ)
    → IsAreas s (x ∷ xs)
    → IsNew vma s (x ∷ xs)
    → from_addr addr s + page_align len ≤ (s.vms x).start
    → (wanted < (s.vms x).start) ⊎ ((s.vms x).end_at ≤ wanted)
    → (s' : Mm) × (find_unmapped_vm (suc fuel) vma addr len s ≡ some s')
      × (s'.links.next (mm_list s'.at) ≡ vm_list x)
      × (s'.links.next (vm_list x) ≡ vm_list x)
      × (find_vm rounds wanted s' ≡ none)
unfolding find_unmapped_vm
find_unmapped_vm-low s x xs vma addr len fuel rounds wanted h fresh low outside =
    let s0 = calloc_vm vma s in
    let head = mm_list s.at in
    let l = page_align len in
    let a = from_addr addr s in
    let h0 = calloc_vm-IsAreas s vma (x ∷ xs) h fresh in
    let full : is_empty head s0.links ≡ false =
      (tests_of_IsRing s0.links head (map vm_list (x ∷ xs)) h0.ring).0 in
    let other = other_than [] x xs vma (off_tail (vm_list vma) head (map vm_list (x ∷ xs)) fresh) in
    let off = off_head head (vm_list x) (map vm_list xs) h0.ring.distinct.0 in
    let fits : a + l < 2 ^ 32 =
      omega (arith, h.sorted.0, h.sorted.1, next_start_le s.vms xs h.sorted.2) in
    let here : first_vm s0 ≡ x = omega (arith, h0.ring.path.0.0) in
    let x_same : s0.vms x ≡ s.vms x = rw other.0 refl in
    let x_start : (s0.vms x).start ≡ (s.vms x).start = ap (λ (v : Vm). v.start) x_same in
    let s1 = twice x s0 in
    let s' = set_range vma l a s1 in
    let kept = set_range-off vma l a x s1 other.0 in
    let loop = add_twice s0.links head (vm_list x) off h0.ring.path.0.0 in
    let found =
      ap (λ (y : Ptr). find_place (suc fuel) a l vma y s0) here
      ∙ find_place-low s0 x a l vma fuel off fits (omega (arith, x_start, low)) in
    let at_same : mm_list s'.at ≡ head = ap mm_list kept.1 in
    let first =
      ap (λ (m : Mem). m.next (mm_list s'.at)) kept.0 ∙ ap s1.links.next at_same ∙ loop.0 in
    let self = ap (λ (m : Mem). m.next (vm_list x)) kept.0 ∙ loop.1 in
    let out =
      subst (λ (v : Vm). (wanted < v.start) ⊎ (v.end_at ≤ wanted)) (sym (kept.2 ∙ x_same))
        outside in
    let endless =
      find_vm-loop s' x rounds wanted (ap (λ (p : Ptr). vm_list x == p) at_same ∙ off) first self
        out in
    (
      s',
      rw full (ap (Option.map (λ (r : Mm × ℕ). set_range vma l r.1 r.0)) found),
      first,
      self,
      endless,
    )
