-- ===== src/Mmap/Unmapped.antt =====
-- `mmap_find_unmapped_vm` keeps the areas in order and apart.
use yuzuos.Base.{
  ℕ, ◌+◌, ◌^◌, ◌≤◌, ◌<◌, ◌≡◌, refl, sym, ◌∙◌, ap, arith, true, false, some, List, [], ◌∷◌, ◌++◌,
  map, length, ◌==◌, last-append, update,
}
use mathlib.Core.Path.{subst}
use mathlib.Core.Option
use yuzuos.Base.Distinct.{has}
use yuzuos.Bitmap.{u32}
use yuzuos.DList.{Ptr, Mem, add, is_empty, set_prev}
use yuzuos.DList.Segment.{IsRing}
use yuzuos.DList.Insert.{add-IsRing}
use yuzuos.DList.Remove.{IsRing-set_next, IsRing-set_prev}
use yuzuos.DList.Query.{tests_of_IsRing, has_none}
use yuzuos.Mmap.{
  Vm, Mm, vm_list, mm_list, find_place, find_unmapped_vm, calloc_vm, page_align, from_addr,
  set_range, first_vm,
}
use yuzuos.Mmap.Areas.{
  IsAreas, IsNew, next_start, next_start_lt, next_start-update, IsSorted-update, insert-IsSorted,
}
use yuzuos.Mmap.Place.{place, linked_behind}
use yuzuos.Mmap.Search.{off_tail, off_parts, find_place-Segment}

map_split :
    (us : List Ptr) (u : Ptr) (ws : List Ptr)
    → map vm_list (us ++ u ∷ ws) ≡ (map vm_list us ++ vm_list u ∷ []) ++ map vm_list ws
map_split [] u ws = refl
map_split (x ∷ us) u ws = ap (λ (r : List Ptr). vm_list x ∷ r) (map_split us u ws)

has_none-map :
    (us : List Ptr) (u : Ptr) (vs : List Ptr) → has_none (map vm_list (us ++ u ∷ vs)) ≡ false
has_none-map [] u vs = refl
has_none-map (x ∷ us) u vs = refl

pub calloc_vm-IsAreas :
    (s : Mm) (vma : Ptr) (xs : List Ptr)
    → IsAreas s xs
    → IsNew vma s xs
    → IsAreas (calloc_vm vma s) xs
calloc_vm-IsAreas s vma xs h fresh =
    let head = mm_list s.at in
    let new = vm_list vma in
    let ring' = IsRing-set_prev new 0 head (map vm_list xs) s.links fresh h.ring in
    record {
      lies = h.lies;
      ring = IsRing-set_next new 0 head (map vm_list xs) (set_prev new 0 s.links) fresh ring';
      sorted = IsSorted-update s.vms vma _ xs (ground arith) h.sorted;
    }

-- A ring with the new area behind `u`.
linked-IsRing :
    (m : Mem) (h : Ptr) (vma : Ptr) (us : List Ptr) (u : Ptr) (vs : List Ptr)
    → has (vm_list vma) (h ∷ map vm_list (us ++ u ∷ vs)) ≡ false
    → IsRing m h (map vm_list (us ++ u ∷ vs))
    → IsRing (add (vm_list vma) (vm_list u) m) h (map vm_list (us ++ u ∷ vma ∷ vs))
linked-IsRing m h vma us u vs fresh r =
    let xs = map vm_list us ++ vm_list u ∷ [] in
    let ys = map vm_list vs in
    let new = vm_list vma in
    let fresh' = rw (map_split us u vs) at fresh in
    let off = off_parts new (h ∷ xs) ys fresh' in
    rw (map_split us u (vma ∷ vs)) (
      subst (λ (p : Ptr). IsRing (add new p m) h (xs ++ new ∷ ys))
        (last-append h (vm_list u) (map vm_list us) [])
        (add-IsRing m h new xs ys off.0 off.1 (rw (map_split us u vs) at r)))

-- A new area is none of the others.
pub other_than :
    (us : List Ptr) (u : Ptr) (vs : List Ptr) (v : Ptr)
    → has (vm_list v) (map vm_list (us ++ u ∷ vs)) ≡ false
    → ((u == v) ≡ false) × (has (vm_list v) (map vm_list vs) ≡ false)
other_than [] u vs v out = (ground arith, ground arith)
other_than (x ∷ us) u vs v out =
    other_than us u vs v (off_tail (vm_list v) (vm_list x) (map vm_list (us ++ u ∷ vs)) out)

place_bounds :
    (addr len gap_end e : ℕ)
    → addr + len < 2 ^ 32
    → e ≤ addr
    → e + len ≤ gap_end
    → (e ≤ place addr len gap_end)
      × (place addr len gap_end + len ≤ gap_end)
      × (place addr len gap_end + len < 2 ^ 32)
place_bounds addr len gap_end e fits behind gap = ground arith

set_range_eq :
    (vma len found : ℕ) (s : Mm)
    → 0 < found
    → set_range vma len found s ≡ record s {
      vms = update s.vms vma (record (s.vms vma) { start = found; end_at = u32 (found + len) });
      cache = u32 (found + len);
    }
set_range_eq vma len found s more =
    let some_found : (found == 0) ≡ false = ground arith in rw some_found refl

module _ (s : Mm) (us : List Ptr) (u : Ptr) (vs : List Ptr) (vma len found : ℕ) where
  -- The new area linked behind `u`, with its range.
  abbrev with_area : Mm
  with_area = set_range vma len found (linked_behind u vma s)

  with_area-IsAreas :
      IsAreas s (us ++ u ∷ vs)
      → IsNew vma s (us ++ u ∷ vs)
      → 0 < found
      → 0 < len
      → found + len < 2 ^ 32
      → (s.vms u).end_at ≤ found
      → found + len ≤ next_start s.vms vs
      → IsAreas with_area (us ++ u ∷ vma ∷ vs)
        × ((with_area.vms vma).start ≡ found)
        × ((with_area.vms vma).end_at ≡ found + len)
  with_area-IsAreas h fresh more filled fits behind before =
      let f = update s.vms vma (record (s.vms vma) { start = found; end_at = u32 (found + len) }) in
      let out = off_tail (vm_list vma) (mm_list s.at) (map vm_list (us ++ u ∷ vs)) fresh in
      let other = other_than us u vs vma out in
      let own : (vma == vma) ≡ true = ground arith in
      let inside : u32 (found + len) ≡ found + len = omega arith in
      let same : next_start f vs ≡ next_start s.vms vs = next_start-update s.vms vma _ vs other.1 in
      let here : f vma ≡ record (s.vms vma) { start = found; end_at = u32 (found + len) } =
        rw own refl in
      let there : f u ≡ s.vms u = rw other.0 refl in
      let start : (f vma).start ≡ found = ap (λ (v : Vm). v.start) here in
      let end_at : (f vma).end_at ≡ found + len = ap (λ (v : Vm). v.end_at) here ∙ inside in
      let u_end : (f u).end_at ≡ (s.vms u).end_at = ap (λ (v : Vm). v.end_at) there in
      let sorted =
        insert-IsSorted f us u vma vs (IsSorted-update s.vms vma _ (us ++ u ∷ vs) out h.sorted)
          (omega arith) (omega arith) (omega arith) in
      subst
        (λ (s' : Mm).
          IsAreas s' (us ++ u ∷ vma ∷ vs)
          × ((s'.vms vma).start ≡ found)
          × ((s'.vms vma).end_at ≡ found + len))
        (sym (set_range_eq vma len found (linked_behind u vma s) more))
        (
          record {
            lies = h.lies;
            ring = linked-IsRing s.links (mm_list s.at) vma us u vs fresh h.ring;
            sorted = sorted;
          },
          start,
          end_at,
        )

-- The search with the new area already cleared.
searched :
    (s : Mm) (us : List Ptr) (u : Ptr) (vs : List Ptr) (vma addr len fuel : ℕ)
    → IsAreas s (us ++ u ∷ vs)
    → IsNew vma s (us ++ u ∷ vs)
    → length us < fuel
    → 0 < len
    → addr + len < 2 ^ 32
    → (s.vms u).end_at ≤ addr
    → addr < next_start s.vms vs
    → (s.vms u).end_at + len ≤ next_start s.vms vs
    → (s' : Mm) × (Option.map
          (λ (r : Mm × ℕ). set_range vma len r.1 r.0)
          (find_place fuel addr len vma (first_vm s) s)
        ≡ some s')
      × IsAreas s' (us ++ u ∷ vma ∷ vs)
      × ((s'.vms vma).start ≡ place addr len (next_start s.vms vs))
      × ((s'.vms vma).end_at ≡ place addr len (next_start s.vms vs) + len)
searched s us u vs vma addr len fuel h fresh enough filled fits behind before gap =
    let found = place addr len (next_start s.vms vs) in
    let bounds = place_bounds addr len (next_start s.vms vs) (s.vms u).end_at fits behind gap in
    let more = next_start_lt s.vms us u vs h.sorted in
    let loop =
      find_place-Segment s addr len vma fits h.lies (mm_list s.at) us u vs fuel h.ring.distinct.0
        h.ring.path h.ring.closes h.sorted enough behind before gap in
    let area =
      with_area-IsAreas s us u vs vma len found h fresh (omega (arith, more, bounds.0)) filled
        bounds.2 bounds.0 bounds.1 in
    (
      with_area s us u vs vma len found,
      ap (Option.map (λ (r : Mm × ℕ). set_range vma len r.1 r.0)) loop,
      area.0,
      area.1,
      area.2,
    )

-- The memory areas of a process stay in order and apart when `mmap_find_unmapped_vm` makes a new one
-- of at least one page, where some area ends at or before the address at which the search starts, the
-- next one starts behind that address, and the gap between them is large enough. The new area stands
-- in that gap, at the address itself if it fits there and else at the end of the gap, and the loop
-- comes to its end within one round more than areas are passed over.
pub find_unmapped_vm-IsAreas :
    (s : Mm) (us : List Ptr) (u : Ptr) (vs : List Ptr) (vma addr len fuel : ℕ)
    → IsAreas s (us ++ u ∷ vs)
    → IsNew vma s (us ++ u ∷ vs)
    → length us < fuel
    → 0 < page_align len
    → from_addr addr s + page_align len < 2 ^ 32
    → (s.vms u).end_at ≤ from_addr addr s
    → from_addr addr s < next_start s.vms vs
    → (s.vms u).end_at + page_align len ≤ next_start s.vms vs
    → (s' : Mm) × (find_unmapped_vm fuel vma addr len s ≡ some s')
      × IsAreas s' (us ++ u ∷ vma ∷ vs)
      × ((s'.vms vma).start ≡ place (from_addr addr s) (page_align len) (next_start s.vms vs))
      × ((s'.vms vma).end_at ≡ (s'.vms vma).start + page_align len)
unfolding find_unmapped_vm
find_unmapped_vm-IsAreas s us u vs vma addr len fuel h fresh enough filled fits behind before gap =
    let s0 = calloc_vm vma s in
    let h0 = calloc_vm-IsAreas s vma (us ++ u ∷ vs) h fresh in
    let full : is_empty (mm_list s.at) s0.links ≡ false =
      (tests_of_IsRing s0.links (mm_list s.at) (map vm_list (us ++ u ∷ vs)) h0.ring).0
      ∙ has_none-map us u vs in
    let out = off_tail (vm_list vma) (mm_list s.at) (map vm_list (us ++ u ∷ vs)) fresh in
    let other = other_than us u vs vma out in
    let same : next_start s0.vms vs ≡ next_start s.vms vs =
      next_start-update s.vms vma _ vs other.1 in
    let u_same : s0.vms u ≡ s.vms u = rw other.0 refl in
    let u_end : (s0.vms u).end_at ≡ (s.vms u).end_at = ap (λ (v : Vm). v.end_at) u_same in
    let l = page_align len in
    let a = from_addr addr s in
    let r =
      searched s0 us u vs vma a l fuel h0 fresh enough filled fits (omega (arith, u_end, behind))
        (omega (arith, same, before)) (omega (arith, same, u_end, gap)) in
    let start = r.3 ∙ ap (place a l) same in
    (r.0, rw full r.1, r.2, start, r.4 ∙ ap (λ (n : ℕ). n + l) (sym r.3))
