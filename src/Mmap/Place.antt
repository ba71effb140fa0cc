-- ===== src/Mmap/Place.antt =====
-- Where `mmap_find_unmapped_vm` puts a new area, behind one that ends before it.
use yuzuos.Base.{
  ℕ, suc, ◌+◌, ◌-◌, ◌^◌, ◌≤◌, ◌<◌, ◌≡◌, refl, ◌∙◌, ap, arith, Bool, true, false, not, ◌&&◌, ◌||◌,
  Option, some, ltb, leb, ◌==◌, if◌then◌else◌, Bool-cases, inl, inr,
}
use yuzuos.Bitmap.{u32}
use yuzuos.DList.{Ptr, add, is_last}
use yuzuos.Mmap.{Mm, vm_list, vm_entry, mm_list, next_vm, find_place}

-- Where the area starts: at `addr` if it fits there, and else at the end of the gap.
abbrev pub place : (addr len gap_end : ℕ) → ℕ
place addr len gap_end = if leb (addr + len) gap_end then addr else gap_end - len

abbrev pub linked_behind : (u vma : Ptr) → Mm → Mm
linked_behind u vma s = record s { links = add (vm_list vma) (vm_list u) s.links }

module _ (s : Mm) (addr len vma fuel : ℕ) (fits : addr + len < 2 ^ 32) where
  -- One round of the loop at `x`, with the next area and the rounds that follow.
  abbrev round : (x y : Ptr) → (at_end : Bool) → Option (Mm × ℕ) → Option (Mm × ℕ)
  round x y at_end rest =
      let end_at = (s.vms x).end_at in
      let gap_end = (s.vms y).start in
      if vm_list x == mm_list s.at
      then some (s, addr)
      else if leb (u32 (addr + len)) (s.vms x).start
      then some (record s { links = add (vm_list x) (mm_list s.at) s.links }, addr)
      else if leb end_at addr && (at_end || (not at_end && leb (u32 (addr + len)) gap_end))
      then some (linked_behind x vma s, addr)
      else if not at_end
          && (leb end_at addr && ltb addr gap_end)
          && leb len (u32 (gap_end + 2 ^ 32 - end_at))
      then some (linked_behind x vma s, u32 (gap_end + 2 ^ 32 - len))
      else rest

  find_place-round :
      (x y : Ptr)
      → s.links.next (vm_list x) ≡ vm_list y
      → find_place (suc fuel) addr len vma x s
        ≡ round x y (vm_list y == mm_list s.at) (find_place fuel addr len vma y s)
  unfolding find_place is_last
  find_place-round x y next =
      let same : next_vm x s ≡ y = omega (arith, next) in
      ap
        (λ (p : Ptr).
          round x (next_vm x s) (p == mm_list s.at) (find_place fuel addr len vma (next_vm x s) s))
        next
      ∙ ap (λ (z : Ptr). round x z (vm_list y == mm_list s.at) (find_place fuel addr len vma z s))
          same

  -- An area with others before `addr` is passed over.
  pub skip :
      (x y : Ptr)
      → (vm_list x == mm_list s.at) ≡ false
      → s.links.next (vm_list x) ≡ vm_list y
      → (vm_list y == mm_list s.at) ≡ false
      → (s.vms x).start < (s.vms x).end_at
      → (s.vms x).end_at ≤ (s.vms y).start
      → (s.vms y).start < addr
      → find_place (suc fuel) addr len vma x s ≡ find_place fuel addr len vma y s
  skip x y off next off' filled ordered below =
      let inside : u32 (addr + len) ≡ addr + len = omega arith in
      let c1 : leb (addr + len) (s.vms x).start ≡ false = ground arith in
      let c2 : leb (addr + len) (s.vms y).start ≡ false = ground arith in
      let c3 : ltb addr (s.vms y).start ≡ false = ground arith in
      let c4 : leb (s.vms x).end_at addr ≡ true = ground arith in
      find_place-round x y next ∙ rw (off, off', inside, c1, c2, c3, c4) refl

  pub place_last :
      (u : Ptr)
      → 4 ≤ s.at
      → (vm_list u == mm_list s.at) ≡ false
      → s.links.next (vm_list u) ≡ mm_list s.at
      → (s.vms u).start < (s.vms u).end_at
      → (s.vms u).end_at ≤ addr
      → find_place (suc fuel) addr len vma u s ≡ some (linked_behind u vma s, addr)
  place_last u lies off next filled behind =
      let y : Ptr = vm_entry (mm_list s.at) in
      let back : mm_list s.at ≡ vm_list y = omega arith in
      let there : (vm_list y == mm_list s.at) ≡ true = ground arith in
      let inside : u32 (addr + len) ≡ addr + len = omega arith in
      let c1 : leb (addr + len) (s.vms u).start ≡ false = ground arith in
      let c4 : leb (s.vms u).end_at addr ≡ true = ground arith in
      find_place-round u y (next ∙ back) ∙ rw (off, there, inside, c1, c4) refl

  pub place_mid :
      (u v : Ptr)
      → (vm_list u == mm_list s.at) ≡ false
      → s.links.next (vm_list u) ≡ vm_list v
      → (vm_list v == mm_list s.at) ≡ false
      → (s.vms u).start < (s.vms u).end_at
      → (s.vms u).end_at ≤ addr
      → addr < (s.vms v).start
      → (s.vms v).start < 2 ^ 32
      → (s.vms u).end_at + len ≤ (s.vms v).start
      → find_place (suc fuel) addr len vma u s
        ≡ some (linked_behind u vma s, place addr len (s.vms v).start)
  place_mid u v off next off' filled behind before small gap =
      let inside : u32 (addr + len) ≡ addr + len = omega arith in
      let room : u32 ((s.vms v).start + 2 ^ 32 - (s.vms u).end_at)
          ≡ (s.vms v).start - (s.vms u).end_at =
        omega arith in
      let found : u32 ((s.vms v).start + 2 ^ 32 - len) ≡ (s.vms v).start - len = omega arith in
      let c1 : leb (addr + len) (s.vms u).start ≡ false = ground arith in
      let c3 : ltb addr (s.vms v).start ≡ true = ground arith in
      let c4 : leb (s.vms u).end_at addr ≡ true = ground arith in
      let c5 : leb len ((s.vms v).start - (s.vms u).end_at) ≡ true = ground arith in
      find_place-round u v next
      ∙ rw (off, off', inside, room, found, c1, c3, c4, c5)
          (elim (Bool-cases (leb (addr + len) (s.vms v).start)) [
            | inl here ↦ rw here refl
            | inr no_room ↦ rw no_room refl
          ])
