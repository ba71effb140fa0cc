-- ===== src/Mmap/Search.antt =====
-- The search of `mmap_find_unmapped_vm` along the areas before the new one.
use yuzuos.Base.{
  ℕ, zero, suc, ◌+◌, ◌^◌, ◌≤◌, ◌<◌, ◌≡◌, refl, sym, ◌∙◌, ap, arith, Bool, true, false, ◌||◌, some,
  List, [], ◌∷◌, ◌++◌, map, length, leb, ◌==◌, last,
}
use yuzuos.Base.Distinct.{has, has-append}
use yuzuos.DList.{Ptr}
use yuzuos.DList.Segment.{Link, Segment}
use yuzuos.Mmap.{Mm, vm_list, vm_entry, mm_list, find_place}
use yuzuos.Mmap.Areas.{IsSorted, next_start, next_start_lt, next_start_le}
use yuzuos.Mmap.Place.{place, linked_behind, skip, place_last, place_mid}

pub off_head : (h x : Ptr) (xs : List Ptr) → has h (x ∷ xs) ≡ false → (x == h) ≡ false
off_head h x xs out = ground arith

pub off_tail : (h x : Ptr) (xs : List Ptr) → has h (x ∷ xs) ≡ false → has h xs ≡ false
off_tail h x xs out = ground arith

both_false : (a b : Bool) → (a || b) ≡ false → (a ≡ false) × (b ≡ false)
both_false false b e = (refl, e)
both_false true b e = absurd (ground arith)

pub off_parts :
    (n : Ptr) (xs ys : List Ptr)
    → has n (xs ++ ys) ≡ false
    → (has n xs ≡ false) × (has n ys ≡ false)
off_parts n xs ys out = both_false (has n xs) (has n ys) (sym (has-append n xs ys) ∙ out)

module _ (s : Mm) (addr len vma : ℕ) (fits : addr + len < 2 ^ 32) (lies : 4 ≤ s.at) where
  -- The loop passes over the areas `us` and puts the new one behind `u`.
  pub find_place-Segment :
      (a : Ptr) (us : List Ptr) (u : Ptr) (vs : List Ptr) (fuel : ℕ)
      → has (mm_list s.at) (map vm_list (us ++ u ∷ vs)) ≡ false
      → Segment s.links a (map vm_list (us ++ u ∷ vs))
      → Link s.links (last a (map vm_list (us ++ u ∷ vs))) (mm_list s.at)
      → IsSorted s.vms (us ++ u ∷ vs)
      → length us < fuel
      → (s.vms u).end_at ≤ addr
      → addr < next_start s.vms vs
      → (s.vms u).end_at + len ≤ next_start s.vms vs
      → find_place fuel addr len vma (vm_entry (s.links.next a)) s
        ≡ some (linked_behind u vma s, place addr len (next_start s.vms vs))
  find_place-Segment a us u vs zero out p l o enough behind before gap = absurd (omega arith)
  find_place-Segment a [] u [] (suc fuel) out p l o enough behind before gap =
      let here : vm_entry (s.links.next a) ≡ u = omega (arith, p.0.0) in
      let at_addr : leb (addr + len) (2 ^ 32) ≡ true = ground arith in
      rw (here, at_addr)
        (place_last s addr len vma fuel fits u lies (off_head (mm_list s.at) (vm_list u) [] out) l.0
          o.0 behind)
  find_place-Segment a [] u (v ∷ vs) (suc fuel) out p l o enough behind before gap =
      let h = mm_list s.at in
      let here : vm_entry (s.links.next a) ≡ u = omega (arith, p.0.0) in
      let small : (s.vms v).start < 2 ^ 32 =
        omega (arith, o.2.0, o.2.1, next_start_le s.vms vs o.2.2) in
      let out' = off_tail h (vm_list u) (map vm_list (v ∷ vs)) out in
      rw here (
        place_mid s addr len vma fuel fits u v (off_head h (vm_list u) (map vm_list (v ∷ vs)) out)
          p.1.0.0 (off_head h (vm_list v) (map vm_list vs) out') o.0 behind before small gap)
  find_place-Segment a (x ∷ []) u vs (suc fuel) out p l o enough behind before gap =
      let h = mm_list s.at in
      let here : vm_entry (s.links.next a) ≡ x = omega (arith, p.0.0) in
      let then_u : vm_entry (s.links.next (vm_list x)) ≡ u = omega (arith, p.1.0.0) in
      let rest =
        find_place-Segment (vm_list x) [] u vs fuel
          (off_tail h (vm_list x) (map vm_list (u ∷ vs)) out) p.1 l o.2 (omega arith) behind before
          gap in
      rw here (
        skip s addr len vma fuel fits x u (off_head h (vm_list x) (map vm_list (u ∷ vs)) out)
          p.1.0.0
          (off_head h (vm_list u) (map vm_list vs)
            (off_tail h (vm_list x) (map vm_list (u ∷ vs)) out))
          o.0 o.1 (omega (arith, o.2.0))
        ∙ ap (λ (z : Ptr). find_place fuel addr len vma z s) (sym then_u)
        ∙ rest)
  find_place-Segment a (x ∷ y ∷ us) u vs (suc fuel) out p l o enough behind before gap =
      let h = mm_list s.at in
      let here : vm_entry (s.links.next a) ≡ x = omega (arith, p.0.0) in
      let then_y : vm_entry (s.links.next (vm_list x)) ≡ y = omega (arith, p.1.0.0) in
      let rest =
        find_place-Segment (vm_list x) (y ∷ us) u vs fuel
          (off_tail h (vm_list x) (map vm_list (y ∷ us ++ u ∷ vs)) out) p.1 l o.2 (omega arith)
          behind before gap in
      rw here (
        skip s addr len vma fuel fits x y
          (off_head h (vm_list x) (map vm_list (y ∷ us ++ u ∷ vs)) out) p.1.0.0
          (off_head h (vm_list y) (map vm_list (us ++ u ∷ vs))
            (off_tail h (vm_list x) (map vm_list (y ∷ us ++ u ∷ vs)) out))
          o.0 o.1 (omega (arith, o.2.0, next_start_lt s.vms (y ∷ us) u vs o.2))
        ∙ ap (λ (z : Ptr). find_place fuel addr len vma z s) (sym then_y)
        ∙ rest)
