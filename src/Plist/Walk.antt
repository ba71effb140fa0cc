-- ===== src/Plist/Walk.antt =====
-- The loop of `plist_add`: it ends, and finds the place between the low and the high groups.
use yuzuos.Base.{
  ℕ, zero, suc, ◌+◌, ◌≡◌, refl, ap, true, false, not, Option, some, List, [], ◌∷◌, arith, ◌==◌,
  last, length, leb, if◌then◌else◌, Bool-cases, inl, inr,
}
use yuzuos.Base.Int.{ℤ, ltb_ℤ, eqb_ℤ}
use yuzuos.Base.Distinct.{has}
use yuzuos.DList.{Ptr}
use yuzuos.DList.Segment.{Segment}
use yuzuos.DList.Insert.{first_or}
use yuzuos.Plist.{Store, Slot, find_slot, opens_group, node_list, prio_list, prio_entry}
use yuzuos.Plist.Groups.{Group, nodes, tops, IsOrdered, low, high, joins, low_above, IsAbove-eq}

cons-nil : (g : Group) (gs : List Group) → ¬ (g ∷ gs ≡ [])
cons-nil g gs e = ground arith

module _ (s : Store) (p : ℤ) (head start : Ptr) where
  -- What the loop leaves when the groups `gs` are still ahead.
  abbrev pub slot_of : Option Ptr → List Group → Slot
  slot_of before [] = record { iter = start; before = before; next_node = head }
  slot_of before ((l, ms) ∷ gs) =
      if ltb_ℤ p (s.prio l)
      then record { iter = l; before = before; next_node = node_list l }
      else slot_of (some l) gs

  pub find_slot_lem :
      (fuel : ℕ) (l : Ptr) (ms : List Ptr) (gs : List Group) (before : Option Ptr)
      → Segment s.links (prio_list l) (tops gs)
      → s.links.next (last (prio_list l) (tops gs)) ≡ prio_list start
      → has (prio_list start) (tops gs) ≡ false
      → leb (1 + length gs) fuel ≡ true
      → find_slot fuel p head start l before s ≡ some (slot_of before ((l, ms) ∷ gs))
  unfolding find_slot
  find_slot_lem zero l ms gs before path closes out enough = absurd (ground arith)
  find_slot_lem (suc fuel) l ms [] before path closes out enough =
      let back : (prio_entry (prio_list start) == start) ≡ true = ground arith in
      elim (Bool-cases (ltb_ℤ p (s.prio l))) [
        | inl above ↦ rw above
        | inr below ↦
            rw (below, closes, back)
              (ap (λ (q : Ptr). some (record { iter = q; before = some l; next_node = head }))
                (ground arith))
      ]
  find_slot_lem (suc fuel) l ms ((k, ns) ∷ gs) before path closes out enough =
      let rest = find_slot_lem fuel k ns gs (some l) path.1 closes (ground arith) (ground arith) in
      let other : (k == start) ≡ false = ground arith in
      let back : prio_entry (prio_list k) ≡ k = ground arith in
      elim (Bool-cases (ltb_ℤ p (s.prio l))) [
        | inl above ↦ rw above
        | inr below ↦ rw (below, path.0.0, back, other, rest)
      ]

  pub slot-next_node :
      (before : Option Ptr) (gs : List Group)
      → (slot_of before gs).next_node ≡ first_or (nodes (high s.prio p gs)) head
  slot-next_node before [] = refl
  slot-next_node before ((l, ms) ∷ gs) = elim (Bool-cases (ltb_ℤ p (s.prio l))) [
    | inl above ↦ rw above
    | inr below ↦ rw below (slot-next_node (some l) gs)
  ]

  pub slot-iter :
      (before : Option Ptr) (gs : List Group)
      → prio_list (slot_of before gs).iter ≡ first_or (tops (high s.prio p gs)) (prio_list start)
  slot-iter before [] = refl
  slot-iter before ((l, ms) ∷ gs) = elim (Bool-cases (ltb_ℤ p (s.prio l))) [
    | inl above ↦ rw above
    | inr below ↦ rw below (slot-iter (some l) gs)
  ]

  slot-before_above :
      (before : Option Ptr) (gs : List Group)
      → low s.prio p gs ≡ []
      → (slot_of before gs).before ≡ before
  slot-before_above before [] h = refl
  slot-before_above before ((l, ms) ∷ gs) h = elim (Bool-cases (ltb_ℤ p (s.prio l))) [
    | inl above ↦ rw above
    | inr below ↦ absurd (cons-nil (l, ms) (low s.prio p gs) (rw below at h))
  ]

  -- A group is opened just where the node joins none.
  pub slot-opens :
      (before : Option Ptr) (gs : List Group)
      → IsOrdered s.prio gs
      → opens_group p before s ≡ true
      → opens_group p (slot_of before gs).before s ≡ not (joins s.prio p gs)
  unfolding opens_group
  slot-opens before [] o h = h
  slot-opens before ((l, ms) ∷ gs) o h = elim (Bool-cases (ltb_ℤ p (s.prio l))) [
    | inl above ↦ rw above h
    | inr below ↦ rw below (elim (Bool-cases (eqb_ℤ (s.prio l) p)) [
      | inl same ↦
          let next = low_above s.prio p gs (IsAbove-eq s.prio p (s.prio l) gs same o.1) in
          rw (same, slot-before_above (some l) gs next.0, same)
      | inr other ↦ rw other (slot-opens (some l) gs o.2 (ground arith))
    ])
  ]
