-- ===== src/DList/Replace.antt =====
-- `dlist_replace` and `dlist_swap`.
use yuzuos.Base.{
  ◌≡◌, ◌∙◌, ap, sym, false, List, [], ◌∷◌, ◌++◌, arith, ◌==◌, last, last-append, if◌then◌else◌,
}
use mathlib.Core.List.{append_assoc}
use yuzuos.Base.Distinct.{has, has-append, eq_refl, Apart-tail, has-last, has-ne}
use yuzuos.DList.{Ptr, Mem, replace, replace_init, swap, remove}
use yuzuos.DList.Segment.{IsRing, link}
use yuzuos.DList.Parts.{Parts-of}
use yuzuos.DList.Insert.{insert_end, insert_mid, add-IsRing}
use yuzuos.DList.Remove.{remove-IsRing, entry_fresh, head_init-IsRing, IsRing-head_init}

-- The writes of `dlist_replace`, where the old entry does not follow itself.
replace-link :
    (old new : Ptr) (m : Mem)
    → (old == m.next old) ≡ false
    → replace old new m ≡ link (m.prev old) new (link new (m.next old) m)
unfolding replace
replace-link old new m other = rw (eq_refl new, other)

-- `dlist_replace` puts the new node in the place of the old one.
pub replace-IsRing :
    (m : Mem) (h old new : Ptr) (xs ys : List Ptr)
    → has new (h ∷ xs) ≡ false
    → has new ys ≡ false
    → IsRing m h (xs ++ old ∷ ys)
    → IsRing (replace old new m) h (xs ++ new ∷ ys)
replace-IsRing m h old new xs [] fresh fresh' r =
    let p = Parts-of m h xs old [] r in
    let n : m.next old ≡ h = p.closing.0 in
    rw (replace-link old new m (ground (arith, n, p.apart.0)), p.joint.1, n)
      (insert_end m h new xs fresh p.left p.path_left)
replace-IsRing m h old new xs (y ∷ ys) fresh fresh' r =
    let p = Parts-of m h xs old (y ∷ ys) r in
    let n : m.next old ≡ y = p.path_right.0.0 in
    rw (replace-link old new m (ground (arith, n, p.right.0)), p.joint.1, n)
      (insert_mid m h new xs fresh p.left p.path_left y ys fresh' p.right.1
        (Apart-tail (h ∷ xs) (y ∷ ys) old p.apart) p.path_right.1 p.closing)

-- `dlist_replace_init` puts a node that is not in the list in the place of an entry, and leaves that
-- entry as an empty list.
replace_init-IsRing :
    (m : Mem) (h old new : Ptr) (xs ys : List Ptr)
    → has new (h ∷ xs) ≡ false
    → has new ys ≡ false
    → (old == new) ≡ false
    → IsRing m h (xs ++ old ∷ ys)
    → IsRing (replace_init old new m) h (xs ++ new ∷ ys) × IsRing (replace_init old new m) old []
unfolding replace_init
replace_init-IsRing m h old new xs ys fresh fresh' differ r =
    let m1 = replace old new m in
    let out = entry_fresh m h old xs ys r in
    (
      head_init-IsRing old h (xs ++ new ∷ ys) m1
          (ground (arith, has-append old xs ys, has-append old xs (new ∷ ys)))
          (replace-IsRing m h old new xs ys fresh fresh' r),
      IsRing-head_init old m1,
    )

-- Where `dlist_swap` puts the first entry back.
swap_position :
    (a b : Ptr) (ys : List Ptr)
    → has a ys ≡ false
    → (if last a ys == a then b else last a ys) ≡ last b ys
swap_position a b [] out = rw (eq_refl a)
swap_position a b (y ∷ ys) out = rw (has-ne a (last y ys) (y ∷ ys) out (has-last y ys))

swap_position_other :
    (a b h : Ptr) (xs : List Ptr)
    → has a (h ∷ xs) ≡ false
    → (if last h xs == a then b else last h xs) ≡ last h xs
swap_position_other a b h xs out = rw (has-ne a (last h xs) (h ∷ xs) out (has-last h xs))

module _ (m : Mem) (h a b : Ptr) (xs ys zs : List Ptr)
    (r : IsRing m h (xs ++ a ∷ (ys ++ b ∷ zs))) where
  -- `dlist_swap` exchanges two entries where the second argument stands further back.
  swap-IsRing_forward : IsRing (swap a b m) h (xs ++ b ∷ (ys ++ a ∷ zs))
  unfolding swap
  swap-IsRing_forward =
      let r' : IsRing m h ((xs ++ a ∷ ys) ++ b ∷ zs) = rw (append_assoc xs (a ∷ ys) (b ∷ zs)) r in
      let fresh_b = entry_fresh m h b (xs ++ a ∷ ys) zs r' in
      let m1 = remove b m in
      let r1 : IsRing m1 h (xs ++ a ∷ (ys ++ zs)) =
        rw (append_assoc xs (a ∷ ys) zs) at (remove-IsRing m h b (xs ++ a ∷ ys) zs r').0 in
      let fresh_a = entry_fresh m1 h a xs (ys ++ zs) r1 in
      let m2 = replace a b m1 in
      let f1 = has-append b (xs ++ a ∷ ys) zs in
      let f2 = has-append b xs (a ∷ ys) in
      let f3 = has-append b ys zs in
      let f4 = has-append a xs (ys ++ zs) in
      let f5 = has-append a ys zs in
      let f6 = has-append a xs (b ∷ ys) in
      let r2 : IsRing m2 h ((xs ++ b ∷ ys) ++ zs) =
        rw (append_assoc xs (b ∷ ys) zs)
          (replace-IsRing m1 h a b xs (ys ++ zs) (ground arith) (ground arith) r1) in
      let pos : (if m.prev b == a then b else m.prev b) ≡ last h (xs ++ b ∷ ys) =
        ap (λ (p : Ptr). if p == a then b else p)
          ((Parts-of m h (xs ++ a ∷ ys) b zs r').joint.1 ∙ last-append h a xs ys)
        ∙ swap_position a b ys (ground arith)
        ∙ sym (last-append h b xs ys) in
      rw pos (
        rw (append_assoc xs (b ∷ ys) (a ∷ zs)) at
          (add-IsRing m2 h a (xs ++ b ∷ ys) zs (ground arith) (ground arith) r2))

  -- `dlist_swap` exchanges two entries where the second argument stands in front of the first.
  swap-IsRing_backward : IsRing (swap b a m) h (xs ++ b ∷ (ys ++ a ∷ zs))
  unfolding swap
  swap-IsRing_backward =
      let fresh_a = entry_fresh m h a xs (ys ++ b ∷ zs) r in
      let m1 = remove a m in
      let r1 : IsRing m1 h ((xs ++ ys) ++ b ∷ zs) =
        rw (append_assoc xs ys (b ∷ zs)) (remove-IsRing m h a xs (ys ++ b ∷ zs) r).0 in
      let fresh_b = entry_fresh m1 h b (xs ++ ys) zs r1 in
      let m2 = replace b a m1 in
      let f1 = has-append a xs (ys ++ b ∷ zs) in
      let f2 = has-append a ys (b ∷ zs) in
      let f3 = has-append a xs ys in
      let f4 = has-append b (xs ++ ys) zs in
      let f5 = has-append b xs ys in
      let f6 = has-append b ys (a ∷ zs) in
      let r2 : IsRing m2 h (xs ++ (ys ++ a ∷ zs)) =
        rw (append_assoc xs ys (a ∷ zs)) at
          (replace-IsRing m1 h b a (xs ++ ys) zs (ground arith) (ground arith) r1) in
      let pos : (if m.prev a == b then a else m.prev a) ≡ last h xs =
        ap (λ (p : Ptr). if p == b then a else p) (Parts-of m h xs a (ys ++ b ∷ zs) r).joint.1
        ∙ swap_position_other b a h xs (ground arith) in
      rw pos (add-IsRing m2 h b xs (ys ++ a ∷ zs) (ground arith) (ground arith) r2)

-- `dlist_swap` exchanges two entries of a list, whichever of them it is given first, and leaves all
-- others in their places.
pub swap-IsRing :
    (m : Mem) (h a b : Ptr) (xs ys zs : List Ptr)
    → IsRing m h (xs ++ a ∷ (ys ++ b ∷ zs))
    → IsRing (swap a b m) h (xs ++ b ∷ (ys ++ a ∷ zs))
      × IsRing (swap b a m) h (xs ++ b ∷ (ys ++ a ∷ zs))
swap-IsRing m h a b xs ys zs r =
    (swap-IsRing_forward m h a b xs ys zs r, swap-IsRing_backward m h a b xs ys zs r)
