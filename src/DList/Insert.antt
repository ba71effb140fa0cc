-- ===== src/DList/Insert.antt =====
-- `dlist_add` and `dlist_add_tail`, before the first entry, behind the last and between two.
use yuzuos.Base.{◌≡◌, refl, false, List, [], ◌∷◌, ◌++◌, arith, ◌==◌, last}
use mathlib.Core.List.{append-nil}
use yuzuos.Base.Distinct.{has, Distinct, Apart, Apart-cons, Apart-nil, has-last, has-ne, ne_symm}
use yuzuos.DList.{Ptr, Mem, add, add_tail}
use yuzuos.DList.Segment.{
  Link, Segment, IsRing, link, Segment-link-last, Segment-link_off, Link-link, Link-new,
}
use yuzuos.DList.Parts.{Parts-of, IsRing-of, last_off, entry_off}

-- A new node linked in behind a segment: only the inner links of what stands around it matter.
module _ (m : Mem) (h new : Ptr) (xs : List Ptr) (fresh : has new (h ∷ xs) ≡ false)
    (left : Distinct (h ∷ xs)) (path : Segment m h xs) where
  before_new : (last h xs == new) ≡ false
  before_new = has-ne new (last h xs) (h ∷ xs) fresh (has-last h xs)

  pub insert_end : IsRing (link (last h xs) new (link new h m)) h (xs ++ new ∷ [])
  insert_end =
      let m1 = link new h m in
      IsRing-of (link (last h xs) new m1) h xs new [] (record {
        left = left;
        right = (refl, tt);
        apart = Apart-cons (h ∷ xs) [] new fresh (Apart-nil (h ∷ xs));
        path_left =
            Segment-link-last new h xs m1 left (ground arith)
              (Segment-link_off new h h xs m fresh left.0 path);
        joint = Link-new (last h xs) new m1;
        path_right = tt;
        closing =
            Link-link (last h xs) new new h m1 (ne_symm (last h xs) new before_new) (ground arith)
              (Link-new new h m);
      })

  pub insert_mid :
      (y : Ptr) (ys : List Ptr)
      → has new (y ∷ ys) ≡ false
      → Distinct (y ∷ ys)
      → Apart (h ∷ xs) (y ∷ ys)
      → Segment m y ys
      → Link m (last y ys) h
      → IsRing (link (last h xs) new (link new y m)) h (xs ++ new ∷ y ∷ ys)
  insert_mid y ys fresh' right apart path' closing =
      let p = last h xs in
      let m1 = link new y m in
      let e = entry_off h xs y ys apart in
      let l = last_off h xs y ys apart in
      let end_new : (last y ys == new) ≡ false =
        has-ne new (last y ys) (y ∷ ys) fresh' (has-last y ys) in
      let end_last : (last y ys == p) ≡ false = has-ne p (last y ys) (y ∷ ys) l (has-last y ys) in
      IsRing-of (link p new m1) h xs new (y ∷ ys) (record {
        left = left;
        right = (fresh', right);
        apart = Apart-cons (h ∷ xs) (y ∷ ys) new fresh apart;
        path_left =
            Segment-link-last new h xs m1 left (ground arith)
              (Segment-link_off new y h xs m fresh (ground arith) path);
        joint = Link-new p new m1;
        path_right = (
          Link-link p new new y m1 (ne_symm p new before_new) (ground arith) (Link-new new y m),
          Segment-link_off p new y ys m1 l (ground arith)
              (Segment-link_off new y y ys m fresh' right.0 path'),
        );
        closing =
            Link-link p new (last y ys) h m1 end_last (ground arith)
              (Link-link new y (last y ys) h m end_new (ground arith) closing);
      })

pub add-link : (new p : Ptr) (m : Mem) → add new p m ≡ link p new (link new (m.next p) m)
unfolding add
add-link new p m = refl

pub add_tail-link : (new y : Ptr) (m : Mem) → add_tail new y m ≡ link (m.prev y) new (link new y m)
unfolding add_tail
add_tail-link new y m = refl

-- The node that follows the entries before it: the first of the rest, or the head.
abbrev pub first_or : List Ptr → Ptr → Ptr
first_or [] h = h
first_or (y ∷ ys) h = y

module _ (m : Mem) (h new : Ptr) (xs : List Ptr) where
  -- `dlist_add` puts a node that is not in the list behind the head or entry that it is given.
  pub add-IsRing :
      (ys : List Ptr)
      → has new (h ∷ xs) ≡ false
      → has new ys ≡ false
      → IsRing m h (xs ++ ys)
      → IsRing (add new (last h xs) m) h (xs ++ new ∷ ys)
  add-IsRing [] fresh fresh' r =
      let r' = rw (append-nil xs) at r in
      rw (add-link new (last h xs) m, r'.closes.0) (insert_end m h new xs fresh r'.distinct r'.path)
  add-IsRing (y ∷ ys) fresh fresh' r =
      let p = Parts-of m h xs y ys r in
      rw (add-link new (last h xs) m, p.joint.0)
        (insert_mid m h new xs fresh p.left p.path_left y ys fresh' p.right p.apart p.path_right
          p.closing)

  -- `dlist_add_tail` puts a node that is not in the list before the head or entry that it is given.
  pub add_tail-IsRing :
      (ys : List Ptr)
      → has new (h ∷ xs) ≡ false
      → has new ys ≡ false
      → IsRing m h (xs ++ ys)
      → IsRing (add_tail new (first_or ys h) m) h (xs ++ new ∷ ys)
  add_tail-IsRing [] fresh fresh' r =
      let r' = rw (append-nil xs) at r in
      rw (add_tail-link new h m, r'.closes.1) (insert_end m h new xs fresh r'.distinct r'.path)
  add_tail-IsRing (y ∷ ys) fresh fresh' r =
      let p = Parts-of m h xs y ys r in
      rw (add_tail-link new y m, p.joint.1)
        (insert_mid m h new xs fresh p.left p.path_left y ys fresh' p.right p.apart p.path_right
          p.closing)
