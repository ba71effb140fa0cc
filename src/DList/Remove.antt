-- ===== src/DList/Remove.antt =====
-- `dlist_remove` and its variants, and moving an entry from one list to another.
use yuzuos.Base.{◌≡◌, refl, false, List, [], ◌∷◌, ◌++◌, arith, last}
use mathlib.Core.List.{append-nil}
use yuzuos.Base.Distinct.{has, Apart-tail, Apart-symm, has-last, has-append, has-ne, has-but_last}
use yuzuos.DList.{Ptr, Mem, null, set_next, set_prev, entry_remove, remove, remove_init, head_init}
use yuzuos.DList.Segment.{
  IsRing, link, Segment-link-last, Segment-link_off, Link-link, Link-new, Segment-set_next,
  Segment-set_prev,
}
use yuzuos.DList.Parts.{Parts, Parts-of, IsRing-of, last_off, entry_off}

pub entry_remove-link : (e : Ptr) (m : Mem) → entry_remove e m ≡ link (m.prev e) (m.next e) m
unfolding entry_remove
entry_remove-link e m = refl

-- Writes to a node that stands nowhere in a ring leave the ring as it was.
pub IsRing-set_next :
    (s v h : Ptr) (xs : List Ptr) (m : Mem)
    → has s (h ∷ xs) ≡ false
    → IsRing m h xs
    → IsRing (set_next s v m) h xs
IsRing-set_next s v h xs m out r = record {
  distinct = r.distinct;
  path = Segment-set_next s v h xs m (has-but_last s h xs out) r.path;
  closes =
      (ground (arith, has-ne s (last h xs) (h ∷ xs) out (has-last h xs), r.closes), r.closes.1);
}

pub IsRing-set_prev :
    (t v h : Ptr) (xs : List Ptr) (m : Mem)
    → has t (h ∷ xs) ≡ false
    → IsRing m h xs
    → IsRing (set_prev t v m) h xs
IsRing-set_prev t v h xs m out r = record {
  distinct = r.distinct;
  path = Segment-set_prev t v h xs m (ground arith) r.path;
  closes = (r.closes.0, ground (arith, r.closes));
}

pub IsRing-link :
    (s t h : Ptr) (xs : List Ptr) (m : Mem)
    → has s (h ∷ xs) ≡ false
    → has t (h ∷ xs) ≡ false
    → IsRing m h xs
    → IsRing (link s t m) h xs
IsRing-link s t h xs m souts touts r =
    IsRing-set_prev t s h xs (set_next s t m) touts (IsRing-set_next s t h xs m souts r)

-- Leaving out the last entry, and one before others.
pub drop_end :
    (m : Mem) (h e : Ptr) (xs : List Ptr) → Parts m h xs e [] → IsRing (link (last h xs) h m) h xs
drop_end m h e xs p = record {
  distinct = p.left;
  path = Segment-link-last h h xs m p.left p.left.0 p.path_left;
  closes = Link-new (last h xs) h m;
}

pub drop_mid :
    (m : Mem) (h e y : Ptr) (xs ys : List Ptr)
    → Parts m h xs e (y ∷ ys)
    → IsRing (link (last h xs) y m) h (xs ++ y ∷ ys)
drop_mid m h e y xs ys p =
    let s = last h xs in
    let l = last_off h xs e (y ∷ ys) p.apart in
    let n = (Apart-symm (h ∷ xs) (y ∷ ys) (Apart-tail (h ∷ xs) (y ∷ ys) e p.apart)).0 in
    IsRing-of (link s y m) h xs y ys (record {
      left = p.left;
      right = p.right.1;
      apart = Apart-tail (h ∷ xs) (y ∷ ys) e p.apart;
      path_left = Segment-link-last y h xs m p.left (ground (arith, n)) p.path_left;
      joint = Link-new s y m;
      path_right = Segment-link_off s y y ys m (ground arith) p.right.1.0 p.path_right.1;
      closing =
          Link-link s y (last y ys) h m
            (has-ne s (last y ys) (y ∷ ys) (ground arith) (has-last y ys))
            (ground (arith, p.apart.0)) p.closing;
    })

-- Unlinking an entry leaves the ring of the others.
pub entry_remove-IsRing :
    (m : Mem) (h e : Ptr) (xs ys : List Ptr)
    → IsRing m h (xs ++ e ∷ ys)
    → IsRing (entry_remove e m) h (xs ++ ys)
entry_remove-IsRing m h e xs [] r =
    let p = Parts-of m h xs e [] r in
    rw (entry_remove-link e m, p.joint.1, p.closing.0, append-nil xs) (drop_end m h e xs p)
entry_remove-IsRing m h e xs (y ∷ ys) r =
    let p = Parts-of m h xs e (y ∷ ys) r in
    rw (entry_remove-link e m, p.joint.1, p.path_right.0.0) (drop_mid m h e y xs ys p)

-- An entry stands nowhere among the others.
pub entry_fresh :
    (m : Mem) (h e : Ptr) (xs ys : List Ptr)
    → IsRing m h (xs ++ e ∷ ys)
    → has e (h ∷ xs ++ ys) ≡ false
entry_fresh m h e xs ys r =
    let p = Parts-of m h xs e ys r in
    ground (arith, has-append e xs ys, entry_off h xs e ys p.apart, p.right.0)

-- `dlist_remove` leaves the ring of the other entries, and NULL in both fields of the removed one.
pub remove-IsRing :
    (m : Mem) (h e : Ptr) (xs ys : List Ptr)
    → IsRing m h (xs ++ e ∷ ys)
    → IsRing (remove e m) h (xs ++ ys) × ((remove e m).next e ≡ null) × ((remove e m).prev e ≡ null)
unfolding remove
remove-IsRing m h e xs ys r =
    let out = entry_fresh m h e xs ys r in
    let m1 = entry_remove e m in
    (
      IsRing-set_prev e null h (xs ++ ys) (set_next e null m1) out
          (IsRing-set_next e null h (xs ++ ys) m1 out (entry_remove-IsRing m h e xs ys r)),
      ground arith,
      ground arith,
    )

pub IsRing-head_init : (list : Ptr) (m : Mem) → IsRing (head_init list m) list []
unfolding head_init
IsRing-head_init list m = record {
  distinct = (refl, tt);
  path = tt;
  closes = (ground arith, ground arith);
}

pub head_init-IsRing :
    (list h : Ptr) (xs : List Ptr) (m : Mem)
    → has list (h ∷ xs) ≡ false
    → IsRing m h xs
    → IsRing (head_init list m) h xs
unfolding head_init
head_init-IsRing list h xs m out r = IsRing-link list list h xs m out out r

-- `dlist_remove_init` leaves the ring of the other entries, and the removed one as an empty ring.
pub remove_init-IsRing :
    (m : Mem) (h e : Ptr) (xs ys : List Ptr)
    → IsRing m h (xs ++ e ∷ ys)
    → IsRing (remove_init e m) h (xs ++ ys) × IsRing (remove_init e m) e []
unfolding remove_init
remove_init-IsRing m h e xs ys r = (
  head_init-IsRing e h (xs ++ ys) (entry_remove e m) (entry_fresh m h e xs ys r)
      (entry_remove-IsRing m h e xs ys r),
  IsRing-head_init e (entry_remove e m),
)
