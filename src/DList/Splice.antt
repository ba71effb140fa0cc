-- ===== src/DList/Splice.antt =====
-- `dlist_splice` and its variants: the entries of one list put into another.
use yuzuos.Base.{◌≡◌, refl, sym, false, List, [], ◌∷◌, ◌++◌, arith, ◌==◌, last, last-append}
use mathlib.Core.Path.{subst}
use mathlib.Core.List.{append-nil}
use yuzuos.Base.Distinct.{
  has, has-append, has-last, has-ne, Distinct, Distinct-append, Apart, Apart-append_right,
  Apart-symm, Apart-left, Apart-right, Apart-tail,
}
use yuzuos.DList.{
  Ptr, Mem, is_empty, splice_internal, splice, splice_init, splice_tail, splice_tail_init,
}
use yuzuos.DList.Segment.{
  Link, Segment, IsRing, link, Segment-append, Segment-link-last, Segment-link_off, Link-link,
  Link-new,
}
use yuzuos.DList.Parts.{Parts-of, IsRing-of, last_off, entry_off, end_off}
use yuzuos.DList.Insert.{first_or}
use yuzuos.DList.Frame.{next-last, prev-first}
use yuzuos.DList.Query.{has_none, tests_of_IsRing}
use yuzuos.DList.Remove.{head_init-IsRing, IsRing-head_init}

splice_internal-link :
    (list p n : Ptr) (m : Mem)
    → splice_internal list p n m ≡ link (m.prev list) n (link p (m.next list) m)
unfolding splice_internal
splice_internal-link list p n m = refl

-- A segment `y`, `ys` linked in behind a segment `h`, `us`.
module _ (m : Mem) (h : Ptr) (us : List Ptr) (y : Ptr) (ys : List Ptr) (left : Distinct (h ∷ us))
    (right : Distinct (y ∷ ys)) (apart : Apart (h ∷ us) (y ∷ ys)) (path : Segment m h us)
    (path' : Segment m y ys) where
  e_off : has y (h ∷ us) ≡ false
  e_off = entry_off h us y ys apart

  l_off : has (last h us) (y ∷ ys) ≡ false
  l_off = last_off h us y ys apart

  t_off : has (last y ys) (h ∷ us) ≡ false
  t_off = end_off h us y ys apart

  ends_ne : (last h us == last y ys) ≡ false
  ends_ne = has-ne (last y ys) (last h us) (h ∷ us) t_off (has-last h us)

  splice_end : IsRing (link (last y ys) h (link (last h us) y m)) h (us ++ y ∷ ys)
  splice_end =
      let p = last h us in
      let t = last y ys in
      let m1 = link p y m in
      IsRing-of (link t h m1) h us y ys (record {
        left = left;
        right = right;
        apart = apart;
        path_left =
            Segment-link_off t h h us m1 t_off left.0
              (Segment-link-last y h us m left (ground (arith, e_off)) path);
        joint = Link-link t h p y m1 ends_ne (ground (arith, e_off)) (Link-new p y m);
        path_right =
            Segment-link-last h y ys m1 right (ground (arith, apart.0))
              (Segment-link_off p y y ys m l_off right.0 path');
        closing = Link-new t h m1;
      })

  splice_mid :
      (v : Ptr) (vs : List Ptr)
      → Distinct (v ∷ vs)
      → Apart (h ∷ us) (v ∷ vs)
      → Apart (y ∷ ys) (v ∷ vs)
      → Segment m v vs
      → Link m (last v vs) h
      → IsRing (link (last y ys) v (link (last h us) y m)) h (us ++ y ∷ (ys ++ v ∷ vs))
  splice_mid v vs third apart_uv apart_yv path'' closing =
      let p = last h us in
      let t = last y ys in
      let m1 = link p y m in
      let v_off = entry_off h us v vs apart_uv in
      let v_off_y = entry_off y ys v vs apart_yv in
      let p_off_v = last_off h us v vs apart_uv in
      let t_off_v = last_off y ys v vs apart_yv in
      let y_off_v : has y (v ∷ vs) ≡ false = apart_yv.0 in
      let z = has-last v vs in
      IsRing-of (link t v m1) h us y (ys ++ v ∷ vs) (record {
        left = left;
        right = Distinct-append (y ∷ ys) (v ∷ vs) right third apart_yv;
        apart = Apart-append_right (h ∷ us) (y ∷ ys) (v ∷ vs) apart apart_uv;
        path_left =
            Segment-link_off t v h us m1 t_off (ground (arith, v_off))
              (Segment-link-last y h us m left (ground (arith, e_off)) path);
        joint = Link-link t v p y m1 ends_ne (ground (arith, y_off_v)) (Link-new p y m);
        path_right =
            Segment-append y v ys vs (link t v m1)
              (Segment-link-last v y ys m1 right (ground (arith, v_off_y))
                (Segment-link_off p y y ys m l_off right.0 path'))
              (Link-new t v m1)
              (Segment-link_off t v v vs m1 t_off_v third.0
                (Segment-link_off p y v vs m p_off_v (ground (arith, y_off_v)) path''));
        closing = rw (last-append y v ys vs) (
            Link-link t v (last v vs) h m1 (has-ne t (last v vs) (v ∷ vs) t_off_v z)
              (ground (arith, apart_uv.0))
              (Link-link p y (last v vs) h m (has-ne p (last v vs) (v ∷ vs) p_off_v z)
                (ground (arith, e_off)) closing));
      })

-- The segment of one ring put into another between two neighbours.
splice_between :
    (m : Mem) (list h y : Ptr) (ys us vs : List Ptr)
    → IsRing m list (y ∷ ys)
    → IsRing m h (us ++ vs)
    → Apart (h ∷ us ++ vs) (y ∷ ys)
    → IsRing (splice_internal list (last h us) (first_or vs h) m) h (us ++ y ∷ (ys ++ vs))
splice_between m list h y ys us [] from to apart =
    let r = rw (append-nil us) at to in
    let a = rw (append-nil us) at apart in
    let done : IsRing (splice_internal list (last h us) h m) h (us ++ y ∷ ys) =
      rw (splice_internal-link list (last h us) h m, from.path.0.0, from.closes.1)
        (splice_end m h us y ys r.distinct from.distinct.1 a r.path from.path.1) in
    subst (λ (l : List Ptr). IsRing (splice_internal list (last h us) h m) h (us ++ y ∷ l))
      (sym (append-nil ys)) done
splice_between m list h y ys us (v ∷ vs) from to apart =
    let p = Parts-of m h us v vs to in
    let a = Apart-symm (h ∷ us ++ v ∷ vs) (y ∷ ys) apart in
    rw (splice_internal-link list (last h us) v m, from.path.0.0, from.closes.1)
      (splice_mid m h us y ys p.left from.distinct.1
        (Apart-symm (y ∷ ys) (h ∷ us) (Apart-left (y ∷ ys) (h ∷ us) (v ∷ vs) a)) p.path_left
        from.path.1 v vs p.right p.apart (Apart-right (y ∷ ys) (h ∷ us) (v ∷ vs) a) p.path_right
        p.closing)

module _ (m : Mem) (list h : Ptr) (ys xs : List Ptr) (from : IsRing m list ys) (to : IsRing m h xs)
    (apart : Apart (h ∷ xs) (list ∷ ys)) where
  not_empty : is_empty list m ≡ has_none ys
  not_empty = (tests_of_IsRing m list ys from).0

-- `dlist_splice` puts the entries of the first list in front of those of the second.
pub splice-IsRing :
    (m : Mem) (list h : Ptr) (ys xs : List Ptr)
    → IsRing m list ys
    → IsRing m h xs
    → Apart (h ∷ xs) (list ∷ ys)
    → IsRing (splice list h m) h (ys ++ xs)
unfolding splice
splice-IsRing m list h [] xs from to apart = rw (not_empty m list h [] xs from to apart) to
splice-IsRing m list h (y ∷ ys) xs from to apart =
    rw (not_empty m list h (y ∷ ys) xs from to apart, next-last m h [] xs to)
      (splice_between m list h y ys [] xs from to (Apart-tail (h ∷ xs) (y ∷ ys) list apart))

-- `dlist_splice_tail` puts them behind.
pub splice_tail-IsRing :
    (m : Mem) (list h : Ptr) (ys xs : List Ptr)
    → IsRing m list ys
    → IsRing m h xs
    → Apart (h ∷ xs) (list ∷ ys)
    → IsRing (splice_tail list h m) h (xs ++ ys)
unfolding splice_tail
splice_tail-IsRing m list h [] xs from to apart =
    rw (not_empty m list h [] xs from to apart, append-nil xs) to
splice_tail-IsRing m list h (y ∷ ys) xs from to apart =
    let whole : IsRing m h (xs ++ []) = rw (append-nil xs) to in
    let done =
      splice_between m list h y ys xs [] from whole
        (rw (append-nil xs) (Apart-tail (h ∷ xs) (y ∷ ys) list apart)) in
    rw (not_empty m list h (y ∷ ys) xs from to apart, prev-first m h xs [] whole)
      (rw (append-nil ys) at done)

-- `dlist_splice_init` puts the entries of the first list in front of those of a second that is apart
-- from it, and leaves the first empty.
splice_init-IsRing :
    (m : Mem) (list h : Ptr) (ys xs : List Ptr)
    → IsRing m list ys
    → IsRing m h xs
    → Apart (h ∷ xs) (list ∷ ys)
    → IsRing (splice_init list h m) h (ys ++ xs) × IsRing (splice_init list h m) list []
unfolding splice_init splice
splice_init-IsRing m list h [] xs from to apart =
    rw (not_empty m list h [] xs from to apart) (to, from)
splice_init-IsRing m list h (y ∷ ys) xs from to apart =
    let e = not_empty m list h (y ∷ ys) xs from to apart in
    let m1 = splice_internal list h (m.next h) m in
    let done : IsRing m1 h (y ∷ ys ++ xs) =
      rw e at (splice-IsRing m list h (y ∷ ys) xs from to apart) in
    rw e (
      head_init-IsRing list h (y ∷ ys ++ xs) m1
          (ground (
            arith,
            has-append list (y ∷ ys) xs,
            from.distinct.0,
            entry_off h xs list (y ∷ ys) apart,
          ))
          done,
      IsRing-head_init list m1,
    )

-- `dlist_splice_tail_init` puts the entries of the first list behind those of a second that is apart
-- from it, and leaves the first empty.
splice_tail_init-IsRing :
    (m : Mem) (list h : Ptr) (ys xs : List Ptr)
    → IsRing m list ys
    → IsRing m h xs
    → Apart (h ∷ xs) (list ∷ ys)
    → IsRing (splice_tail_init list h m) h (xs ++ ys) × IsRing (splice_tail_init list h m) list []
unfolding splice_tail_init splice_tail
splice_tail_init-IsRing m list h [] xs from to apart =
    rw (not_empty m list h [] xs from to apart, append-nil xs) (to, from)
splice_tail_init-IsRing m list h (y ∷ ys) xs from to apart =
    let e = not_empty m list h (y ∷ ys) xs from to apart in
    let m1 = splice_internal list (m.prev h) h m in
    let done : IsRing m1 h (xs ++ y ∷ ys) =
      rw e at (splice_tail-IsRing m list h (y ∷ ys) xs from to apart) in
    rw e (
      head_init-IsRing list h (xs ++ y ∷ ys) m1
          (ground (
            arith,
            has-append list xs (y ∷ ys),
            from.distinct.0,
            entry_off h xs list (y ∷ ys) apart,
          ))
          done,
      IsRing-head_init list m1,
    )
