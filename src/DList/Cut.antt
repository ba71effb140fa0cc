-- ===== src/DList/Cut.antt =====
-- `dlist_cut_position` and `dlist_cut_before`: the front of one list made a list of its own.
use yuzuos.Base.{
  ◌≡◌, refl, ◌⊎◌, inl, inr, true, false, not, ◌&&◌, List, [], ◌∷◌, ◌++◌, arith, ◌==◌, last,
}
use mathlib.Core.List.{append-nil}
use yuzuos.Base.Distinct.{has, has-last, has-ne, ne_symm, eq_refl, Distinct, Distinct-left}
use yuzuos.DList.{Ptr, Mem, is_singular, cut_position_internal, cut_position, cut_before, head_init}
use yuzuos.DList.Segment.{
  Link, Segment, IsRing, link, Segment-link-last, Segment-link_off, Link-link, Link-new,
}
use yuzuos.DList.Parts.{Parts-of, last_off, entry_off}
use yuzuos.DList.Insert.{first_or}
use yuzuos.DList.Frame.{next-last}
use yuzuos.DList.Query.{has_none, tests_of_IsRing}
use yuzuos.DList.Remove.{head_init-IsRing, IsRing-head_init}

-- The three links that part the list behind the entry `e`: `n` is what follows it.
abbrev cut_links : (list head first e n : Ptr) → Mem → Mem
cut_links list head first e n m = link head n (link e list (link list first m))

cut_position_internal-links :
    (list head e : Ptr) (m : Mem)
    → cut_position_internal list head e m ≡ cut_links list head (m.next head) e (m.next e) m
unfolding cut_position_internal
cut_position_internal-links list head e m = rw (eq_refl list)

abbrev rest_of : List Ptr → List Ptr
rest_of [] = []
rest_of (v ∷ vs) = vs

module _ (m : Mem) (list h f : Ptr) (us : List Ptr) (fresh : has list (h ∷ f ∷ us) ≡ false)
    (left : Distinct (h ∷ f ∷ us)) (path : Segment m f us) where
  cut_front :
      (n : Ptr)
      → has n (list ∷ f ∷ us) ≡ false
      → IsRing (cut_links list h f (last f us) n m) list (f ∷ us)
  cut_front n n_off =
      let e = last f us in
      let m1 = link list f m in
      let m2 = link e list m1 in
      let e_h : (h == e) ≡ false = ne_symm e h (has-ne h e (f ∷ us) left.0 (has-last f us)) in
      let e_list : (e == list) ≡ false = has-ne list e (f ∷ us) (ground arith) (has-last f us) in
      record {
        distinct = (ground arith, left.1);
        path = (
          Link-link h n list f m2 (ground arith) (ground arith) (
              Link-link e list list f m1 (ne_symm e list e_list) (ground arith)
                (Link-new list f m)),
          Segment-link_off h n f us m2 left.0 (ground arith) (
              Segment-link-last list f us m1 left.1 (ground arith)
                (Segment-link_off list f f us m (ground arith) left.1.0 path)),
        );
        closes = Link-link h n e list m2 (ne_symm h e e_h) (ground arith) (Link-new e list m1);
      }

-- What is left behind the cut.
cut_back :
    (m : Mem) (list h f e : Ptr) (ys : List Ptr)
    → has list (h ∷ ys) ≡ false
    → has f (h ∷ ys) ≡ false
    → has e (h ∷ ys) ≡ false
    → Distinct (h ∷ ys)
    → Segment m (first_or ys h) (rest_of ys)
    → Link m (last h ys) h ⊎ (has_none ys ≡ true)
    → IsRing (cut_links list h f e (first_or ys h) m) h ys
cut_back m list h f e [] list_off f_off e_off d path closing = record {
  distinct = d;
  path = tt;
  closes = Link-new h h (link e list (link list f m));
}
cut_back m list h f e (v ∷ vs) list_off f_off e_off d path (inr none) = absurd (cc)
cut_back m list h f e (v ∷ vs) list_off f_off e_off d path (inl closing) =
    let m1 = link list f m in
    let m2 = link e list m1 in
    let z = has-last v vs in
    let z_list = has-ne list (last v vs) (v ∷ vs) (ground arith) z in
    let z_e = has-ne e (last v vs) (v ∷ vs) (ground arith) z in
    let z_h = has-ne h (last v vs) (v ∷ vs) d.0 z in
    record {
      distinct = d;
      path = (
        Link-new h v m2,
        Segment-link_off h v v vs m2 d.0 d.1.0 (
            Segment-link_off e list v vs m1 (ground arith) (ground arith)
              (Segment-link_off list f v vs m (ground arith) (ground arith) path)),
      );
      closes = Link-link h v (last v vs) h m2 z_h (ground arith) (
          Link-link e list (last v vs) h m1 z_e (ground arith)
            (Link-link list f (last v vs) h m z_list (ground arith) closing));
    }

-- Both lists after the cut.
abbrev pub AreCut : Mem → (list h : Ptr) (front back : List Ptr) → Type 0
AreCut m list h front back = IsRing m list front × IsRing m h back

cut_links-AreCut :
    (m : Mem) (list h f : Ptr) (us ys : List Ptr)
    → has list (h ∷ f ∷ us) ≡ false
    → has list ys ≡ false
    → IsRing m h ((f ∷ us) ++ ys)
    → AreCut (cut_links list h f (last f us) (first_or ys h) m) list h (f ∷ us) ys
cut_links-AreCut m list h f us [] fresh fresh' r =
    let r' : IsRing m h (f ∷ us) = rw (append-nil us) at r in
    let e_h = has-ne h (last f us) (f ∷ us) r'.distinct.0 (has-last f us) in
    (
      cut_front m list h f us fresh r'.distinct r'.path.1 h (ground (arith, r'.distinct.0)),
      cut_back m list h f (last f us) [] (ground arith) (ground (arith, r'.distinct.0))
          (ground arith) (refl, tt) tt (inr refl),
    )
cut_links-AreCut m list h f us (v ∷ vs) fresh fresh' r =
    let p = Parts-of m h (f ∷ us) v vs r in
    let v_off = entry_off h (f ∷ us) v vs p.apart in
    let e_off : has (last f us) (v ∷ vs) ≡ false = last_off h (f ∷ us) v vs p.apart in
    let e_h = has-ne h (last f us) (f ∷ us) p.left.0 (has-last f us) in
    (
      cut_front m list h f us fresh p.left p.path_left.1 v (ground arith),
      cut_back m list h f (last f us) (v ∷ vs) (ground arith)
          (ground (arith, p.left.0, p.apart.1.0)) (ground arith) (p.apart.0, p.right) p.path_right
          (inl p.closing),
    )

next-entry :
    (m : Mem) (h f : Ptr) (us ys : List Ptr)
    → IsRing m h ((f ∷ us) ++ ys)
    → m.next (last f us) ≡ first_or ys h
next-entry m h f us ys r = next-last m h (f ∷ us) ys r

-- The second test of `dlist_cut_position` fails at an entry of the list.
not_elsewhere :
    (m : Mem) (h f : Ptr) (us ys : List Ptr)
    → IsRing m h ((f ∷ us) ++ ys)
    → (is_singular h m && (not (m.next h == last f us) && not (h == last f us))) ≡ false
not_elsewhere m h f [] ys r = rw (r.path.0.0, eq_refl f) (ground arith)
not_elsewhere m h f (u ∷ us) ys r = rw ((tests_of_IsRing m h (f ∷ u ∷ us ++ ys) r).2)

-- `dlist_cut_position` at an entry moves the entries up to it into the list at a head that is not in
-- the old one, in order, and leaves the others behind.
cut_position-AreCut :
    (m : Mem) (list h f : Ptr) (us ys : List Ptr)
    → has list (h ∷ f ∷ us) ≡ false
    → has list ys ≡ false
    → IsRing m h ((f ∷ us) ++ ys)
    → AreCut (cut_position list h (last f us) m) list h (f ∷ us) ys
unfolding cut_position
cut_position-AreCut m list h f us ys fresh fresh' r =
    let e_h =
      has-ne h (last f us) (f ∷ us) (Distinct-left (h ∷ f ∷ us) ys r.distinct).0 (has-last f us) in
    rw
      (
        not_elsewhere m h f us ys r,
        (tests_of_IsRing m h ((f ∷ us) ++ ys) r).0,
        e_h,
        cut_position_internal-links list h (last f us) m,
        r.path.0.0,
        next-entry m h f us ys r,
      )
      (cut_links-AreCut m list h f us ys fresh fresh' r)

-- `dlist_cut_before` at an entry that is not the first moves the entries in front of it into the list
-- at a head that is not in the old one, and leaves it and the others behind.
cut_before-AreCut :
    (m : Mem) (list h f e : Ptr) (us ys : List Ptr)
    → has list (h ∷ f ∷ us) ≡ false
    → has list (e ∷ ys) ≡ false
    → IsRing m h ((f ∷ us) ++ e ∷ ys)
    → AreCut (cut_before list h e m) list h (f ∷ us) (e ∷ ys)
unfolding cut_before
cut_before-AreCut m list h f e us ys fresh fresh' r =
    let p = Parts-of m h (f ∷ us) e ys r in
    let e_f : (e == f) ≡ false = ground (arith, p.apart.1.0) in
    let f_e : (f == e) ≡ false = ground arith in
    rw (r.path.0.0, eq_refl list, e_f, f_e, p.joint.1)
      (cut_links-AreCut m list h f us (e ∷ ys) fresh fresh' r)

-- Cutting at the head, or before the first entry, leaves everything in its place and the new list
-- empty.
pub cut_nothing :
    (m : Mem) (list h f : Ptr) (us : List Ptr)
    → has list (h ∷ f ∷ us) ≡ false
    → IsRing m h (f ∷ us)
    → AreCut (cut_before list h f m) list h [] (f ∷ us)
      × AreCut (cut_position list h h m) list h [] (f ∷ us)
unfolding cut_before cut_position
cut_nothing m list h f us fresh r =
    let kept : AreCut (head_init list m) list h [] (f ∷ us) =
      (IsRing-head_init list m, head_init-IsRing list h (f ∷ us) m fresh r) in
    (
      rw (r.path.0.0, eq_refl f) kept,
      rw ((tests_of_IsRing m h (f ∷ us) r).0, eq_refl h) (ground (arith, kept)),
    )
