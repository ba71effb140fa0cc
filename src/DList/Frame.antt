-- ===== src/DList/Frame.antt =====
-- Two lists in one memory: work on the one leaves the other alone.
use yuzuos.Base.{◌≡◌, refl, true, false, List, [], ◌∷◌, ◌++◌, arith, last}
use mathlib.Core.List.{append-nil}
use yuzuos.Base.Distinct.{has, Apart, Apart-symm, not-has, Apart-drop, has-last, has-append}
use yuzuos.DList.{Ptr, Mem, add, add_tail, entry_remove, move, move_tail, rotate_left, is_empty}
use yuzuos.DList.Segment.{IsRing, link}
use yuzuos.DList.Parts.{Parts, Parts-of}
use yuzuos.DList.Insert.{add-link, add_tail-link, add-IsRing, add_tail-IsRing, first_or}
use yuzuos.DList.Remove.{IsRing-link, entry_remove-link, entry_remove-IsRing, entry_fresh}

-- The nodes before and behind an entry belong to its ring.
has-before : (h e : Ptr) (xs ys : List Ptr) → has (last h xs) (h ∷ xs ++ e ∷ ys) ≡ true
has-before h e xs ys = ground (arith, has-append (last h xs) (h ∷ xs) (e ∷ ys), has-last h xs)

has-behind : (h e : Ptr) (xs ys : List Ptr) → has (first_or ys h) (h ∷ xs ++ e ∷ ys) ≡ true
has-behind h e xs [] = ground arith
has-behind h e xs (y ∷ ys) = ground (arith, has-append y (h ∷ xs) (e ∷ y ∷ ys))

next-entry : (m : Mem) (h e : Ptr) (xs ys : List Ptr) → Parts m h xs e ys → m.next e ≡ first_or ys h
next-entry m h e xs [] p = p.closing.0
next-entry m h e xs (y ∷ ys) p = p.path_right.0.0

pub next-last :
    (m : Mem) (h : Ptr) (xs ys : List Ptr)
    → IsRing m h (xs ++ ys)
    → m.next (last h xs) ≡ first_or ys h
next-last m h xs [] r = (rw (append-nil xs) at r).closes.0
next-last m h xs (y ∷ ys) r = (Parts-of m h xs y ys r).joint.0

pub prev-first :
    (m : Mem) (h : Ptr) (xs ys : List Ptr)
    → IsRing m h (xs ++ ys)
    → m.prev (first_or ys h) ≡ last h xs
prev-first m h xs [] r = (rw (append-nil xs) at r).closes.1
prev-first m h xs (y ∷ ys) r = (Parts-of m h xs y ys r).joint.1

has-first_or : (h : Ptr) (xs ys : List Ptr) → has (first_or ys h) (h ∷ xs ++ ys) ≡ true
has-first_or h xs [] = ground arith
has-first_or h xs (y ∷ ys) = ground (arith, has-append y (h ∷ xs) (y ∷ ys))

has-last_of : (h : Ptr) (xs ys : List Ptr) → has (last h xs) (h ∷ xs ++ ys) ≡ true
has-last_of h xs ys = ground (arith, has-append (last h xs) (h ∷ xs) ys, has-last h xs)

-- A node added to the list at `h` leaves the list at `g` alone.
module _ (m : Mem) (h new : Ptr) (xs ys : List Ptr) (g : Ptr) (zs : List Ptr)
    (here : IsRing m h (xs ++ ys)) (there : IsRing m g zs) (fresh : has new (g ∷ zs) ≡ false)
    (apart : Apart (h ∷ xs ++ ys) (g ∷ zs)) where
  between : IsRing (link (last h xs) new (link new (first_or ys h) m)) g zs
  between =
      IsRing-link (last h xs) new g zs (link new (first_or ys h) m)
        (not-has (last h xs) (h ∷ xs ++ ys) (g ∷ zs) apart (has-last_of h xs ys)) fresh
        (IsRing-link new (first_or ys h) g zs m fresh
          (not-has (first_or ys h) (h ∷ xs ++ ys) (g ∷ zs) apart (has-first_or h xs ys)) there)

  pub add-off : IsRing (add new (last h xs) m) g zs
  add-off = rw (add-link new (last h xs) m, next-last m h xs ys here) between

  pub add_tail-off : IsRing (add_tail new (first_or ys h) m) g zs
  add_tail-off = rw (add_tail-link new (first_or ys h) m, prev-first m h xs ys here) between

module _ (m : Mem) (g e : Ptr) (us vs : List Ptr) (h : Ptr) (xs : List Ptr)
    (from : IsRing m g (us ++ e ∷ vs)) (to : IsRing m h xs)
    (apart : Apart (g ∷ us ++ e ∷ vs) (h ∷ xs)) where
  pub entry_remove-off : IsRing (entry_remove e m) h xs
  entry_remove-off =
      let p = Parts-of m g us e vs from in
      rw (entry_remove-link e m, p.joint.1, next-entry m g e us vs p)
        (IsRing-link (last g us) (first_or vs g) h xs m
          (not-has (last g us) (g ∷ us ++ e ∷ vs) (h ∷ xs) apart (has-before g e us vs))
          (not-has (first_or vs g) (g ∷ us ++ e ∷ vs) (h ∷ xs) apart (has-behind g e us vs)) to)

  has-entry : has e (h ∷ xs) ≡ false
  has-entry =
      not-has e (g ∷ us ++ e ∷ vs) (h ∷ xs) apart (ground (arith, has-append e (g ∷ us) (e ∷ vs)))

  left-Apart : Apart (h ∷ xs) (g ∷ us ++ vs)
  left-Apart = Apart-drop (h ∷ xs) (g ∷ us) vs e (Apart-symm (g ∷ us ++ e ∷ vs) (h ∷ xs) apart)

  -- `dlist_move` takes an entry out of its list and puts it in front of another.
  pub move-IsRing : IsRing (move e h m) h (e ∷ xs) × IsRing (move e h m) g (us ++ vs)
  unfolding move
  move-IsRing =
      let m1 = entry_remove e m in
      let left = entry_remove-IsRing m g e us vs from in
      (
        add-IsRing m1 h e [] xs (ground (arith, has-entry)) (ground (arith, has-entry))
            entry_remove-off,
        add-off m1 h e [] xs g (us ++ vs) entry_remove-off left (entry_fresh m g e us vs from)
            left-Apart,
      )

  -- `dlist_move_tail` takes an entry out of its list and puts it behind the entries of another list,
  -- apart from the first; both stay rings.
  pub move_tail-IsRing :
      IsRing (move_tail e h m) h (xs ++ e ∷ []) × IsRing (move_tail e h m) g (us ++ vs)
  unfolding move_tail
  move_tail-IsRing =
      let m1 = entry_remove e m in
      let left = entry_remove-IsRing m g e us vs from in
      let whole : IsRing m1 h (xs ++ []) = rw (append-nil xs) entry_remove-off in
      (
        add_tail-IsRing m1 h e xs [] has-entry refl whole,
        add_tail-off m1 h e xs [] g (us ++ vs) whole left (entry_fresh m g e us vs from)
            (rw (append-nil xs) left-Apart),
      )

-- The first entry moved behind the last.
unfoldable pub rotate : List Ptr → List Ptr
rotate [] = []
rotate (x ∷ xs) = xs ++ x ∷ []

-- `dlist_rotate_left` moves the first entry behind the last, and leaves an empty list as it is.
pub rotate_left-IsRing :
    (m : Mem) (h : Ptr) (xs : List Ptr) → IsRing m h xs → IsRing (rotate_left h m) h (rotate xs)
unfolding rotate_left move_tail rotate
rotate_left-IsRing m h [] r = rw (r.closes.0) (ground arith)
rotate_left-IsRing m h (x ∷ xs) r =
    let m1 = entry_remove x m in
    let out = entry_fresh m h x [] xs r in
    let ring : IsRing m1 h (xs ++ []) = rw (append-nil xs) (entry_remove-IsRing m h x [] xs r) in
    let full : is_empty h m ≡ false = ground (arith, r.path.0.0, r.distinct.0) in
    rw (full, r.path.0.0) (add_tail-IsRing m1 h x xs [] out refl ring)
