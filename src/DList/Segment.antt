-- ===== src/DList/Segment.antt =====
-- Linked segments of a list and whole rings, and how they survive a new link elsewhere.
use yuzuos.Base.{◌≡◌, false, List, [], ◌∷◌, ◌++◌, arith, ◌==◌, last}
use yuzuos.Base.Distinct.{has, Distinct, but_last, has-but_last, has-but_last-last}
use yuzuos.DList.{Ptr, Mem, set_next, set_prev}

-- `a` and `b` point at each other.
abbrev pub Link : Mem → Ptr → Ptr → Type 0
Link m a b = (m.next a ≡ b) × (m.prev b ≡ a)

-- From `a` the nodes `xs` follow one another.
abbrev pub Segment : Mem → Ptr → List Ptr → Type 0
Segment m a [] = Unit {0}
Segment m a (x ∷ xs) = Link m a x × Segment m x xs

-- A list head `h` with the entries `xs`, in order.
pub record IsRing (m : Mem) (h : Ptr) (xs : List Ptr) : Type 0 where
  pub distinct : Distinct (h ∷ xs)
  pub path : Segment m h xs
  pub closes : Link m (last h xs) h

-- The two writes that link `a` to `b`.
abbrev pub link : Ptr → Ptr → Mem → Mem
link a b m = set_prev b a (set_next a b m)

-- A segment survives a write to `next` of a node that is not among those before its last.
pub Segment-set_next :
    (s v a : Ptr) (xs : List Ptr) (m : Mem)
    → has s (but_last a xs) ≡ false
    → Segment m a xs
    → Segment (set_next s v m) a xs
Segment-set_next s v a [] m out p = tt
Segment-set_next s v a (x ∷ xs) m out p =
    ((ground arith, p.0.1), Segment-set_next s v x xs m (ground arith) p.1)

-- A segment survives a write to `prev` of a node that is not among those after its first.
pub Segment-set_prev :
    (t v a : Ptr) (xs : List Ptr) (m : Mem)
    → has t xs ≡ false
    → Segment m a xs
    → Segment (set_prev t v m) a xs
Segment-set_prev t v a [] m out p = tt
Segment-set_prev t v a (x ∷ xs) m out p =
    ((p.0.0, ground arith), Segment-set_prev t v x xs m (ground arith) p.1)

pub Segment-link :
    (s t a : Ptr) (xs : List Ptr) (m : Mem)
    → has s (but_last a xs) ≡ false
    → has t xs ≡ false
    → Segment m a xs
    → Segment (link s t m) a xs
Segment-link s t a xs m souts touts p =
    Segment-set_prev t s a xs (set_next s t m) touts (Segment-set_next s t a xs m souts p)

-- A segment is linked from its end.
pub Segment-link-last :
    (t a : Ptr) (xs : List Ptr) (m : Mem)
    → Distinct (a ∷ xs)
    → has t xs ≡ false
    → Segment m a xs
    → Segment (link (last a xs) t m) a xs
Segment-link-last t a xs m d out p =
    Segment-link (last a xs) t a xs m (has-but_last-last a xs d) out p

-- A segment is not touched by a link between nodes that it does not hold.
pub Segment-link_off :
    (s t a : Ptr) (xs : List Ptr) (m : Mem)
    → has s (a ∷ xs) ≡ false
    → has t xs ≡ false
    → Segment m a xs
    → Segment (link s t m) a xs
Segment-link_off s t a xs m souts touts p =
    Segment-link s t a xs m (has-but_last s a xs souts) touts p

pub Segment-append :
    (a y : Ptr) (xs ys : List Ptr) (m : Mem)
    → Segment m a xs
    → Link m (last a xs) y
    → Segment m y ys
    → Segment m a (xs ++ y ∷ ys)
Segment-append a y [] ys m p l q = (l, q)
Segment-append a y (x ∷ xs) ys m p l q = (p.0, Segment-append x y xs ys m p.1 l q)

pub Segment-split :
    (a y : Ptr) (xs ys : List Ptr) (m : Mem)
    → Segment m a (xs ++ y ∷ ys)
    → Segment m a xs × Link m (last a xs) y × Segment m y ys
Segment-split a y [] ys m p = (tt, p.0, p.1)
Segment-split a y (x ∷ xs) ys m p =
    let rest = Segment-split x y xs ys m p.1 in ((p.0, rest.0), rest.1, rest.2)

-- Two other nodes linked: the link of `a` to `b` stays.
pub Link-link :
    (s t a b : Ptr) (m : Mem)
    → (a == s) ≡ false
    → (b == t) ≡ false
    → Link m a b
    → Link (link s t m) a b
Link-link s t a b m na nb l = ground arith

pub Link-new : (s t : Ptr) (m : Mem) → Link (link s t m) s t
Link-new s t m = ground arith
