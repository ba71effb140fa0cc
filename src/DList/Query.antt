-- ===== src/DList/Query.antt =====
-- What the tests and the loop over a ring give.
use yuzuos.Base.{
  ℕ, zero, suc, ◌<◌, ◌≡◌, Bool, true, false, some, List, [], ◌∷◌, arith, ◌==◌, last, length,
}
use yuzuos.Base.Distinct.{has, has-last, has-ne}
use yuzuos.DList.{Ptr, Mem, is_empty, is_singular, empty_careful, foreach_from, foreach}
use yuzuos.DList.Segment.{Link, Segment, IsRing}

abbrev pub has_none : List Ptr → Bool
has_none [] = true
has_none (x ∷ xs) = false

abbrev pub has_one : List Ptr → Bool
has_one [] = false
has_one (x ∷ xs) = has_none xs

-- `dlist_is_empty` and `dlist_empty_careful` tell whether there is no entry, and
-- `dlist_is_singular` whether there is exactly one.
pub tests_of_IsRing :
    (m : Mem) (h : Ptr) (xs : List Ptr)
    → IsRing m h xs
    → (is_empty h m ≡ has_none xs)
      × (empty_careful h m ≡ has_none xs)
      × (is_singular h m ≡ has_one xs)
unfolding is_empty is_singular empty_careful
tests_of_IsRing m h [] r = ground (arith, r.closes)
tests_of_IsRing m h (x ∷ []) r = ground (arith, r.closes, r.path.0, r.distinct)
tests_of_IsRing m h (x ∷ y ∷ ys) r =
    let other : (last y ys == x) ≡ false =
      has-ne x (last y ys) (y ∷ ys) r.distinct.1.0 (has-last y ys) in
    ground (arith, r.closes, r.path.0, r.distinct.0, other)

foreach_from-Segment :
    (m : Mem) (h a : Ptr) (ys : List Ptr) (fuel : ℕ)
    → has h ys ≡ false
    → Segment m a ys
    → Link m (last a ys) h
    → length ys < fuel
    → foreach_from fuel (m.next a) h m ≡ some ys
unfolding foreach_from
foreach_from-Segment m h a ys zero out p l enough = absurd (omega arith)
foreach_from-Segment m h a [] (suc fuel) out p l enough = rw l.0 (ground arith)
foreach_from-Segment m h a (y ∷ ys) (suc fuel) out p l enough =
    rw p.0.0 (ground (arith, foreach_from-Segment m h y ys fuel (ground arith) p.1 l (omega arith)))

-- `dlist_foreach` over a list comes to its end, given more rounds than there are entries, and visits
-- each entry once, in order.
pub foreach-IsRing :
    (m : Mem) (h : Ptr) (xs : List Ptr) (fuel : ℕ)
    → IsRing m h xs
    → length xs < fuel
    → foreach fuel h m ≡ some xs
unfolding foreach
foreach-IsRing m h xs fuel r enough =
    foreach_from-Segment m h h xs fuel r.distinct.0 r.path r.closes enough
