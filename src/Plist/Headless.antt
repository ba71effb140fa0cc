-- ===== src/Plist/Headless.antt =====
-- Rings without a head of their own, such as the first nodes of each priority.
use yuzuos.Base.{◌≡◌, refl, Bool, true, false, List, [], ◌∷◌, ◌++◌, arith}
use mathlib.Core.List.{append-nil}
use yuzuos.Base.Distinct.{has, Apart, Apart-symm, has-append}
use yuzuos.DList.{Ptr, Mem, add_tail}
use yuzuos.DList.Segment.{IsRing}
use yuzuos.DList.Parts.{Parts-of, entry_off}
use yuzuos.DList.Insert.{add_tail-IsRing, first_or}
use yuzuos.DList.Frame.{add_tail-off}
use yuzuos.Plist.Groups.{IsHeadless}

abbrev pub is_some : List Ptr → Bool
is_some [] = false
is_some (x ∷ xs) = true

-- The last entry of a ring read as its head.
IsRing-back :
    (m : Mem) (h e : Ptr) (xs : List Ptr) → IsRing m h (xs ++ e ∷ []) → IsRing m e (h ∷ xs)
IsRing-back m h e xs r =
    let p = Parts-of m h xs e [] r in
    record {
      distinct = (entry_off h xs e [] p.apart, p.left);
      path = (p.closing, p.path_left);
      closes = p.joint;
    }

-- `dlist_add_tail` of a new node before the first of `vs`, or behind all of `us`.
pub add_tail-IsHeadless :
    (m : Mem) (new : Ptr) (us vs : List Ptr)
    → is_some (us ++ vs) ≡ true
    → has new (us ++ vs) ≡ false
    → IsHeadless m (us ++ vs)
    → IsHeadless (add_tail new (first_or vs (first_or us new)) m) (us ++ new ∷ vs)
add_tail-IsHeadless m new [] [] full fresh r = absurd (ground arith)
add_tail-IsHeadless m new [] (v ∷ vs) full fresh r =
    IsRing-back (add_tail new v m) v new vs
      (add_tail-IsRing m v new vs [] fresh refl (rw (append-nil vs) r))
add_tail-IsHeadless m new (u ∷ us) vs full fresh r =
    add_tail-IsRing m u new us vs (ground (arith, has-append new (u ∷ us) vs))
      (ground (arith, has-append new (u ∷ us) vs)) r

-- A list elsewhere is left alone by it.
pub add_tail_headless-off :
    (m : Mem) (new : Ptr) (us vs : List Ptr) (g : Ptr) (zs : List Ptr)
    → is_some (us ++ vs) ≡ true
    → has new (g ∷ zs) ≡ false
    → Apart (us ++ vs) (g ∷ zs)
    → IsHeadless m (us ++ vs)
    → IsRing m g zs
    → IsRing (add_tail new (first_or vs (first_or us new)) m) g zs
add_tail_headless-off m new [] [] g zs full fresh apart r there = absurd (ground arith)
add_tail_headless-off m new [] (v ∷ vs) g zs full fresh apart r there =
    add_tail-off m v new vs [] g zs (rw (append-nil vs) r) there fresh (rw (append-nil vs) apart)
add_tail_headless-off m new (u ∷ us) vs g zs full fresh apart r there =
    add_tail-off m u new us vs g zs r there fresh apart

-- And a ring of first nodes is left alone by a node added to a list elsewhere.
pub IsHeadless-off :
    (m : Mem) (h new : Ptr) (xs ys ts : List Ptr)
    → IsRing m h (xs ++ ys)
    → has new ts ≡ false
    → Apart (h ∷ xs ++ ys) ts
    → IsHeadless m ts
    → IsHeadless (add_tail new (first_or ys h) m) ts
IsHeadless-off m h new xs ys [] here fresh apart r = tt
IsHeadless-off m h new xs ys (t ∷ ts) here fresh apart r =
    add_tail-off m h new xs ys t ts here r fresh apart

-- A list is still apart when a number that the other does not hold comes into its middle.
pub Apart-insert :
    (us vs ys : List Ptr) (n : Ptr)
    → has n ys ≡ false
    → Apart (us ++ vs) ys
    → Apart (us ++ n ∷ vs) ys
Apart-insert [] vs ys n out apart = (out, apart)
Apart-insert (u ∷ us) vs ys n out apart = (apart.0, Apart-insert us vs ys n out apart.1)

pub Apart-insert_right :
    (xs us vs : List Ptr) (n : Ptr)
    → has n xs ≡ false
    → Apart xs (us ++ vs)
    → Apart xs (us ++ n ∷ vs)
Apart-insert_right xs us vs n out apart =
    Apart-symm (us ++ n ∷ vs) xs (Apart-insert us vs xs n out (Apart-symm xs (us ++ vs) apart))
