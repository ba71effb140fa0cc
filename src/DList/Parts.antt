-- ===== src/DList/Parts.antt =====
-- A ring taken apart at one of its entries, and put together again.
use yuzuos.Base.{◌≡◌, false, List, ◌∷◌, ◌++◌, last, last-append}
use yuzuos.Base.Distinct.{
  has, Distinct, Apart, Distinct-append, Distinct-left, Distinct-right, Apart-append, Apart-symm,
  not-has, has-last,
}
use yuzuos.DList.{Ptr, Mem}
use yuzuos.DList.Segment.{Link, Segment, IsRing, Segment-append, Segment-split}

-- What a ring with the entries `xs`, `y`, `ys` consists of.
pub record Parts (m : Mem) (h : Ptr) (xs : List Ptr) (y : Ptr) (ys : List Ptr) : Type 0 where
  pub left : Distinct (h ∷ xs)
  pub right : Distinct (y ∷ ys)
  pub apart : Apart (h ∷ xs) (y ∷ ys)
  pub path_left : Segment m h xs
  pub joint : Link m (last h xs) y
  pub path_right : Segment m y ys
  pub closing : Link m (last y ys) h

module _ (m : Mem) (h : Ptr) (xs : List Ptr) (y : Ptr) (ys : List Ptr) where
  pub Parts-of : IsRing m h (xs ++ y ∷ ys) → Parts m h xs y ys
  Parts-of r =
      let p = Segment-split h y xs ys m r.path in
      record {
        left = Distinct-left (h ∷ xs) (y ∷ ys) r.distinct;
        right = Distinct-right (h ∷ xs) (y ∷ ys) r.distinct;
        apart = Apart-append (h ∷ xs) (y ∷ ys) r.distinct;
        path_left = p.0;
        joint = p.1;
        path_right = p.2;
        closing = rw (last-append h y xs ys) at r.closes;
      }

  pub IsRing-of : Parts m h xs y ys → IsRing m h (xs ++ y ∷ ys)
  IsRing-of p = record {
    distinct = Distinct-append (h ∷ xs) (y ∷ ys) p.left p.right p.apart;
    path = Segment-append h y xs ys m p.path_left p.joint p.path_right;
    closes = rw (last-append h y xs ys) p.closing;
  }

-- Where the ends of two lists that are apart do not stand.
module _ (h : Ptr) (xs : List Ptr) (y : Ptr) (ys : List Ptr) (apart : Apart (h ∷ xs) (y ∷ ys)) where
  pub last_off : has (last h xs) (y ∷ ys) ≡ false
  last_off = not-has (last h xs) (h ∷ xs) (y ∷ ys) apart (has-last h xs)

  pub entry_off : has y (h ∷ xs) ≡ false
  entry_off = (Apart-symm (h ∷ xs) (y ∷ ys) apart).0

  pub end_off : has (last y ys) (h ∷ xs) ≡ false
  end_off =
      not-has (last y ys) (y ∷ ys) (h ∷ xs) (Apart-symm (h ∷ xs) (y ∷ ys) apart) (has-last y ys)
