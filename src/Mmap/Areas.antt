-- ===== src/Mmap/Areas.antt =====
-- Areas in order and apart from each other.
use yuzuos.Base.{
  ℕ, ◌^◌, ◌≤◌, ◌<◌, ◌≡◌, refl, ap, arith, false, List, [], ◌∷◌, ◌++◌, map, ◌==◌, update,
}
use yuzuos.Base.Distinct.{has}
use yuzuos.DList.{Ptr}
use yuzuos.DList.Segment.{IsRing}
use yuzuos.Mmap.{Vm, Mm, vm_list, mm_list}

-- Where the next area starts, or the address space ends.
abbrev pub next_start : (Ptr → Vm) → List Ptr → ℕ
next_start f [] = 2 ^ 32
next_start f (x ∷ xs) = (f x).start

-- Each area is not empty and ends before the next one starts.
abbrev pub IsSorted : (Ptr → Vm) → List Ptr → Type 0
IsSorted f [] = Unit {0}
IsSorted f (x ∷ xs) =
    ((f x).start < (f x).end_at) × ((f x).end_at ≤ next_start f xs) × IsSorted f xs

-- The list of a process holds the areas `xs`, in order; its head does not lie at the null pointer.
pub record IsAreas (s : Mm) (xs : List Ptr) : Type 0 where
  pub lies : 4 ≤ s.at
  pub ring : IsRing s.links (mm_list s.at) (map vm_list xs)
  pub sorted : IsSorted s.vms xs

-- A new area stands at an address that the list does not use.
abbrev pub IsNew : Ptr → Mm → List Ptr → Type 0
IsNew v s xs = has (vm_list v) (mm_list s.at ∷ map vm_list xs) ≡ false

pub map-append : (us vs : List Ptr) → map vm_list (us ++ vs) ≡ map vm_list us ++ map vm_list vs
map-append [] vs = refl
map-append (u ∷ us) vs = ap (λ (r : List Ptr). vm_list u ∷ r) (map-append us vs)

-- The areas before one that ends at `e` start below `e`.
pub next_start_lt :
    (f : Ptr → Vm) (us : List Ptr) (u : Ptr) (vs : List Ptr)
    → IsSorted f (us ++ u ∷ vs)
    → next_start f (us ++ u ∷ vs) < (f u).end_at
next_start_lt f [] u vs s = s.0
next_start_lt f (x ∷ us) u vs s = omega (arith, s.0, s.1, next_start_lt f us u vs s.2)

-- A write to another area changes nothing.
pub next_start-update :
    (f : Ptr → Vm) (v : Ptr) (w : Vm) (xs : List Ptr)
    → has (vm_list v) (map vm_list xs) ≡ false
    → next_start (update f v w) xs ≡ next_start f xs
next_start-update f v w [] out = refl
next_start-update f v w (x ∷ xs) out =
    let other : (x == v) ≡ false = ground arith in rw (next_start, other) refl

pub IsSorted-update :
    (f : Ptr → Vm) (v : Ptr) (w : Vm) (xs : List Ptr)
    → has (vm_list v) (map vm_list xs) ≡ false
    → IsSorted f xs
    → IsSorted (update f v w) xs
IsSorted-update f v w [] out s = tt
IsSorted-update f v w (x ∷ xs) out s =
    let other : (x == v) ≡ false = ground arith in
    let off : has (vm_list v) (map vm_list xs) ≡ false = ground arith in
    rw (other, next_start-update f v w xs off) (s.0, s.1, IsSorted-update f v w xs off s.2)

-- An area that fits in the gap behind `u`.
pub insert-IsSorted :
    (f : Ptr → Vm) (us : List Ptr) (u v : Ptr) (vs : List Ptr)
    → IsSorted f (us ++ u ∷ vs)
    → (f u).end_at ≤ (f v).start
    → (f v).start < (f v).end_at
    → (f v).end_at ≤ next_start f vs
    → IsSorted f (us ++ u ∷ v ∷ vs)
insert-IsSorted f [] u v vs s behind filled before = (s.0, behind, (filled, before, s.2))
insert-IsSorted f (x ∷ []) u v vs s behind filled before =
    (s.0, s.1, insert-IsSorted f [] u v vs s.2 behind filled before)
insert-IsSorted f (x ∷ y ∷ us) u v vs s behind filled before =
    (s.0, s.1, insert-IsSorted f (y ∷ us) u v vs s.2 behind filled before)

pub next_start_le : (f : Ptr → Vm) (xs : List Ptr) → IsSorted f xs → next_start f xs ≤ 2 ^ 32
next_start_le f [] s = omega arith
next_start_le f (x ∷ xs) s = omega (arith, s.0, s.1, next_start_le f xs s.2)
