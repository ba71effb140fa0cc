-- ===== src/Heap/Chain.antt =====
-- The chain of blocks as a list of sizes and marks, one right behind the other.
use yuzuos.Base.{
  ℕ, ◌+◌, ◌-◌, ◌<◌, ◌≤◌, ◌≡◌, arith, Bool, true, false, ◌&&◌, ◌||◌, List, [], ◌∷◌, ltb, leb,
  if◌then◌else◌, ◌∙◌,
}
use yuzuos.Heap.{Block, Heap, header, heap_bottom}

-- The size of a block and whether it is free.
abbrev pub Cell : Type 0
Cell = ℕ × Bool

-- Where the block behind one at `p` starts, 0 where there is none.
abbrev pub link_to : ℕ → List Cell → ℕ
link_to p [] = 0
link_to p (c ∷ cs) = p

-- From `p` to `end_at` the blocks `cs` follow one another without a gap.
abbrev pub IsChain : (ℕ → Block) → ℕ → List Cell → ℕ → Type 0
IsChain m p [] end_at = p ≡ end_at
IsChain m p ((n, f) ∷ cs) end_at =
    (m p ≡ record { size = n; is_free = f; next = link_to (p + header + n) cs })
    × IsChain m (p + header + n) cs end_at

-- No size is above the bound of `malloc_assert`.
abbrev pub IsSound : List Cell → Type 0
IsSound [] = Unit {0}
IsSound ((n, f) ∷ cs) = (n ≤ 0x200_0000) × IsSound cs

pub record IsHeap (h : Heap) (cs : List Cell) : Type 0 where
  pub start : h.blocks ≡ link_to heap_bottom cs
  pub chain : IsChain h.memory heap_bottom cs h.current
  pub sound : IsSound cs

pub IsChain-le :
    (m : ℕ → Block) (p : ℕ) (cs : List Cell) (end_at : ℕ) → IsChain m p cs end_at → p ≤ end_at
IsChain-le m p [] end_at c = omega (arith, c)
IsChain-le m p ((n, f) ∷ cs) end_at c = omega (arith, IsChain-le m (p + header + n) cs end_at c.1)

-- A chain survives writes outside of the memory it stands in.
pub IsChain-off :
    (m m' : ℕ → Block) (p : ℕ) (cs : List Cell) (end_at : ℕ)
    → ((q : ℕ) → p ≤ q → q < end_at → m' q ≡ m q)
    → IsChain m p cs end_at
    → IsChain m' p cs end_at
IsChain-off m m' p [] end_at same c = c
IsChain-off m m' p ((n, f) ∷ cs) end_at same c =
    let behind = IsChain-le m (p + header + n) cs end_at c.1 in
    (
      same p (omega arith) (omega arith) ∙ c.0,
      IsChain-off m m' (p + header + n) cs end_at (λ q above below. same q (omega arith) below) c.1,
    )

-- First fit: the cells after `malloc` of `n` bytes, and the place of the block it gives out.
abbrev pub fits : ℕ → Cell → Bool
fits n c = c.1 && leb n c.0

unfoldable pub first_fit : ℕ → List Cell → List Cell
first_fit n [] = (n, false) ∷ []
first_fit n ((k, f) ∷ cs) =
    let rest = first_fit n cs in
    if f && leb n k
    then (if ltb (n + header) k then (n, false) ∷ (k - n - header, true) ∷ cs else (k, false) ∷ cs)
    else (k, f) ∷ rest

unfoldable pub place : ℕ → ℕ → List Cell → ℕ
place n p [] = p
place n p ((k, f) ∷ cs) = let rest = place n (p + header + k) cs in if f && leb n k then p else rest

abbrev pub has_fit : ℕ → List Cell → Bool
has_fit n [] = false
has_fit n ((k, f) ∷ cs) = (f && leb n k) || has_fit n cs

-- The last block of a chain, `last` where it has none.
abbrev pub last_cell : (last p : ℕ) → List Cell → ℕ
last_cell last p [] = last
last_cell last p ((k, f) ∷ cs) = last_cell p (p + header + k) cs
