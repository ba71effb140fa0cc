-- ===== src/Heap/Grow.antt =====
-- `malloc_sbrk` and `malloc_get`: a new block at the break.
use yuzuos.Base.{
  ℕ, ◌+◌, ◌^◌, ◌<◌, ◌≤◌, ◌≡◌, refl, arith, Bool, true, false, List, [], ◌∷◌, ◌++◌, leb, ◌==◌,
  if◌then◌else◌, Bool-cases, inl, inr, update, ◌∙◌, ap,
}
use yuzuos.Bitmap.{u32}
use yuzuos.Heap.{Block, Heap, header, clear, sbrk, grow, get}
use yuzuos.Heap.Chain.{Cell, IsChain, IsChain-le, last_cell}

module _ (n : ℕ) (h : Heap) (some_bytes : 0 < n) (room : h.current + n < 2 ^ 32) where
  -- The old break is given out, the new one is `n` bytes above, and the memory between is cleared.
  pub sbrk_lem :
      ((sbrk n h).1 ≡ h.current)
      × ((sbrk n h).0.current ≡ h.current + n)
      × ((sbrk n h).0.blocks ≡ h.blocks)
      × ((sbrk n h).0.memory ≡ clear h.current n h.memory)
  unfolding sbrk grow
  sbrk_lem =
      let more : (n == 0) ≡ false = ground arith in
      let sum : u32 (h.current + n) ≡ h.current + n = omega arith in
      elim (Bool-cases (leb n h.remaining)) [
        | inl left ↦ rw (more, left, sum) (refl, refl, refl, refl)
        | inr short ↦ rw (more, short, sum) (refl, refl, refl, refl)
      ]

-- The memory after `malloc_get` has put a block of `n` bytes at `new` behind the block `last`.
abbrev pub grown : (last new n : ℕ) → (ℕ → Block) → ℕ → Block
grown last new n m =
    let b = m last in
    let m1 = if last == 0 then m else update m last (record b { next = new }) in
    update m1 new (record { size = n; is_free = false; next = 0 })

module _ (last n : ℕ) (h : Heap) (room : h.current + header + n < 2 ^ 32) where
  pub get_lem :
      ((get last n h).1 ≡ h.current)
      × ((get last n h).0.current ≡ h.current + header + n)
      × ((get last n h).0.blocks ≡ h.blocks)
      × ((get last n h).0.memory ≡ grown last h.current n (clear h.current (n + header) h.memory))
  unfolding get
  get_lem =
      let sum : u32 (n + header) ≡ n + header = omega arith in
      let r = sbrk_lem (n + header) h (omega arith) (omega arith) in
      rw (sum, r.0, r.1, r.2, r.3) (refl, omega arith, refl, refl)

last_cell-le : (last p : ℕ) (cs : List Cell) → last ≤ p → last ≤ last_cell last p cs
last_cell-le last p [] le = omega arith
last_cell-le last p ((k, f) ∷ cs) le =
    omega (arith, last_cell-le p (p + header + k) cs (omega arith))

-- A chain with the new block behind it.
pub grown-IsChain :
    (n last p k : ℕ) (f : Bool) (cs : List Cell) (end_at : ℕ) (m : ℕ → Block)
    → 0 < p
    → last ≡ last_cell p (p + header + k) cs
    → IsChain m p ((k, f) ∷ cs) end_at
    → IsChain (grown last end_at n m) p ((k, f) ∷ cs ++ (n, false) ∷ []) (end_at + header + n)
grown-IsChain n last p k f [] end_at m above e c =
    let other : (p == end_at) ≡ false = ground (arith, c.1) in
    let here : (p == last) ≡ true = ground (arith, e) in
    let is_set : (last == 0) ≡ false = ground (arith, e) in
    let block : m last ≡ record { size = k; is_free = f; next = 0 } = ap m e ∙ c.0 in
    (rw (other, is_set, here, block, c.1) refl, (ground (arith, c.1), omega (arith, c.1)))
grown-IsChain n last p k f ((k', f') ∷ cs) end_at m above e c =
    let q = p + header + k in
    let behind = IsChain-le m (q + header + k') cs end_at c.1.1 in
    let after = last_cell-le q (q + header + k') cs (omega arith) in
    let other : (p == end_at) ≡ false = ground arith in
    let apart : (p == last) ≡ false = ground (arith, e, after) in
    let is_set : (last == 0) ≡ false = ground (arith, e, after) in
    (rw (other, is_set, apart) c.0, grown-IsChain n last q k' f' cs end_at m (omega arith) e c.1)
