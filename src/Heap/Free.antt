-- ===== src/Heap/Free.antt =====
-- `free` marks one block of the chain.
use yuzuos.Base.{
  ℕ, ◌+◌, ◌-◌, ◌^◌, ◌<◌, ◌≤◌, ◌≡◌, refl, arith, Bool, true, false, List, [], ◌∷◌, ◌++◌, ◌==◌,
  update, ◌∙◌, ap, some,
}
use yuzuos.Base.Distinct.{eq_refl}
use yuzuos.Bitmap.{u32}
use yuzuos.Heap.{Block, Heap, header, heap_bottom, free, is_sound}
use yuzuos.Heap.Chain.{Cell, IsChain, IsChain-off, IsChain-le, IsHeap, IsSound, link_to}

-- Where the block behind the blocks `xs` starts.
unfoldable pub address : ℕ → List Cell → ℕ
address p [] = p
address p ((k, f) ∷ xs) = address (p + header + k) xs

address-le : (p : ℕ) (xs : List Cell) → p ≤ address p xs
unfolding address
address-le p [] = omega arith
address-le p ((k, f) ∷ xs) = omega (arith, address-le (p + header + k) xs)

link_to-middle :
    (p n : ℕ) (f g : Bool) (xs ys : List Cell)
    → link_to p (xs ++ (n, f) ∷ ys) ≡ link_to p (xs ++ (n, g) ∷ ys)
link_to-middle p n f g [] ys = refl
link_to-middle p n f g (x ∷ xs) ys = refl

IsSound-middle :
    (n : ℕ) (f g : Bool) (xs ys : List Cell)
    → IsSound (xs ++ (n, f) ∷ ys)
    → (n ≤ 0x200_0000) × IsSound (xs ++ (n, g) ∷ ys)
IsSound-middle n f g [] ys s = (s.0, s)
IsSound-middle n f g ((k, e) ∷ xs) ys s =
    let rest = IsSound-middle n f g xs ys s.1 in (rest.0, (s.0, rest.1))

abbrev block_of : ℕ → Bool → ℕ → Block
block_of k f next = record { size = k; is_free = f; next = next }

abbrev marked : ℕ → (ℕ → Block) → ℕ → Block
marked q m = let b = m q in update m q (record b { is_free = true })

block_at :
    (p n : ℕ) (f : Bool) (xs ys : List Cell) (end_at : ℕ) (m : ℕ → Block)
    → IsChain m p (xs ++ (n, f) ∷ ys) end_at
    → ((m (address p xs)).size ≡ n) × (address p xs + header + n ≤ end_at)
unfolding address
block_at p n f [] ys end_at m c =
    (ap (λ (b : Block). b.size) c.0, IsChain-le m (p + header + n) ys end_at c.1)
block_at p n f ((k, e) ∷ xs) ys end_at m c = block_at (p + header + k) n f xs ys end_at m c.1

marked-above : (p q : ℕ) (m : ℕ → Block) → p < q → marked p m q ≡ m q
marked-above p q m above = let other : (q == p) ≡ false = ground arith in rw other refl

marked-IsChain :
    (p n : ℕ) (f : Bool) (xs ys : List Cell) (end_at : ℕ) (m : ℕ → Block)
    → IsChain m p (xs ++ (n, f) ∷ ys) end_at
    → IsChain (marked (address p xs) m) p (xs ++ (n, true) ∷ ys) end_at
unfolding address
marked-IsChain p n f [] ys end_at m c = (
  rw (eq_refl p, c.0) refl,
  IsChain-off m (marked p m) (p + header + n) ys end_at
      (λ q above below. marked-above p q m (omega arith)) c.1,
)
marked-IsChain p n f ((k, e) ∷ xs) ys end_at m c =
    let above = address-le (p + header + k) xs in
    let other : (p == address (p + header + k) xs) ≡ false = ground (arith, above) in
    (
      rw other
          (c.0 ∙ ap (λ (x : ℕ). block_of k e x) (link_to-middle (p + header + k) n f true xs ys)),
      marked-IsChain (p + header + k) n f xs ys end_at m c.1,
    )

-- `free` of the memory of any block of the chain marks just this block as free, and does not panic;
-- the break lies below 2 ^ 32.
pub free-IsHeap :
    (h : Heap) (xs ys : List Cell) (n : ℕ) (f : Bool)
    → IsHeap h (xs ++ (n, f) ∷ ys)
    → h.current < 2 ^ 32
    → (h' : Heap) × (free (address heap_bottom xs + header) h ≡ some h')
      × IsHeap h' (xs ++ (n, true) ∷ ys)
unfolding free
free-IsHeap h xs ys n f heap room =
    let q = address heap_bottom xs in
    let at = block_at heap_bottom n f xs ys h.current h.memory heap.chain in
    let sound = IsSound-middle n f true xs ys heap.sound in
    let given : (q + header == 0) ≡ false = ground arith in
    let back : u32 (q + header + 2 ^ 32 - header) ≡ q = omega (arith, at.1) in
    let ok : is_sound (h.memory q) ≡ true = ground (arith, at.0, sound.0) in
    (
      record h { memory = marked q h.memory },
      rw (given, back, ok) refl,
      record {
        start = heap.start ∙ link_to-middle heap_bottom n f true xs ys;
        chain = marked-IsChain heap_bottom n f xs ys h.current h.memory heap.chain;
        sound = sound.1;
      },
    )
