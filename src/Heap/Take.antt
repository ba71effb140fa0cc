-- ===== src/Heap/Take.antt =====
-- The chain after `malloc` has taken a free block, split where enough is left, or a new one.
use yuzuos.Base.{
  ℕ, ◌+◌, ◌-◌, ◌^◌, ◌<◌, ◌≤◌, ◌≡◌, refl, arith, Bool, true, false, ◌&&◌, List, [], ◌∷◌, ltb, leb,
  ltb→lt, leb→le, if◌then◌else◌, Bool-cases, inl, inr, update, ◌∙◌, ap,
}
use yuzuos.Heap.{Block, header, take}
use yuzuos.Bitmap.{u32}
use yuzuos.Heap.Chain.{
  Cell, IsChain, IsChain-off, IsChain-le, IsSound, link_to, place, has_fit, first_fit,
}

abbrev block_of : ℕ → Bool → ℕ → Block
block_of k f next = record { size = k; is_free = f; next = next }

pub place-le : (n p : ℕ) (cs : List Cell) → p ≤ place n p cs
unfolding place
place-le n p [] = omega arith
place-le n p ((k, f) ∷ cs) = ground (arith, place-le n (p + header + k) cs)

-- A write to a block leaves the memory below it alone.
take-below :
    (block n q : ℕ) (m : ℕ → Block)
    → q < block
    → block + header + n < 2 ^ 32
    → take block n m q ≡ m q
unfolding take
take-below block n q m below fits = ground arith

pub link_to-first_fit : (n p : ℕ) (cs : List Cell) → link_to p (first_fit n cs) ≡ p
unfolding first_fit
link_to-first_fit n p [] = refl
link_to-first_fit n p ((k, f) ∷ cs) = elim (Bool-cases (f && leb n k)) [
  | inl good ↦
      rw good (elim (Bool-cases (ltb (n + header) k)) [ inl more ↦ rw more | inr whole ↦ rw whole ])
  | inr other ↦ rw other
]

pub link_to-cons : (n p : ℕ) (cs : List Cell) → has_fit n cs ≡ true → link_to p cs ≡ p
link_to-cons n p [] h = absurd (ground arith)
link_to-cons n p (c ∷ cs) h = refl

-- What `take` writes into a block of `k` bytes.
module _ (n p k next end_at : ℕ) (m : ℕ → Block) (le : n ≤ k) (small : k < 2 ^ 31)
    (low : p + header + k < 2 ^ 32)
    (block : m p ≡ record { size = k; is_free = true; next = next }) where
  take_split :
      ltb (n + header) k ≡ true
      → take p n m
        ≡ update
            (update m
              (p + header + n)
              (record { size = k - n - header; is_free = true; next = next }))
            p
            (record { size = n; is_free = false; next = p + header + n })
  unfolding take
  take_split more =
      let sum : u32 (n + header) ≡ n + header = omega arith in
      let split : u32 (p + header + n) ≡ p + header + n =
        omega (arith, ltb→lt (n + header) k more) in
      let left : u32 (k + 2 ^ 33 - n - header) ≡ k - n - header =
        omega (arith, ltb→lt (n + header) k more) in
      rw (block, sum, more, split, left) refl

  take_whole :
      ltb (n + header) k ≡ false
      → take p n m ≡ update m p (record { size = k; is_free = false; next = next })
  unfolding take
  take_whole whole =
      let sum : u32 (n + header) ≡ n + header = omega arith in rw (block, sum, whole) refl

  take-above : (q : ℕ) → p + header + k ≤ q → take p n m q ≡ m q
  take-above q above = elim (Bool-cases (ltb (n + header) k)) [
    | inl more ↦ rw (take_split more) (ground (arith, ltb→lt (n + header) k more))
    | inr whole ↦ rw (take_whole whole) (ground arith)
  ]

take_here :
    (n p k : ℕ) (cs : List Cell) (end_at : ℕ) (m : ℕ → Block)
    → n ≤ k
    → end_at < 2 ^ 32
    → k < 2 ^ 31
    → IsChain m p ((k, true) ∷ cs) end_at
    → IsChain
        (take p n m)
        p
        (if ltb (n + header) k then (n, false) ∷ (k - n - header, true) ∷ cs else (k, false) ∷ cs)
        end_at
take_here n p k cs end_at m le fits small c =
    let behind = IsChain-le m (p + header + k) cs end_at c.1 in
    let next = link_to (p + header + k) cs in
    let off =
      IsChain-off m (take p n m) (p + header + k) cs end_at
        (λ q above below. take-above n p k next end_at m le small (omega arith) c.0 q above) c.1 in
    elim (Bool-cases (ltb (n + header) k)) [
      | inl more ↦
          let at : p + header + n + header + (k - n - header) ≡ p + header + k =
            omega (arith, ltb→lt (n + header) k more) in
          rw (more, take_split n p k next end_at m le small (omega arith) c.0 more, at)
            (ground arith, (ground arith, off))
      | inr whole ↦
          rw (whole, take_whole n p k next end_at m le small (omega arith) c.0 whole)
            (ground arith, off)
    ]

pub place-end :
    (n p : ℕ) (cs : List Cell) (end_at : ℕ) (m : ℕ → Block)
    → has_fit n cs ≡ true
    → IsChain m p cs end_at
    → place n p cs + header + n ≤ end_at
unfolding place
place-end n p [] end_at m fit c = absurd (ground arith)
place-end n p ((k, f) ∷ cs) end_at m fit c =
    let behind = IsChain-le m (p + header + k) cs end_at c.1 in
    elim (Bool-cases (f && leb n k)) [
      | inl good ↦ rw good (ground arith)
      | inr other ↦ rw other (place-end n (p + header + k) cs end_at m (ground arith) c.1)
    ]

pub take-IsChain :
    (n p : ℕ) (cs : List Cell) (end_at : ℕ) (m : ℕ → Block)
    → has_fit n cs ≡ true
    → end_at < 2 ^ 32
    → IsSound cs
    → IsChain m p cs end_at
    → IsChain (take (place n p cs) n m) p (first_fit n cs) end_at
unfolding place first_fit
take-IsChain n p [] end_at m fit fits s c = absurd (ground arith)
take-IsChain n p ((k, f) ∷ cs) end_at m fit fits s c = elim (Bool-cases (f && leb n k)) [
  | inl good ↦ rw good (good_here f good c)
  | inr other ↦
      let fit' : has_fit n cs ≡ true = ground arith in
      let at = p + header + k in
      let room = place-end n at cs end_at m fit' c.1 in
      rw (other, link_to-first_fit n at cs)
        (
          take-below (place n at cs) n p m (omega (arith, place-le n at cs)) (omega arith)
              ∙ c.0
              ∙ ap (λ (x : ℕ). block_of k f x) (link_to-cons n at cs fit'),
          take-IsChain n at cs end_at m fit' fits s.1 c.1,
        )
]
  where
    good_here :
        (g : Bool)
        → (g && leb n k) ≡ true
        → IsChain m p ((k, g) ∷ cs) end_at
        → IsChain
            (take p n m)
            p
            (if ltb (n + header) k
              then (n, false) ∷ (k - n - header, true) ∷ cs
              else (k, false) ∷ cs)
            end_at
    good_here true good c' =
        take_here n p k cs end_at m (leb→le n k good) fits (omega (arith, s.0)) c'
    good_here false good c' = absurd (ground arith)
