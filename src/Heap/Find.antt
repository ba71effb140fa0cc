-- ===== src/Heap/Find.antt =====
-- The walk of `malloc` along the chain ends at the first block that fits, or behind the last one.
use yuzuos.Base.{
  ℕ, zero, suc, ◌+◌, ◌<◌, ◌≡◌, refl, arith, true, false, ◌&&◌, ◌||◌, List, [], ◌∷◌, leb, ◌==◌,
  Bool-cases, inl, inr, length, some,
}
use yuzuos.Heap.{Block, header, find_block, is_sound}
use yuzuos.Heap.Chain.{Cell, IsChain, IsSound, link_to, place, has_fit, last_cell}

-- The blocks that a chain starts with pass `malloc_assert`.
next_sound :
    (m : ℕ → Block) (p : ℕ) (cs : List Cell) (end_at : ℕ)
    → IsChain m p cs end_at
    → IsSound cs
    → ((link_to p cs == 0) || is_sound (m (link_to p cs))) ≡ true
next_sound m p [] end_at c s = refl
next_sound m p ((n, f) ∷ cs) end_at c s = rw (c.0) (ground (arith, s.0))

module _ (n : ℕ) (m : ℕ → Block) (end_at : ℕ) where
  pub find_fit :
      (fuel last p : ℕ) (cs : List Cell)
      → IsChain m p cs end_at
      → IsSound cs
      → 0 < p
      → length cs < fuel
      → has_fit n cs ≡ true
      → (l : ℕ) × (find_block fuel n last (link_to p cs) m ≡ some (l, place n p cs))
  unfolding find_block place
  find_fit zero last p cs c s above enough fit = absurd (omega arith)
  find_fit (suc fuel) last p [] c s above enough fit = absurd (ground arith)
  find_fit (suc fuel) last p ((k, f) ∷ cs) c s above enough fit =
      let here : (p == 0) ≡ false = ground arith in
      let small : leb k 0x200_0000 ≡ true = ground (arith, s.0) in
      let next = next_sound m (p + header + k) cs end_at c.1 s.1 in
      elim (Bool-cases (f && leb n k)) [
        | inl good ↦ (last, rw (here, c.0, good) refl)
        | inr miss ↦
            let rest =
              find_fit fuel p (p + header + k) cs c.1 s.1 (omega arith) (omega arith)
                (ground arith) in
            (rest.0, rw (here, c.0, miss, small, next, rest.1) refl)
      ]

  pub find_nothing :
      (fuel last p : ℕ) (cs : List Cell)
      → IsChain m p cs end_at
      → IsSound cs
      → 0 < p
      → length cs < fuel
      → has_fit n cs ≡ false
      → find_block fuel n last (link_to p cs) m ≡ some (last_cell last p cs, 0)
  unfolding find_block
  find_nothing zero last p cs c s above enough fit = absurd (omega arith)
  find_nothing (suc fuel) last p [] c s above enough fit = refl
  find_nothing (suc fuel) last p ((k, f) ∷ cs) c s above enough fit =
      let here : (p == 0) ≡ false = ground arith in
      let small : leb k 0x200_0000 ≡ true = ground (arith, s.0) in
      let no : (f && leb n k) ≡ false = ground arith in
      let next = next_sound m (p + header + k) cs end_at c.1 s.1 in
      let rest =
        find_nothing fuel p (p + header + k) cs c.1 s.1 (omega arith) (omega arith)
          (ground arith) in
      rw (here, c.0, no, small, next, rest) refl
