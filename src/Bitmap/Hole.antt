-- ===== src/Bitmap/Hole.antt =====
-- A run with a hole: what `bitmap_get_n_first` takes for `len` clear bits in a row.
use yuzuos.Base.{
  ℕ, zero, suc, ◌+◌, ◌*◌, ◌/◌, ◌^◌, ◌<◌, ◌≤◌, ◌≡◌, ◌≢◌, refl, true, false, arith, ap, ◌∙◌,
  Bool-cases, inl, inr, ◌==◌,
}
use yuzuos.Base.Search.{find-least}
use yuzuos.Bitmap.{Words, test, u32, get_n_first}
use yuzuos.Bitmap.Scan.{or_no_bit}
use yuzuos.Bitmap.Window.{free_in, has_room, get_n_first-find}

module _ (m : Words) (start : ℕ) where
  free_in-all :
      (left count : ℕ)
      → start + count + left ≤ 2 ^ 32
      → ((j : ℕ) → count ≤ j → j < count + left → test m (start + j) ≡ false)
      → free_in m start left count ≡ left
  unfolding free_in
  free_in-all zero count fits clear = refl
  free_in-all (suc left) count fits clear =
      let here : u32 (start + count) ≡ start + count = omega arith in
      rw (here, clear count (omega arith) (omega arith))
        (omega (
          arith,
          free_in-all left (count + 1) (omega arith)
              (λ j lo hi. clear j (omega arith) (omega arith)),
        ))

  free_in-hole :
      (k left count : ℕ)
      → start + count + left ≤ 2 ^ 32
      → ((j : ℕ) → count ≤ j → j < count + left → j ≢ k → test m (start + j) ≡ false)
      → left ≤ free_in m start left count + 1
  unfolding free_in
  free_in-hole k zero count fits clear = omega arith
  free_in-hole k (suc left) count fits clear = elim (Bool-cases (count == k)) [
    | inl hole ↦ ground (
      arith,
      free_in-all left (count + 1) (omega arith)
          (λ j lo hi. clear j (omega arith) (omega arith) (ground arith)),
    )
    | inr other ↦
        let here : u32 (start + count) ≡ start + count = omega arith in
        rw (here, clear count (omega arith) (omega arith) (ground arith))
          (omega (
            arith,
            free_in-hole k left (count + 1) (omega arith)
                (λ j lo hi ne. clear j (omega arith) (omega arith) ne),
          ))
  ]

-- The window is one bit longer than the run, so one set bit inside the run goes unnoticed: the
-- result is the start of `len` bits of which bit `start + k` is in use.
pub get_n_first_hole :
    (m : Words) (frames len start k : ℕ)
    → 2 ≤ len
    → frames < 2 ^ 32
    → start + len < frames / 32 * 32
    → ((b : ℕ) → b < start → test m b ≡ true)
    → 0 < k
    → k < len
    → ((j : ℕ) → j < len + 1 → j ≢ k → test m (start + j) ≡ false)
    → get_n_first m frames len ≡ start
get_n_first_hole m frames len start k two fits inside before pos within clear =
    let room : len + 1 ≤ free_in m start (len + 1) 0 + 1 =
      free_in-hole m start k (len + 1) 0 (omega arith) (λ j lo hi ne. clear j (omega arith) ne) in
    let first : test m start ≡ false =
      ap (test m) (omega arith) ∙ clear 0 (omega arith) (omega arith) in
    get_n_first-find m frames len two (omega arith) fits
    ∙ ap or_no_bit (
        find-least (has_room m len) (frames / 32 * 32) 0 start (ground arith) (omega arith)
          (omega arith) (λ b lo hi. ground (arith, before b)))
