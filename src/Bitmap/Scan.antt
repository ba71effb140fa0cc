-- ===== src/Bitmap/Scan.antt =====
-- `bitmap_get_first` against the least clear bit of the whole words.
use yuzuos.Base.{
  ℕ, zero, suc, ◌+◌, ◌*◌, ◌/◌, ◌%◌, ◌^◌, ◌<◌, ◌≤◌, ◌≡◌, refl, Bool, false, not, Option, none, some,
  arith, ◌==◌, bit_and, Bool-cases, bit-complement, bit-zero, bit_le_one, inl, inr, ◌∙◌, ap,
}
use yuzuos.Base.Search.{find, find-add, find-none, or_else}
use yuzuos.Bitmap.{Words, test, no_bit, bitmap_null, first_bit, first_word, get_first}
use yuzuos.Bitmap.Words.{masked, test-bit}

-- A bit that is clear.
abbrev pub is_free : Words → ℕ → Bool
is_free m b = not (test m b)

abbrev pub or_no_bit : Option ℕ → ℕ
or_no_bit none = no_bit
or_no_bit (some b) = b

-- The test of the loop body is that of `bitmap_test` at the bit that it would return.
pub is_free-loop :
    (m : Words) (i j : ℕ) → j < 32 → (bit_and (m i) (2 ^ j) == 0) ≡ is_free m (i * 32 + j)
is_free-loop m i j h =
    let word : (i * 32 + j) / 32 ≡ i = omega arith in
    let place : (i * 32 + j) % 32 ≡ j = omega arith in
    rw (masked (m i) j, test-bit m (i * 32 + j), word, place) (ground (arith, bit_le_one (m i) j))

pub full_word :
    (m : Words) (i b : ℕ) → m i ≡ bitmap_null → i * 32 ≤ b → b < i * 32 + 32 → is_free m b ≡ false
full_word m i b e lo hi =
    let word : b / 32 ≡ i = omega arith in
    rw (test-bit m b, word, e)
      (ground (arith, bit-complement 32 0 (b % 32) (omega arith) (omega arith), bit-zero (b % 32)))

first_bit-find :
    (m : Words) (i left j : ℕ)
    → i * 32 + 32 ≤ 2 ^ 32
    → left + j ≡ 32
    → first_bit m i left j ≡ find (is_free m) left (i * 32 + j)
unfolding first_bit find
first_bit-find m i zero j fits e = refl
first_bit-find m i (suc left) j fits e =
    rw (is_free-loop m i j (omega arith))
      (ground (arith, first_bit-find m i left (j + 1) fits (omega arith)))

first_bit-at :
    (m : Words) (i : ℕ) → i * 32 + 32 ≤ 2 ^ 32 → first_bit m i 32 0 ≡ find (is_free m) 32 (i * 32)
first_bit-at m i fits =
    first_bit-find m i 32 0 fits (omega arith) ∙ ap (find (is_free m) 32) (omega arith)

first_word-find :
    (m : Words) (left i : ℕ)
    → (i + left) * 32 ≤ 2 ^ 32
    → first_word m left i ≡ or_no_bit (find (is_free m) (left * 32) (i * 32))
unfolding first_word find
first_word-find m zero i fits = refl
first_word-find m (suc left) i fits =
    let rest : first_word m left (i + 1) ≡ or_no_bit (find (is_free m) (left * 32) ((i + 1) * 32)) =
      first_word-find m left (i + 1) (omega arith) in
    let split : find (is_free m) (suc left * 32) (i * 32)
        ≡ or_else (find (is_free m) 32 (i * 32)) (find (is_free m) (left * 32) ((i + 1) * 32)) =
      ap (λ (n : ℕ). find (is_free m) n (i * 32)) (omega arith)
      ∙ find-add (is_free m) 32 (left * 32) (i * 32) ((i + 1) * 32) (omega arith) in
    elim (Bool-cases (m i == bitmap_null)) [
      | inl full ↦
          let skip : find (is_free m) 32 (i * 32) ≡ none =
            find-none (is_free m) 32 (i * 32) (λ b lo hi. full_word m i b (ground arith) lo hi) in
          rw (full, split, skip) rest
      | inr some_free ↦ rw (some_free, split, first_bit-at m i (omega arith)) (ground (arith, rest))
    ]

-- `bitmap_get_first` gives the least clear bit of the `frames / 32` whole words, and `-1` where
-- all of them are full.
pub get_first-find :
    (m : Words) (frames : ℕ)
    → frames < 2 ^ 32
    → get_first m frames ≡ or_no_bit (find (is_free m) (frames / 32 * 32) 0)
unfolding get_first
get_first-find m frames fits = first_word-find m (frames / 32) 0 (omega arith)
