-- ===== src/Bitmap/Window.antt =====
-- `bitmap_get_n_first` against the least clear bit whose window holds enough clear bits.
use yuzuos.Base.{
  ℕ, zero, suc, ◌+◌, ◌*◌, ◌/◌, ◌^◌, ◌<◌, ◌≤◌, ◌≡◌, refl, Bool, ◌&&◌, none, arith, ◌==◌,
  if◌then◌else◌, Bool-cases, inl, inr, leb, ◌∙◌, ap,
}
use yuzuos.Base.Search.{find, find-add, find-none, or_else}
use yuzuos.Bitmap.{Words, test, u32, bitmap_null, window, n_first_bit, n_first_word, get_n_first}
use yuzuos.Bitmap.Scan.{is_free, or_no_bit, is_free-loop, full_word}

-- How many of the `left` bits from `start + count` on are clear.
unfoldable pub free_in : Words → (start left count : ℕ) → ℕ
free_in m start zero count = 0
free_in m start (suc left) count =
    (if is_free m (u32 (start + count)) then 1 else 0) + free_in m start left (count + 1)

-- The test that a start has to pass: it is clear, and so are `len` of the `len + 1` bits from it on.
abbrev pub has_room : Words → (len start : ℕ) → Bool
has_room m len start = is_free m start && leb len (free_in m start (len + 1) 0)

window-free_in :
    (m : Words) (len start left count free : ℕ)
    → free < len
    → len < 2 ^ 32
    → window m len start left count free ≡ leb len (free + free_in m start left count)
unfolding window free_in
window-free_in m len start zero count free below fits = ground arith
window-free_in m len start (suc left) count free below fits =
    elim (Bool-cases (test m (u32 (start + count)))) [
      | inl used ↦
          rw used (ground (arith, window-free_in m len start left (count + 1) free below fits))
      | inr clear ↦ rw clear (elim (Bool-cases (u32 (free + 1) == len)) [
        | inl done ↦ rw done (ground arith)
        | inr more ↦ rw more (
            ground (
              arith,
              window-free_in m len start left (count + 1) (u32 (free + 1)) (ground arith) fits,
            ))
      ])
    ]

n_first_bit-find :
    (m : Words) (len i left j : ℕ)
    → 0 < len
    → len < 2 ^ 32
    → i * 32 + 32 ≤ 2 ^ 32
    → left + j ≡ 32
    → n_first_bit m len i left j ≡ find (has_room m len) left (i * 32 + j)
unfolding n_first_bit find
n_first_bit-find m len i zero j pos short fits e = refl
n_first_bit-find m len i (suc left) j pos short fits e =
    let here : u32 (i * 32 + j) ≡ i * 32 + j = omega arith in
    rw
      (
        is_free-loop m i j (omega arith),
        here,
        window-free_in m len (i * 32 + j) (len + 1) 0 0 pos short,
      )
      (ground (arith, n_first_bit-find m len i left (j + 1) pos short fits (omega arith)))

n_first_bit-at :
    (m : Words) (len i : ℕ)
    → 0 < len
    → len < 2 ^ 32
    → i * 32 + 32 ≤ 2 ^ 32
    → n_first_bit m len i 32 0 ≡ find (has_room m len) 32 (i * 32)
n_first_bit-at m len i pos short fits =
    n_first_bit-find m len i 32 0 pos short fits (omega arith)
    ∙ ap (find (has_room m len) 32) (omega arith)

n_first_word-find :
    (m : Words) (len left i : ℕ)
    → 0 < len
    → len < 2 ^ 32
    → (i + left) * 32 ≤ 2 ^ 32
    → n_first_word m len left i ≡ or_no_bit (find (has_room m len) (left * 32) (i * 32))
unfolding n_first_word find
n_first_word-find m len zero i pos short fits = refl
n_first_word-find m len (suc left) i pos short fits =
    let p = has_room m len in
    let rest : n_first_word m len left (i + 1) ≡ or_no_bit (find p (left * 32) ((i + 1) * 32)) =
      n_first_word-find m len left (i + 1) pos short (omega arith) in
    let split : find p (suc left * 32) (i * 32)
        ≡ or_else (find p 32 (i * 32)) (find p (left * 32) ((i + 1) * 32)) =
      ap (λ (n : ℕ). find p n (i * 32)) (omega arith)
      ∙ find-add p 32 (left * 32) (i * 32) ((i + 1) * 32) (omega arith) in
    elim (Bool-cases (m i == bitmap_null)) [
      | inl full ↦
          let skip : find p 32 (i * 32) ≡ none =
            find-none p 32 (i * 32) (λ b lo hi. rw (full_word m i b (ground arith) lo hi)) in
          rw (full, split, skip) rest
      | inr some_free ↦
          rw (some_free, split, n_first_bit-at m len i pos short (omega arith))
            (ground (arith, rest))
    ]

-- `bitmap_get_n_first` for at least two bits gives the least clear bit of the whole words such that
-- `len` of the `len + 1` bits from it on are clear, and `-1` where there is none.
pub get_n_first-find :
    (m : Words) (frames len : ℕ)
    → 2 ≤ len
    → len < 2 ^ 32
    → frames < 2 ^ 32
    → get_n_first m frames len ≡ or_no_bit (find (has_room m len) (frames / 32 * 32) 0)
unfolding get_n_first
get_n_first-find m frames len two short fits =
    ground (arith, n_first_word-find m len (frames / 32) 0 (omega arith) short (omega arith))
