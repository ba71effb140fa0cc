-- ===== src/Bitmap.antt =====
-- kernel/utils/bitmap.c: a bit for each frame, in 32-bit words.
-- A bitmap is the memory that starts at its pointer, one word to an index; the code has no bound
-- of its own and reads what stands there, so the memory is a function on all indices.
pub mod Words
pub mod Scan
pub mod Window
pub mod Hole
use yuzuos.Base.{
  ℕ, zero, suc, ◌+◌, ◌-◌, ◌*◌, ◌/◌, ◌%◌, ◌^◌, bit_and, bit_or, Bool, true, false, not, Option, none,
  some, ◌==◌, if◌then◌else◌, update,
}

abbrev pub Words : Type 0
Words = ℕ → ℕ

abbrev pub u32 : ℕ → ℕ
u32 n = n % 2 ^ 32

-- The `return -1` of a function into `uint32_t`.
abbrev pub no_bit : ℕ
no_bit = 0xffff_ffff

-- `BITMAP_NULL`
abbrev pub bitmap_null : ℕ
bitmap_null = 0xffff_ffff

-- `BITMAP_INDEX`
abbrev pub index : ℕ → ℕ
index bit = bit / 32

-- `BITMAP_OFFSET`
abbrev pub offset : ℕ → ℕ
offset bit = 2 ^ (bit % 32)

-- `~x` on 32 bits
abbrev pub complement : ℕ → ℕ
complement x = 2 ^ 32 - 1 - x

pub set : Words → ℕ → Words
set bitmap bit = update bitmap (index bit) (bit_or (bitmap (index bit)) (offset bit))

pub unset : Words → ℕ → Words
unset bitmap bit =
    update bitmap (index bit) (bit_and (bitmap (index bit)) (complement (offset bit)))

unfoldable pub test : Words → ℕ → Bool
test bitmap bit = not (bit_and (bitmap (index bit)) (offset bit) == 0)

-- The loop over `j` of `bitmap_get_first`, with `left` rounds to go: a clear bit of word `i`.
first_bit : Words → (i left j : ℕ) → Option ℕ
first_bit bitmap i zero j = none
first_bit bitmap i (suc left) j =
    let rest = first_bit bitmap i left (j + 1) in
    if bit_and (bitmap i) (2 ^ j) == 0 then some (u32 (i * 32 + j)) else rest

-- The loop over `i`.
first_word : Words → (left i : ℕ) → ℕ
first_word bitmap zero i = no_bit
first_word bitmap (suc left) i =
    let rest = first_word bitmap left (i + 1) in
    if bitmap i == bitmap_null
    then rest
    else elim (first_bit bitmap i 32 0) [ some bit ↦ bit | none ↦ rest ]

pub get_first : Words → ℕ → ℕ
unfolding first_word first_bit
get_first bitmap frames = first_word bitmap (index frames) 0

-- The loop over `count` of `bitmap_get_n_first`, with `left` rounds to go.
window : Words → (len start left count free : ℕ) → Bool
window bitmap len start zero count free = false
window bitmap len start (suc left) count free =
    let free' = if not (test bitmap (u32 (start + count))) then u32 (free + 1) else free in
    let rest = window bitmap len start left (count + 1) free' in if free' == len then true else rest

-- The loops over `j` and `i` of `bitmap_get_n_first`. The innermost runs for `count <= len`.
n_first_bit : Words → (len i left j : ℕ) → Option ℕ
n_first_bit bitmap len i zero j = none
n_first_bit bitmap len i (suc left) j =
    let rest = n_first_bit bitmap len i left (j + 1) in
    let start = u32 (i * 32 + j) in
    if bit_and (bitmap i) (2 ^ j) == 0
    then (if window bitmap len start (len + 1) 0 0 then some start else rest)
    else rest

n_first_word : Words → (len left i : ℕ) → ℕ
n_first_word bitmap len zero i = no_bit
n_first_word bitmap len (suc left) i =
    let rest = n_first_word bitmap len left (i + 1) in
    if bitmap i == bitmap_null
    then rest
    else elim (n_first_bit bitmap len i 32 0) [ some bit ↦ bit | none ↦ rest ]

pub get_n_first : Words → (frames len : ℕ) → ℕ
unfolding n_first_word n_first_bit window test
get_n_first bitmap frames len =
    if len == 0
    then no_bit
    else if len == 1
    then get_first bitmap frames
    else n_first_word bitmap len (index frames) 0
