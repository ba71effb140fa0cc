-- ===== src/Tests/Frames.antt =====
-- Small bitmaps and allocators.
use yuzuos.Base.{
  ℕ, zero, suc, ◌+◌, ◌*◌, ◌/◌, ◌<◌, ◌≤◌, ◌≡◌, ◌≢◌, refl, true, false, ◌||◌, some, none, List, [],
  ◌∷◌, arith, ◌==◌, ltb, if◌then◌else◌,
}
use yuzuos.Base.Search.{find, find-eq_none}
use yuzuos.Base.Count.{count}
use yuzuos.Bitmap
use yuzuos.Bitmap.{Words, get_first, get_n_first, no_bit}
use yuzuos.Bitmap.Words.{IsWords}
use yuzuos.Bitmap.Scan.{is_free, or_no_bit, get_first-find}
use yuzuos.Bitmap.Window.{free_in, has_room}
use yuzuos.Physical.{
  Phys, MmapEntry, take_bit, take_run, addr_set, block_alloc, block_free, block_n_alloc, init,
  div_ceil,
}
use yuzuos.Physical.Alloc.{
  IsCounted, Granted, addr_set-IsCounted, block_alloc-Granted, block_free-block_alloc,
  block_alloc_exhausted,
}
use yuzuos.Physical.Runs.{in_run, block_n_alloc_lem, block_n_alloc_hole}
use yuzuos.Physical.Init.{test-init, max-init}

-- Frame 0 is in use.
abbrev first_used : Words
first_used i = if i == 0 then 1 else 0

first_used-IsWords : IsWords first_used
first_used-IsWords i = ground arith

abbrev small : Phys
small = record { bitmap = first_used; used = 1; max_bits = 64 }

small-IsCounted : IsCounted small
unfolding count Bitmap.test
small-IsCounted = record { words = first_used-IsWords; small = omega arith; counted = refl }

addr_set-IsCounted_example :
    IsCounted (addr_set 0x5000 small) × (Bitmap.test (addr_set 0x5000 small).bitmap 5 ≡ true)
addr_set-IsCounted_example = addr_set-IsCounted 0x5000 small small-IsCounted (omega arith)

second_free : Bitmap.test first_used 1 ≡ false
unfolding Bitmap.test
second_free = refl

zeroth_used : Bitmap.test first_used 0 ≡ true
unfolding Bitmap.test
zeroth_used = refl

get_first-find_example :
    get_first first_used 64 ≡ or_no_bit (find (is_free first_used) (64 / 32 * 32) 0)
get_first-find_example = get_first-find first_used 64 (omega arith)

block_alloc-Granted_example : (b : ℕ) × Granted small b (block_alloc small)
block_alloc-Granted_example =
    block_alloc-Granted small 1 small-IsCounted zeroth_used (omega arith) second_free

block_free-block_alloc_example :
    let b = block_alloc-Granted_example.0 in
    let t = block_free (block_alloc small).1 (block_alloc small).0 in
    ((c : ℕ) → Bitmap.test t.bitmap c ≡ Bitmap.test first_used c) × (t.used ≡ 1) × IsCounted t
block_free-block_alloc_example =
    block_free-block_alloc small block_alloc-Granted_example.0 small-IsCounted
      block_alloc-Granted_example.1

-- The 32 frames of the one whole word are in use, and there is a 33rd.
abbrev one_word : Phys
one_word = record { bitmap = λ i. 0xffff_ffff; used = 32; max_bits = 33 }

none_free : find (is_free one_word.bitmap) 32 0 ≡ none
unfolding find Bitmap.test
none_free = refl

one_word_full : (c : ℕ) → c < 32 → Bitmap.test one_word.bitmap c ≡ true
one_word_full c h =
    ground
      (arith, find-eq_none (is_free one_word.bitmap) 32 0 none_free c (omega arith) (omega arith))

block_alloc_exhausted_example : block_alloc one_word ≡ (take_bit no_bit one_word, 0xffff_f000)
block_alloc_exhausted_example =
    block_alloc_exhausted one_word (omega arith) (omega arith) one_word_full

room_at_one : find (has_room first_used 2) 64 0 ≡ some 1
unfolding find Bitmap.test free_in
room_at_one = refl

one_two_free : (c : ℕ) → 1 ≤ c → c < 1 + 2 → Bitmap.test first_used c ≡ false
unfolding Bitmap.test
one_two_free zero lo hi = absurd (omega arith)
one_two_free (suc zero) lo hi = refl
one_two_free (suc (suc zero)) lo hi = refl
one_two_free (suc (suc (suc c))) lo hi = absurd (omega arith)

block_n_alloc_lem_example :
    let r = block_n_alloc 2 small in
    (r.1 ≡ 4096)
    × IsCounted r.0
    × (r.0.used ≡ 3)
    × ((c : ℕ) → Bitmap.test r.0.bitmap c ≡ (in_run 1 2 c || Bitmap.test first_used c))
block_n_alloc_lem_example =
    block_n_alloc_lem 2 1 small small-IsCounted (omega arith) (omega arith) room_at_one
      (omega arith) (omega arith) one_two_free

-- Frames 0 and 2 are in use.
abbrev holed : Phys
holed = record { bitmap = λ i. if i == 0 then 5 else 0; used = 2; max_bits = 64 }

holed_before : (b : ℕ) → b < 1 → Bitmap.test holed.bitmap b ≡ true
unfolding Bitmap.test
holed_before zero h = refl
holed_before (suc b) h = absurd (omega arith)

holed_clear : (j : ℕ) → j < 2 + 1 → j ≢ 1 → Bitmap.test holed.bitmap (1 + j) ≡ false
unfolding Bitmap.test
holed_clear zero h ne = refl
holed_clear (suc zero) h ne = absurd (ne refl)
holed_clear (suc (suc zero)) h ne = refl
holed_clear (suc (suc (suc j))) h ne = absurd (omega arith)

block_n_alloc_hole_example : block_n_alloc 2 holed ≡ (take_run 2 0 1 holed, 4096)
block_n_alloc_hole_example =
    block_n_alloc_hole 2 1 1 holed (omega arith) (omega arith) (omega arith) (omega arith)
      (omega arith) holed_before (omega arith) (omega arith) holed_clear

-- Four megabytes of memory with a reserved region at two.
abbrev reserved : List MmapEntry
reserved = record { addr = 0x200000; len = 0x1000; kind = 2 } ∷ []

abbrev started : Phys
started = init 0x1000 0 4096 reserved (λ i. 0)

started_max : started.max_bits ≡ 1024
started_max = max-init 0x1000 0 4096 reserved (λ i. 0)

test-init_example :
    Bitmap.test started.bitmap 512
    ≡ ltb 512 (256 + div_ceil (Bitmap.u32 (0x1000 + div_ceil started.max_bits 8)) 4096)
test-init_example =
    test-init 0x1000 0 4096 reserved (λ i. 0) 512 (λ i. omega arith) (rw started_max (omega arith))
