-- ===== src/Physical/Init.antt =====
-- What `phys_mm_init` makes of the bitmap.
use yuzuos.Base.{
  ℕ, zero, suc, ◌+◌, ◌-◌, ◌*◌, ◌/◌, ◌%◌, ◌^◌, ◌<◌, ◌≡◌, refl, false, List, [], ◌∷◌, arith, ◌∙◌, ltb,
  ◌==◌, if◌then◌else◌, min, Bool-cases, inl, inr, bit_mul_pow, div_mul_le,
}
use yuzuos.Bitmap
use yuzuos.Bitmap.{Words, u32}
use yuzuos.Bitmap.Words.{IsWords, test-bit, test-set, set-IsWords}
use yuzuos.Physical.{
  Phys, MmapEntry, memory_available, block_size, blocks_per_byte, div_ceil, clear_bytes, region_set,
  region_unset, region_set_all, init, take_run, give_run, take_bit, give_bit,
}
use yuzuos.Physical.Runs.{test-take_run, test-give_run}

clear_bytes-IsWords : (size : ℕ) (m : Words) → IsWords m → IsWords (clear_bytes size m)
unfolding clear_bytes
clear_bytes-IsWords size m w i =
    omega (arith, w i, div_mul_le (m i) (2 ^ (8 * min (size - 4 * i) 4)))

-- The bits of the bytes that `memset` clears.
test-clear_bytes :
    (size : ℕ) (m : Words) (f : ℕ) → f < 8 * size → Bitmap.test (clear_bytes size m) f ≡ false
unfolding clear_bytes
test-clear_bytes size m f h =
    let c = 8 * min (size - 4 * (f / 32)) 4 in
    rw (test-bit (clear_bytes size m) f)
      (ground (arith, bit_mul_pow c (m (f / 32) / 2 ^ c) (f % 32) (omega arith)))

-- Every frame but the first is free in the first `n` bits.
record IsBlank (n : ℕ) (m : Words) : Type 0 where
  words : IsWords m
  clear : (f : ℕ) → 0 < f → f < n → Bitmap.test m f ≡ false

region_set-IsBlank :
    (n base len : ℕ) (s : Phys)
    → base < 2 ^ 32
    → len < 2 ^ 32
    → IsBlank n s.bitmap
    → IsBlank n (region_set base len s).bitmap
unfolding region_set
region_set-IsBlank n base len s lo hi v =
    let run = div_ceil len block_size in
    let given = λ (f : ℕ). test-give_run run 0 (base / block_size) s f v.words (ground arith) in
    record {
      words = set-IsWords (give_run run 0 (base / block_size) s).bitmap 0 (given 0).0;
      clear = λ f pos below.
          rw
            (
              test-set (give_run run 0 (base / block_size) s).bitmap 0 f,
              (given f).1,
              v.clear f pos below,
            )
            (ground arith);
    }

entry-IsBlank :
    (n : ℕ) (e : MmapEntry) (s : Phys)
    → IsBlank n s.bitmap
    → IsBlank n
        (if e.kind == memory_available then region_set (u32 e.addr) (u32 e.len) s else s).bitmap
entry-IsBlank n e s v = elim (Bool-cases (e.kind == memory_available)) [
  | inl available ↦
      rw available (region_set-IsBlank n (u32 e.addr) (u32 e.len) s (omega arith) (omega arith) v)
  | inr other ↦ rw other v
]

region_set_all-IsBlank :
    (n : ℕ) (entries : List MmapEntry) (s : Phys)
    → IsBlank n s.bitmap
    → IsBlank n (region_set_all entries s).bitmap
unfolding region_set_all
region_set_all-IsBlank n [] s v = v
region_set_all-IsBlank n (e ∷ es) s v = region_set_all-IsBlank n es _ (entry-IsBlank n e s v)

-- The number of frames never changes.
max-give_run : (left i base : ℕ) (s : Phys) → (give_run left i base s).max_bits ≡ s.max_bits
unfolding give_run
max-give_run zero i base s = refl
max-give_run (suc left) i base s = max-give_run left (i + 1) base (give_bit (u32 (base + i)) s)

max-take_run : (left i base : ℕ) (s : Phys) → (take_run left i base s).max_bits ≡ s.max_bits
unfolding take_run
max-take_run zero i base s = refl
max-take_run (suc left) i base s = max-take_run left (i + 1) base (take_bit (u32 (base + i)) s)

max-entry :
    (e : MmapEntry) (s : Phys)
    → (if e.kind == memory_available then region_set (u32 e.addr) (u32 e.len) s else s).max_bits
      ≡ s.max_bits
unfolding region_set
max-entry e s =
    ground (arith, max-give_run (div_ceil (u32 e.len) block_size) 0 (u32 e.addr / block_size) s)

max-region_set_all :
    (entries : List MmapEntry) (s : Phys) → (region_set_all entries s).max_bits ≡ s.max_bits
unfolding region_set_all
max-region_set_all [] s = refl
max-region_set_all (e ∷ es) s = max-region_set_all es _ ∙ max-entry e s

-- The bitmap that the two last regions leave on a blank one.
test-reserve :
    (n size : ℕ) (s : Phys) (f : ℕ)
    → size < 2 ^ 32
    → IsBlank n s.bitmap
    → f < n
    → Bitmap.test (region_unset 0x100000 size (region_unset 0 0x100000 s)).bitmap f
      ≡ ltb f (256 + div_ceil size block_size)
unfolding region_unset
test-reserve n size s f small v below =
    test-take_run (div_ceil size block_size) 0 256 (take_run 256 0 0 s) f (ground arith)
    ∙ elim (Bool-cases (f == 0)) [
      | inl first ↦ rw (test-take_run 256 0 0 s f (omega arith)) (ground arith)
      | inr other ↦
          let pos : 0 < f = ground arith in
          rw (test-take_run 256 0 0 s f (omega arith), v.clear f pos below) (ground arith)
    ]

pub max-init :
    (kernel_size mem_lower mem_upper : ℕ) (entries : List MmapEntry) (mem : Words)
    → (init kernel_size mem_lower mem_upper entries mem).max_bits
      ≡ div_ceil (u32 (mem_lower + u32 (mem_upper * 1024))) block_size
unfolding init region_unset
max-init kernel_size mem_lower mem_upper entries mem =
    let n = div_ceil (u32 (mem_lower + u32 (mem_upper * 1024))) block_size in
    let size = div_ceil n blocks_per_byte in
    let blank : Phys = record { bitmap = clear_bytes size mem; used = n; max_bits = n } in
    let s = region_set_all entries blank in
    max-take_run (div_ceil (u32 (kernel_size + size)) block_size) 0 256 (take_run 256 0 0 s)
    ∙ max-take_run 256 0 0 s
    ∙ max-region_set_all entries blank

-- After initialisation the frames below the bound are in use that belong to the first megabyte, frame
-- 0 included, or to the kernel with its bitmap, and every other frame below the bound is free,
-- whatever the memory map says of it.
pub test-init :
    (kernel_size mem_lower mem_upper : ℕ) (entries : List MmapEntry) (mem : Words) (f : ℕ)
    → IsWords mem
    → f < (init kernel_size mem_lower mem_upper entries mem).max_bits
    → let s = init kernel_size mem_lower mem_upper entries mem in
      let bitmap_size = div_ceil s.max_bits blocks_per_byte in
      Bitmap.test s.bitmap f ≡ ltb f (256 + div_ceil (u32 (kernel_size + bitmap_size)) block_size)
unfolding init region_unset
test-init kernel_size mem_lower mem_upper entries mem f w below =
    let n = div_ceil (u32 (mem_lower + u32 (mem_upper * 1024))) block_size in
    let size = div_ceil n blocks_per_byte in
    let blank : Phys = record { bitmap = clear_bytes size mem; used = n; max_bits = n } in
    let s = region_set_all entries blank in
    let kept = max-init kernel_size mem_lower mem_upper entries mem in
    rw kept (
      test-reserve n (u32 (kernel_size + size)) s f (omega arith)
        (region_set_all-IsBlank n entries blank (record {
          words = clear_bytes-IsWords size mem w;
          clear = λ g gpos gbelow. test-clear_bytes size mem g (ground arith);
        }))
        (rw kept at below))
