-- ===== src/Physical.antt =====
-- kernel/memory/physical.c: page frames handed out from the bitmap.
-- The three static variables are a record; a `void *` is the number of its address, NULL is 0.
pub mod Alloc
pub mod Runs
pub mod Init
use yuzuos.Base.{
  ℕ, zero, suc, ◌+◌, ◌-◌, ◌*◌, ◌/◌, ◌%◌, ◌^◌, Bool, true, false, List, [], ◌∷◌, ltb, leb, ◌==◌,
  if◌then◌else◌, min,
}
use yuzuos.Bitmap.{Words, u32, get_first, get_n_first}
use yuzuos.Bitmap

pub record Phys : Type 0 where
  pub bitmap : Words
  pub used : ℕ
  pub max_bits : ℕ

-- `PHYS_MM_BLOCK` and `PHYS_MM_BLOCK_P_BYTE`
abbrev pub block_size : ℕ
block_size = 4096

abbrev pub blocks_per_byte : ℕ
blocks_per_byte = 8

-- `DIV_CEIL`
abbrev pub div_ceil : ℕ → ℕ → ℕ
div_ceil x y = x / y + (if ltb 0 (x % y) then 1 else 0)

-- `bitmap_set` and `phys_mm_bitmap_used++`
abbrev pub take_bit : ℕ → Phys → Phys
take_bit bit s = record s { bitmap = Bitmap.set s.bitmap bit; used = u32 (s.used + 1) }

-- `bitmap_unset` and `phys_mm_bitmap_used--`
abbrev pub give_bit : ℕ → Phys → Phys
give_bit bit s = record s { bitmap = Bitmap.unset s.bitmap bit; used = u32 (s.used + 2 ^ 32 - 1) }

pub addr_set : ℕ → Phys → Phys
addr_set addr s =
    let frame = addr / block_size in if Bitmap.test s.bitmap frame then s else take_bit frame s

-- The loop of `phys_mm_block_n_alloc` and of `phys_mm_region_unset`, `left` rounds before its end.
pub take_run : (left i base : ℕ) → Phys → Phys
take_run zero i base s = s
take_run (suc left) i base s = take_run left (i + 1) base (take_bit (u32 (base + i)) s)

-- The loop of `phys_mm_region_set`.
pub give_run : (left i base : ℕ) → Phys → Phys
give_run zero i base s = s
give_run (suc left) i base s = give_run left (i + 1) base (give_bit (u32 (base + i)) s)

-- The result stands beside the new state.
pub block_n_alloc : ℕ → Phys → Phys × ℕ
unfolding take_run
block_n_alloc len s =
    let bit = get_n_first s.bitmap s.max_bits len in
    if ltb (u32 (s.max_bits + 2 ^ 32 - s.used)) len
    then (s, 0)
    else if leb bit 0
    then (s, 0)
    else (take_run len 0 bit s, u32 (block_size * bit))

pub block_alloc : Phys → Phys × ℕ
block_alloc s =
    let bit = get_first s.bitmap s.max_bits in
    if leb s.max_bits s.used
    then (s, 0)
    else if leb bit 0
    then (s, 0)
    else (take_bit bit s, u32 (block_size * bit))

pub block_free : ℕ → Phys → Phys
block_free block s = if block == 0 then s else give_bit (block / block_size) s

-- Both regions print a line at the end, which is not modelled.
pub region_set : (base len : ℕ) → Phys → Phys
unfolding give_run
region_set base len s =
    let s' = give_run (div_ceil len block_size) 0 (base / block_size) s in
    record s' { bitmap = Bitmap.set s'.bitmap 0 }

pub region_unset : (base len : ℕ) → Phys → Phys
unfolding take_run
region_unset base len s = take_run (div_ceil len block_size) 0 (base / block_size) s

-- An entry of the boot loader's memory map: 64-bit address and length, and the kind of memory.
pub record MmapEntry : Type 0 where
  pub addr : ℕ
  pub len : ℕ
  pub kind : ℕ

-- `MULTIBOOT_MEMORY_AVAILABLE`
abbrev pub memory_available : ℕ
memory_available = 1

-- `memset(phys_mm_bitmap, 0, size)` on words whose lowest byte comes first.
pub clear_bytes : ℕ → Words → Words
clear_bytes size m = λ i. let cut = 2 ^ (8 * min (size - 4 * i) 4) in m i / cut * cut

-- The loop over the entries. The pointer walks over them by their sizes; here they are a list.
pub region_set_all : List MmapEntry → Phys → Phys
region_set_all [] s = s
region_set_all (e ∷ es) s =
    region_set_all es
      (if e.kind == memory_available then region_set (u32 e.addr) (u32 e.len) s else s)

-- `mem` is the memory behind the kernel's end, where the bitmap is laid.
pub init : (kernel_size mem_lower mem_upper : ℕ) → List MmapEntry → Words → Phys
unfolding region_set_all region_set region_unset clear_bytes
init kernel_size mem_lower mem_upper entries mem =
    let max_bits = div_ceil (u32 (mem_lower + u32 (mem_upper * 1024))) block_size in
    let bitmap_size = div_ceil max_bits blocks_per_byte in
    let s : Phys = record {
      bitmap = clear_bytes bitmap_size mem;
      used = max_bits;
      max_bits = max_bits;
    } in
    let s' = region_set_all entries s in
    region_unset 0x100000 (u32 (kernel_size + bitmap_size)) (region_unset 0 0x100000 s')
