-- ===== src/Heap.antt =====
-- kernel/utils/stdlib.c: the kernel's heap, a chain of blocks from HEAP_BOTTOM up to the break.
-- Memory gives the `struct malloc_block` at each address; `prev` is never used and left out. `malloc`
-- and `free` stop the kernel on a corrupted block (sys_panic), which is `none` here; a walk along the
-- chain takes fuel, and is `none` as well where it runs out.
pub mod Chain
pub mod Find
pub mod Take
pub mod Grow
pub mod Malloc
pub mod Free
use yuzuos.Base.{
  ℕ, zero, suc, ◌+◌, ◌-◌, ◌*◌, ◌/◌, ◌^◌, Bool, true, false, ◌&&◌, ◌||◌, Option, none, some, ltb,
  leb, ◌==◌, if◌then◌else◌, update, bit_or,
}
use yuzuos.Bitmap.{u32}
use yuzuos.Physical.{block_size, div_ceil, block_n_alloc}
use yuzuos.Paging.{Space, map_addr, present, writable}

-- `struct malloc_block`, of 16 bytes.
pub record Block : Type 0 where
  pub size : ℕ
  pub is_free : Bool
  pub next : ℕ

abbrev pub header : ℕ
header = 16

abbrev pub heap_bottom : ℕ
heap_bottom = 0xd000_0000

abbrev pub heap_top : ℕ
heap_top = 0xf000_0000

-- `malloc_blocks`, `malloc_current`, `malloc_remaining`, the blocks in memory, and what `malloc_sbrk`
-- changes elsewhere.
pub record Heap : Type 0 where
  pub blocks : ℕ
  pub current : ℕ
  pub remaining : ℕ
  pub memory : ℕ → Block
  pub space : Space

-- `ALIGN_UP(size, 4)` on `size_t`
abbrev pub align_up : ℕ → ℕ
align_up size = u32 (size + 3) / 4 * 4

-- The test of `malloc_assert`.
abbrev pub is_sound : Block → Bool
is_sound b = leb b.size 0x200_0000

abbrev pub empty_block : Block
empty_block = record { size = 0; is_free = false; next = 0 }

-- `memset(base, 0, n)`, for the blocks that start there.
abbrev pub clear : (base n : ℕ) → (ℕ → Block) → ℕ → Block
clear base n memory = λ p. if leb base p && ltb p (base + n) then empty_block else memory p

-- The loop of `malloc_sbrk` that maps the new frames, `left` rounds before its end.
map_pages : (left physical virtual : ℕ) → Space → Space
map_pages zero physical virtual s = s
map_pages (suc left) physical virtual s =
    map_pages left (u32 (physical + block_size)) (u32 (virtual + block_size))
      (map_addr physical virtual (bit_or present writable) s)

-- The part of `malloc_sbrk` that asks for frames. The loop over `virtual_addr` runs from the page
-- behind the break to the first page at or above the new break, as long as that is below 2 ^ 32.
unfoldable pub grow : ℕ → Heap → Heap
unfolding map_pages
grow increment h =
    let new_break = u32 (h.current + increment) in
    let start = u32 (div_ceil h.current block_size * block_size) in
    let frames = block_n_alloc (div_ceil (increment - h.remaining) block_size) h.space.phys in
    let rounds = div_ceil (new_break - start) block_size in
    let s : Space = h.space in
    record h {
      space = map_pages rounds frames.1 start (record s { phys = frames.0 });
      remaining = start + rounds * block_size - new_break;
    }

-- The new break's base stands beside the heap.
unfoldable pub sbrk : ℕ → Heap → Heap × ℕ
unfolding grow
sbrk increment h =
    let h1 =
      if leb increment h.remaining
      then record h { remaining = h.remaining - increment }
      else grow increment h in
    if increment == 0 then (h, h.current) else (
      record h1 {
        current = u32 (h.current + increment);
        memory = clear h.current increment h1.memory;
      },
      h.current,
    )

-- `malloc_get`; `last` is 0 for NULL.
unfoldable pub get : (last size : ℕ) → Heap → Heap × ℕ
get last size h =
    let r = sbrk (u32 (size + header)) h in
    let m = r.0.memory in
    let b = m last in
    let m1 = if last == 0 then m else update m last (record b { next = r.1 }) in
    (record r.0 { memory = update m1 r.1 (record { size = size; is_free = false; next = 0 }) }, r.1)

-- The loop of `malloc`, at `current`: the last block and the one that fits, 0 where none does.
unfoldable pub find_block : (fuel : ℕ) → (size last current : ℕ) → (ℕ → Block) → Option (ℕ × ℕ)
find_block zero size last current m = none
find_block (suc fuel) size last current m =
    let b = m current in
    let rest = find_block fuel size current b.next m in
    if current == 0
    then some (last, 0)
    else if b.is_free && leb size b.size
    then some (last, current)
    else if is_sound b && ((b.next == 0) || is_sound (m b.next))
    then rest
    else none

-- What `malloc` does with a free block that is large enough.
unfoldable pub take : (block size : ℕ) → (ℕ → Block) → ℕ → Block
take block size m =
    let b = m block in
    let split = u32 (block + header + size) in
    if ltb (u32 (size + header)) b.size
    then (update
        (update m split
          (record { size = u32 (b.size + 2 ^ 33 - size - header); is_free = true; next = b.next }))
        block (record { size = size; is_free = false; next = split }))
    else update m block (record b { is_free = false })

-- `malloc_assert` and the result of `malloc`.
unfoldable pub checked : Heap × ℕ → Option (Heap × ℕ)
checked r = if is_sound (r.0.memory r.1) then some (r.0, u32 (r.1 + header)) else none

-- A size of 0 gives NULL.
unfoldable pub malloc : (fuel : ℕ) → ℕ → Heap → Option (Heap × ℕ)
unfolding get find_block take checked
malloc fuel size h =
    let size' = align_up size in
    if size == 0
    then some (h, 0)
    else if h.blocks == 0
    then (let r = get 0 size' h in checked (record r.0 { blocks = r.1 }, r.1))
    else elim (find_block fuel size' h.blocks h.blocks h.memory) [
      | none ↦ none
      | some (last, block) ↦
          if block == 0
          then checked (get last size' h)
          else checked (record h { memory = take block size' h.memory }, block)
    ]

unfoldable pub free : ℕ → Heap → Option Heap
free ptr h =
    let block = u32 (ptr + 2 ^ 32 - header) in
    let b = h.memory block in
    if ptr == 0
    then some h
    else if is_sound b
    then some (record h { memory = update h.memory block (record b { is_free = true }) })
    else none
