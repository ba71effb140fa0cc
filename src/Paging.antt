-- ===== src/Paging.antt =====
-- kernel/memory/virtual.c and virtual.h: the page directory and its tables, which map virtual
-- addresses to frames of physical.c.
-- The directory is the current one. Its last entry leads to itself, so the tables stand at fixed
-- addresses from PAGE_TBL_BASE on: the table of entry `i` at the page `i` of that window, and the
-- directory itself at the last page. Two entries of the directory with the same table are not
-- modelled, nor is an entry whose table has got no frame. A `uint32_t` entry is a number; the processor's cache of entries and the messages on the
-- serial port are left out.
pub mod Entry
pub mod Map
pub mod Range
pub mod Table
use yuzuos.Base.{
  ℕ, zero, suc, ◌+◌, ◌*◌, ◌/◌, ◌%◌, ◌^◌, bit_and, bit_or, Bool, not, Option, none, some, ltb, ◌==◌,
  if◌then◌else◌, update,
}
use yuzuos.Bitmap.{u32, complement}
use yuzuos.Physical.{Phys, block_size, block_alloc, addr_set}

-- The entries of a directory or of a table.
abbrev pub Table : Type 0
Table = ℕ → ℕ

pub record Space : Type 0 where
  pub dir : Table
  pub tables : ℕ → Table
  pub phys : Phys

-- `PAGE_FRAME`, `PAGE_DIR_BASE`, `PAGE_TBL_ENTRIES` and `PAGE_DIR_ENTRIES`
abbrev pub page_frame : ℕ
page_frame = 0x7fff_f000

abbrev pub page_dir_base : ℕ
page_dir_base = 0xffff_f000

abbrev pub entries : ℕ
entries = 1024

-- `PAGE_TBL_PRESENT` and `PAGE_TBL_WRITABLE`; those of the directory have the same values.
abbrev pub present : ℕ
present = 1

abbrev pub writable : ℕ
writable = 2

-- `PAGE_IS_ENABLED`
abbrev pub is_enabled : ℕ → Bool
is_enabled entry = not (bit_and entry 1 == 0)

-- `PAGE_TBL_INDEX` and `PAGE_DIR_INDEX`
abbrev pub tbl_index : ℕ → ℕ
tbl_index addr = addr / 2 ^ 12 % 1024

abbrev pub dir_index : ℕ → ℕ
dir_index addr = addr / 2 ^ 22 % 1024

-- The window on the table of entry `i`: what stands there, a write to one entry, and the `memset`.
abbrev pub entry_get : (i j : ℕ) → Space → ℕ
entry_get i j s = if i == 1023 then s.dir j else s.tables i j

abbrev pub entry_set : (i j v : ℕ) → Space → Space
entry_set i j v s =
    if i == 1023
    then record s { dir = update s.dir j v }
    else record s { tables = update s.tables i (update (s.tables i) j v) }

abbrev pub table_clear : ℕ → Space → Space
table_clear i s =
    if i == 1023
    then record s { dir = λ j. 0 }
    else record s { tables = update s.tables i (λ j. 0) }

pub frame_set : (entry addr : ℕ) → ℕ
frame_set entry addr = bit_or (bit_and entry (complement page_frame)) addr

pub flag_set : (entry flags : ℕ) → ℕ
flag_set entry flags = bit_or entry flags

pub phys_addr_get : ℕ → Space → ℕ
phys_addr_get virtual s = entry_get (dir_index virtual) (tbl_index virtual) s

-- The part of `virt_mm_map_addr` for an address that has no table yet.
table_new : (i flags : ℕ) → Space → Space
unfolding frame_set flag_set
table_new i flags s =
    let r = block_alloc s.phys in
    let s1 : Space = record s {
      dir = update s.dir i (frame_set (flag_set (s.dir i) flags) r.1);
      phys = r.0;
    } in
    table_clear i s1

pub map_addr : (physical virtual flags : ℕ) → Space → Space
unfolding table_new frame_set flag_set
map_addr physical virtual flags s =
    let i = dir_index virtual in
    let j = tbl_index virtual in
    let s1 = if not (is_enabled (s.dir i)) then table_new i flags s else s in
    entry_set i j (frame_set (flag_set (entry_get i j s1) flags) physical) s1

pub addr_unmap : ℕ → Space → Space
addr_unmap virtual s =
    let i = dir_index virtual in
    let j = tbl_index virtual in
    if not (is_enabled (s.dir i))
    then s
    else if not (is_enabled (entry_get i j s))
    then s
    else entry_set i j 0 s

-- The loop of `virt_mm_addr_range_unmap`, at `addr`; it does not end where `end` is so near to the
-- last address that `addr` wraps round before.
unfoldable pub addr_range_unmap : (fuel : ℕ) → (addr end_addr : ℕ) → Space → Option Space
unfolding addr_unmap
addr_range_unmap zero addr end_addr s = none
addr_range_unmap (suc fuel) addr end_addr s =
    let rest = addr_range_unmap fuel (u32 (addr + block_size)) end_addr (addr_unmap addr s) in
    if ltb addr end_addr then rest else some s

-- The loop of `virt_mm_map`, `left` rounds before its end: the new table, and the frames it uses.
fill : (left i_phys i_virt : ℕ) → Table → Phys → Table × Phys
unfolding frame_set flag_set
fill zero i_phys i_virt tbl phys = (tbl, phys)
fill (suc left) i_phys i_virt tbl phys =
    let j = tbl_index i_virt in
    let entry = frame_set (flag_set (tbl j) (bit_or present writable)) i_phys in
    fill left (u32 (i_phys + block_size)) (u32 (i_virt + block_size)) (update tbl j entry)
      (addr_set i_phys phys)

pub map : (physical virtual : ℕ) → Space → Space
unfolding fill frame_set flag_set
map physical virtual s =
    let r = block_alloc s.phys in
    let filled = fill entries physical virtual (λ j. 0) r.0 in
    let i = dir_index virtual in
    record s {
      dir = update s.dir i (frame_set (flag_set (s.dir i) (bit_or present writable)) r.1);
      tables = update s.tables i filled.0;
      phys = filled.1;
    }

pub init : Phys → Space
unfolding map
init phys =
    let r = block_alloc phys in
    let s = map 0 0xc000_0000 (record { dir = λ j. 0; tables = λ i j. 0; phys = r.0 }) in
    record s {
      dir = update s.dir 1023 (bit_or (bit_or (bit_and r.1 page_dir_base) present) writable);
    }
