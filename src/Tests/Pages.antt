-- ===== src/Tests/Pages.antt =====
-- A directory without a table, and the pages from 0x1400000 on.
use yuzuos.Base.{inr, ◌==◌, if◌then◌else◌, ◌≡◌, refl, ◌*◌, some, bit, max, bit-lowest, arith}
use yuzuos.Paging.{Space, map_addr, addr_range_unmap}
use yuzuos.Paging.Map.{lookup, map_addr-remap}
use yuzuos.Paging.Table.{HasFrame, IsTabled, map_addr-IsMapped}
use yuzuos.Bitmap
use yuzuos.Base.Count.{count}
use yuzuos.Paging.Range.{IsCleared, range_unmap-IsCleared}

abbrev blank : Space
blank = record {
  dir = λ i. 0;
  tables = λ i j. 0;
  phys = record { bitmap = λ i. 0; used = 1; max_bits = 64 };
}

-- The page at 0x1403000 leads to the frame at 0x7000.
abbrev mapped : Space
mapped = map_addr (7 * 4096) 0x140_3000 3 blank

-- The frame 0 is in use, and the frame 1 is free for a table.
abbrev bare : Space
bare = record {
  dir = λ i. 0;
  tables = λ i j. 0;
  phys = record { bitmap = λ i. if i == 0 then 1 else 0; used = 1; max_bits = 64 };
}

bare-HasFrame : HasFrame bare.phys
unfolding Bitmap.test count
bare-HasFrame = record {
  counted = record { words = λ i. ground arith; small = omega arith; counted = refl };
  reserved = refl;
  some_free = (1, omega arith, refl);
}

map_addr-IsMapped_example :
    (lookup 0x140_3004 (map_addr (7 * 4096) 0x140_3000 3 bare) ≡ 0x7003)
    × IsTabled 5 3 bare (map_addr (7 * 4096) 0x140_3000 3 bare)
map_addr-IsMapped_example =
    map_addr-IsMapped bare 7 0x140_3000 3 0x140_3004 refl refl (bit-lowest 3) (omega arith) refl
      (inr (refl, bare-HasFrame))

map_addr-remap_example :
    bit (lookup 0x140_3000 (map_addr 0x8000 0x140_3000 3 mapped)) 31
    ≡ max (bit (lookup 0x140_3000 mapped) 31) (max (bit 3 31) (bit 0x8000 31))
map_addr-remap_example = map_addr-remap mapped 0x8000 0x140_3000 3 refl (bit-lowest 3)

range_unmap-IsCleared_example :
    (s' : Space) × (addr_range_unmap 3 0x140_2000 0x140_4000 mapped ≡ some s')
    × IsCleared 0x1402 2 mapped s'
range_unmap-IsCleared_example = range_unmap-IsCleared 2 3 0x1402 mapped (omega arith) (omega arith)
