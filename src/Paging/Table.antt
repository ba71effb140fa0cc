-- ===== src/Paging/Table.antt =====
-- kernel/memory/virtual.c: the page that virt_mm_map_addr maps, with the frame of its table.
use yuzuos.Base.{
  ℕ, ◌+◌, ◌*◌, ◌<◌, ◌≡◌, ◌⊎◌, refl, ap, ◌∙◌, arith, true, false, ◌==◌, if◌then◌else◌, bit, inl, inr,
}
use yuzuos.Bitmap
use yuzuos.Physical.{Phys, block_alloc}
use yuzuos.Physical.Alloc.{IsCounted, Granted, searched, block_alloc-Granted}
use yuzuos.Paging.{
  Space, Table, map_addr, table_new, is_enabled, dir_index, frame_set, flag_set, entry_set,
}
use yuzuos.Paging.Entry.{frame_set-flag_set}
use yuzuos.Paging.Map.{lookup, same_page, IsOutside, map_addr-lookup}

-- Some frame is free, with frame 0 in use and the counter right.
pub record HasFrame (p : Phys) : Type 0 where
  pub counted : IsCounted p
  pub reserved : Bitmap.test p.bitmap 0 ≡ true
  pub some_free : (c : ℕ) × (c < searched p) × (Bitmap.test p.bitmap c ≡ false)

-- The address has a table, or it has an empty entry and there is a frame for one.
abbrev pub CanMap : (i : ℕ) → Space → Type 0
CanMap i s = (is_enabled (s.dir i) ≡ true) ⊎ ((s.dir i ≡ 0) × HasFrame s.phys)

-- The directory and the frames are as they were, or the entry leads to the frame that has been given
-- for the table, with the flags, and no other entry has changed.
abbrev pub IsTabled : (i flags : ℕ) → (s t : Space) → Type 0
IsTabled i flags s t =
    ((t.dir ≡ s.dir) × (t.phys ≡ s.phys))
    ⊎ ((b : ℕ) × Granted s.phys b (block_alloc s.phys)
        × (t.phys ≡ (block_alloc s.phys).0)
        × ((k : ℕ) → t.dir k ≡ (if k == i then flags + b * 4096 else s.dir k)))

entry_set-dir :
    (i j x : ℕ) (s : Space)
    → (i == 1023) ≡ false
    → ((entry_set i j x s).dir ≡ s.dir) × ((entry_set i j x s).phys ≡ s.phys)
entry_set-dir i j x s out = rw out (refl, refl)

table_new-fields :
    (i flags k : ℕ) (s : Space)
    → (i == 1023) ≡ false
    → ((table_new i flags s).dir k
        ≡ (if k == i then frame_set (flag_set (s.dir i) flags) (block_alloc s.phys).1 else s.dir k))
      × ((table_new i flags s).phys ≡ (block_alloc s.phys).0)
unfolding table_new
table_new-fields i flags k s out = rw out (refl, refl)

map_addr-IsTabled :
    (s : Space) (physical v flags : ℕ)
    → IsOutside v
    → flags < 4096
    → CanMap (dir_index v) s
    → IsTabled (dir_index v) flags s (map_addr physical v flags s)
unfolding map_addr
map_addr-IsTabled s physical v flags out small (inl on) =
    inl (rw on (entry_set-dir (dir_index v) _ _ s out))
map_addr-IsTabled s physical v flags out small (inr (empty, frame)) =
    let i = dir_index v in
    let off : is_enabled (s.dir i) ≡ false = rw empty refl in
    let (c, below, clear) = frame.some_free in
    let (b, granted) = block_alloc-Granted s.phys c frame.counted frame.reserved below clear in
    let entry : frame_set (flag_set (s.dir i) flags) (block_alloc s.phys).1 ≡ flags + b * 4096 =
      ap (λ (x : ℕ). frame_set (flag_set x flags) (block_alloc s.phys).1) empty
      ∙ ap (λ (x : ℕ). frame_set (flag_set 0 flags) x) (granted.address ∙ omega arith)
      ∙ frame_set-flag_set b flags small in
    inr (
      rw off (
        b,
        granted,
        (entry_set-dir i _ _ (table_new i flags s) out).1 ∙ (table_new-fields i flags 0 s out).1,
        λ k.
            ap (λ (f : Table). f k) (entry_set-dir i _ _ (table_new i flags s) out).0
            ∙ (table_new-fields i flags k s out).0
            ∙ ap (λ (x : ℕ). if k == i then x else s.dir k) entry,
      ))

-- `virt_mm_map_addr` of a page that leads nowhere yet makes it lead to the frame with the flags, and
-- leaves every other page as it was, where both addresses lie outside the window on the tables, the
-- flags mark the entry as present and are below 4096, the frame's address is a multiple of 4096, and
-- the address has a table, or else an empty entry in the directory and a free frame for a table. The
-- directory and the frames in use stay as they were, or the table takes the least free frame: just
-- that frame is marked, and just the entry of the address leads to it, with the flags.
pub map_addr-IsMapped :
    (s : Space) (q v flags w : ℕ)
    → IsOutside v
    → IsOutside w
    → bit flags 0 ≡ 1
    → flags < 4096
    → lookup v s ≡ 0
    → CanMap (dir_index v) s
    → (lookup w (map_addr (q * 4096) v flags s)
        ≡ (if same_page w v then flags + q * 4096 else lookup w s))
      × IsTabled (dir_index v) flags s (map_addr (q * 4096) v flags s)
map_addr-IsMapped s q v flags w v_out w_out odd small empty can = (
  map_addr-lookup s q v flags w v_out w_out odd small empty,
  map_addr-IsTabled s (q * 4096) v flags v_out small can,
)
