-- ===== src/Paging/Map.antt =====
-- What a virtual address leads to before and after mapping and unmapping.
use yuzuos.Base.{
  ℕ, ◌+◌, ◌*◌, ◌<◌, ◌≡◌, refl, ap, arith, Bool, true, false, not, ◌&&◌, Option, none, some, ◌==◌,
  if◌then◌else◌, bit, Bool-cases, inl, inr, max, sym, ◌∙◌, ==_iff,
}
use yuzuos.Paging.{
  Space, map_addr, addr_unmap, phys_addr_get, is_enabled, dir_index, tbl_index, frame_set, flag_set,
  table_new, entry_get, entry_set,
}
use yuzuos.Base.Distinct.{eq_refl}
use yuzuos.Physical.{block_alloc}
use yuzuos.Paging.Entry.{frame_set-flag_set, top_bit-frame_set, is_enabled-frame_set}

-- The entry that the processor finds for an address: 0 where the address has no table.
abbrev pub lookup : ℕ → Space → ℕ
lookup w s = if is_enabled (s.dir (dir_index w)) then phys_addr_get w s else 0

-- An entry that is in use.
abbrev pub used_entry : ℕ → Option ℕ
used_entry entry = if is_enabled entry then some entry else none

abbrev pub translate : ℕ → Space → Option ℕ
translate w s = used_entry (lookup w s)

abbrev pub same_page : ℕ → ℕ → Bool
same_page w v = (dir_index w == dir_index v) && (tbl_index w == tbl_index v)

-- An address that is not in the window on the tables.
abbrev pub IsOutside : ℕ → Type 0
IsOutside w = (dir_index w == 1023) ≡ false

-- The same by the indices of an address.
abbrev lookup_at : (a b : ℕ) → Space → ℕ
lookup_at a b s = if is_enabled (s.dir a) then entry_get a b s else 0

module _ (i j a b : ℕ) (i_out : (i == 1023) ≡ false) (a_out : (a == 1023) ≡ false) (t : Space) where
  lookup_at-entry_set :
      (x : ℕ)
      → is_enabled (t.dir i) ≡ true
      → lookup_at a b (entry_set i j x t) ≡ (if (a == i) && (b == j) then x else lookup_at a b t)
  lookup_at-entry_set x on =
      rw (i_out, a_out)
        (elim (Bool-cases (a == i)) [
          | inl same ↦ rw (same, (==_iff a i).0 same, on) (ground arith)
          | inr other ↦ rw other
        ])

  table_new-dir : (flags : ℕ) → bit flags 0 ≡ 1 → is_enabled ((table_new i flags t).dir i) ≡ true
  unfolding table_new
  table_new-dir flags odd =
      rw (i_out, eq_refl i) (is_enabled-frame_set (t.dir i) flags (block_alloc t.phys).1 odd)

  lookup_at-table_new :
      (flags : ℕ)
      → is_enabled (t.dir i) ≡ false
      → lookup_at a b (table_new i flags t) ≡ lookup_at a b t
  unfolding table_new
  lookup_at-table_new flags off =
      rw (i_out, a_out)
        (elim (Bool-cases (a == i)) [
          | inl same ↦ rw (same, (==_iff a i).0 same, off) (ground arith)
          | inr other ↦ rw other
        ])

found : (i j : ℕ) (t : Space) → is_enabled (t.dir i) ≡ true → lookup_at i j t ≡ entry_get i j t
found i j t on = rw on

-- The space in which `virt_mm_map_addr` writes its entry.
with_table : (i flags : ℕ) → Space → Space
with_table i flags s = if not (is_enabled (s.dir i)) then table_new i flags s else s

-- The table on the way changes nothing that is found, and holds the new entry.
module _ (i flags : ℕ) (i_out : (i == 1023) ≡ false) (odd : bit flags 0 ≡ 1) (s : Space) where
  with_table-dir : is_enabled ((with_table i flags s).dir i) ≡ true
  unfolding with_table
  with_table-dir = elim (Bool-cases (is_enabled (s.dir i))) [
    | inl on ↦ rw on on
    | inr off ↦ rw off (table_new-dir i 0 i 0 i_out i_out s flags odd)
  ]

  module _ (a b : ℕ) (a_out : (a == 1023) ≡ false) where
    lookup_at-with_table : lookup_at a b (with_table i flags s) ≡ lookup_at a b s
    unfolding with_table
    lookup_at-with_table = elim (Bool-cases (is_enabled (s.dir i))) [
      | inl on ↦ rw on
      | inr off ↦ rw off (lookup_at-table_new i 0 a b i_out a_out s flags off)
    ]

  lookup_at-map :
      (j a b x : ℕ)
      → (a == 1023) ≡ false
      → lookup_at a b (entry_set i j x (with_table i flags s))
        ≡ (if (a == i) && (b == j) then x else lookup_at a b s)
  lookup_at-map j a b x a_out =
      lookup_at-entry_set i j a b i_out a_out (with_table i flags s) x with_table-dir
      ∙ ap (λ (y : ℕ). if (a == i) && (b == j) then x else y) (lookup_at-with_table a b a_out)

  new_entry :
      (j q : ℕ)
      → flags < 4096
      → lookup_at i j s ≡ 0
      → frame_set (flag_set (entry_get i j (with_table i flags s)) flags) (q * 4096)
        ≡ flags + q * 4096
  new_entry j q small empty =
      let there = found i j (with_table i flags s) with_table-dir in
      ap (λ (y : ℕ). frame_set (flag_set y flags) (q * 4096))
        (sym there ∙ lookup_at-with_table i j i_out ∙ empty)
      ∙ frame_set-flag_set q flags small

-- `virt_mm_map_addr` of a page that leads nowhere yet makes it lead to the frame with the flags, and
-- leaves every other page as it was, where both addresses lie outside the window on the tables, the
-- flags mark the entry as present and are below 4096, and the frame's address is a multiple of 4096.
pub map_addr-lookup :
    (s : Space) (q v flags w : ℕ)
    → IsOutside v
    → IsOutside w
    → bit flags 0 ≡ 1
    → flags < 4096
    → lookup v s ≡ 0
    → lookup w (map_addr (q * 4096) v flags s)
      ≡ (if same_page w v then flags + q * 4096 else lookup w s)
unfolding map_addr phys_addr_get with_table
map_addr-lookup s q v flags w v_out w_out odd small empty =
    let i = dir_index v in
    let j = tbl_index v in
    let entry = frame_set (flag_set (entry_get i j (with_table i flags s)) flags) (q * 4096) in
    lookup_at-map i flags v_out odd s j (dir_index w) (tbl_index w) entry w_out
    ∙ ap (λ (y : ℕ). if same_page w v then y else lookup w s)
        (new_entry i flags v_out odd s j q small empty)

-- After `virt_mm_map_addr` the highest bit of the entry of the address is set where it was set before,
-- or in the flags or in the new frame's address, where the address lies outside the window on the
-- tables and the flags mark the entry as present: an old frame from 0x80000000 on shows through.
pub map_addr-remap :
    (s : Space) (physical v flags : ℕ)
    → IsOutside v
    → bit flags 0 ≡ 1
    → bit (lookup v (map_addr physical v flags s)) 31
      ≡ max (bit (lookup v s) 31) (max (bit flags 31) (bit physical 31))
unfolding map_addr phys_addr_get with_table
map_addr-remap s physical v flags v_out odd =
    let i = dir_index v in
    let j = tbl_index v in
    let old = entry_get i j (with_table i flags s) in
    let there = found i j (with_table i flags s) (with_table-dir i flags v_out odd s) in
    let same : old ≡ lookup v s = sym there ∙ lookup_at-with_table i flags v_out odd s i j v_out in
    let here : lookup v (map_addr physical v flags s) ≡ frame_set (flag_set old flags) physical =
      lookup_at-map i flags v_out odd s j i j (frame_set (flag_set old flags) physical) v_out
      ∙ rw (eq_refl i, eq_refl j) refl in
    ap (λ (y : ℕ). bit y 31) here
    ∙ top_bit-frame_set old flags physical
    ∙ ap (λ (y : ℕ). max (bit y 31) (max (bit flags 31) (bit physical 31))) same

used_if : (c : Bool) (e : ℕ) → used_entry (if c then 0 else e) ≡ (if c then none else used_entry e)
used_if true e = refl
used_if false e = refl

-- Unmapping by the indices of the address.
abbrev unmap_at : (i j : ℕ) → Space → Space
unmap_at i j s =
    if not (is_enabled (s.dir i))
    then s
    else if not (is_enabled (entry_get i j s))
    then s
    else entry_set i j 0 s

module _ (i j a b : ℕ) (i_out : (i == 1023) ≡ false) (a_out : (a == 1023) ≡ false) (s : Space) where
  -- Where nothing is found, nothing has to be unmapped.
  unmapped :
      is_enabled (lookup_at i j s) ≡ false
      → used_entry (lookup_at a b s)
        ≡ (if (a == i) && (b == j) then none else used_entry (lookup_at a b s))
  unmapped off = elim (Bool-cases (a == i)) [
    | inr other ↦ rw other
    | inl same ↦ elim (Bool-cases (b == j)) [
      | inr other ↦ rw (same, other)
      | inl same' ↦ rw (same, same') (rw ((==_iff a i).0 same, (==_iff b j).0 same', off) refl)
    ]
  ]

  lookup_at-unmap_at :
      used_entry (lookup_at a b (unmap_at i j s))
      ≡ (if (a == i) && (b == j) then none else used_entry (lookup_at a b s))
  lookup_at-unmap_at = elim (Bool-cases (is_enabled (s.dir i))) [
    | inr off ↦ rw off (unmapped (rw off refl))
    | inl on ↦ elim (Bool-cases (is_enabled (entry_get i j s))) [
      | inr off ↦ rw (on, off) (unmapped (rw on off))
      | inl full ↦
          rw (on, full)
            (ap used_entry (lookup_at-entry_set i j a b i_out a_out s 0 on)
              ∙ used_if ((a == i) && (b == j)) (lookup_at a b s))
    ]
  ]

-- `virt_mm_addr_unmap` takes the page of its address out and leaves every other page as it was, where
-- both addresses lie outside the window on the tables.
pub translate-addr_unmap :
    (s : Space) (v w : ℕ)
    → IsOutside v
    → IsOutside w
    → translate w (addr_unmap v s) ≡ (if same_page w v then none else translate w s)
unfolding addr_unmap phys_addr_get
translate-addr_unmap s v w v_out w_out =
    lookup_at-unmap_at (dir_index v) (tbl_index v) (dir_index w) (tbl_index w) v_out w_out s
