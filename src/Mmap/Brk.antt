-- ===== src/Mmap/Brk.antt =====
-- `mmap_brk` where the area grows.
use yuzuos.Base.{
  ℕ, zero, suc, ◌+◌, ◌-◌, ◌*◌, ◌/◌, ◌^◌, ◌≤◌, ◌<◌, ◌≡◌, refl, ◌∙◌, ap, arith, true, false, some,
  ltb, leb, ◌==◌, Bool-cases, inl, inr,
}
use mathlib.Core.Option.{bind}
use mathlib.Core.Option
use yuzuos.Bitmap.{u32}
use yuzuos.DList.{Ptr}
use yuzuos.Physical.{block_size, block_n_alloc}
use yuzuos.Paging.{Space, map_addr}
use yuzuos.Mmap.{Vm, Mm, find_vm, page_align, set_end, copy_vm}
use yuzuos.Mmap.Process.{
  Proc, map_run, user_flags, copy_grown, back_end, move_end, mmap_brk, set_mm,
}

-- The loop over the pages comes to its end.
map_run_total :
    (fuel : ℕ) (physical virtual end_at : ℕ) (s : Space)
    → end_at + block_size ≤ 2 ^ 32
    → 0 < fuel
    → end_at + block_size ≤ virtual + block_size * fuel
    → (s' : Space) × (map_run fuel physical virtual end_at s ≡ some s')
unfolding map_run
map_run_total zero physical virtual end_at s top some_fuel enough = absurd (omega arith)
map_run_total (suc fuel) physical virtual end_at s top some_fuel enough =
    let s1 = map_addr physical virtual user_flags s in
    elim (Bool-cases (ltb virtual end_at)) [
      | inl more ↦
          let wrap : u32 (virtual + block_size) ≡ virtual + block_size = ground arith in
          rw (more, wrap)
            (map_run_total fuel (u32 (physical + block_size)) (virtual + block_size) end_at s1 top
              (ground arith) (omega arith))
      | inr done ↦ rw done (s, refl)
    ]

page_align_le : (n : ℕ) → page_align n + block_size ≤ 2 ^ 32
page_align_le n = omega arith

module _ (file_mmap : Ptr → Ptr → Proc → Proc) (fds : ℕ → Ptr)
    (fuel fresh fresh' addr len : ℕ) where
  -- The new break, on a page.
  abbrev break_at : ℕ
  break_at = page_align (u32 (addr + len))

  abbrev grown : Ptr → Mm → Mm
  grown vm m = set_end fresh break_at (copy_vm fresh vm (record m { brk = break_at }))

  copy_grown_lem :
      (vm : Ptr) (m : Mm)
      → copy_grown file_mmap fds fuel fresh fresh' vm break_at (record m { brk = break_at })
        ≡ some (grown vm m)
  unfolding copy_grown
  copy_grown_lem vm m = let same : ltb break_at break_at ≡ false = ground arith in rw same refl

  move_end_total :
      (vm : Ptr) (p : Proc)
      → (p.mm.vms vm).end_at < (p.mm.vms fresh).end_at
      → (p.mm.vms fresh).end_at + block_size ≤ 2 ^ 32
      → (p.mm.vms fresh).end_at + block_size ≤ (p.mm.vms vm).end_at + block_size * fuel
      → (s' : Space) × (move_end file_mmap fds fuel vm fresh addr p
          ≡ some (record p { space = s' }))
  unfolding move_end
  move_end_total vm p longer top enough =
      let old_end = (p.mm.vms vm).end_at in
      let new_end = (p.mm.vms fresh).end_at in
      let frames = block_n_alloc (u32 (new_end + 2 ^ 32 - old_end) / block_size) p.space.phys in
      let s = p.space in
      let r =
        map_run_total fuel frames.1 old_end new_end (record s { phys = frames.0 }) top (omega arith)
          enough in
      let is_longer : ltb old_end new_end ≡ true = ground arith in
      (r.0, rw is_longer (ap (Option.map (λ (space : Space). record p { space = space })) r.1))

  -- Where the address stands in an area without a file that ends below the new break, `mmap_brk`
  -- takes the break and moves the end of that area there, wherever the next area starts, given as
  -- many rounds as there are new pages and one.
  pub mmap_brk_lem :
      (vm : Ptr) (p : Proc)
      → find_vm fuel addr p.mm ≡ some vm
      → (vm == 0) ≡ false
      → (vm == fresh) ≡ false
      → ((p.mm.vms vm).file == 0) ≡ true
      → (p.mm.vms vm).end_at < page_align (u32 (addr + len))
      → page_align (u32 (addr + len)) + block_size ≤ (p.mm.vms vm).end_at + block_size * fuel
      → (p' : Proc) × (mmap_brk file_mmap fds fuel fresh fresh' addr len p ≡ some p')
        × (p'.mm.vms vm ≡ record (p.mm.vms vm) { end_at = page_align (u32 (addr + len)) })
        × (p'.mm.brk ≡ page_align (u32 (addr + len)))
  unfolding mmap_brk back_end bind
  mmap_brk_lem vm p found some_area other no_file longer enough =
      let m = p.mm in
      let g = grown vm m in
      let own : (fresh == fresh) ≡ true = ground arith in
      let at_vm : g.vms vm ≡ m.vms vm = rw other refl in
      let at_fresh : g.vms fresh ≡ record (m.vms vm) { end_at = break_at } = rw own refl in
      let old_end : (g.vms vm).end_at ≡ (m.vms vm).end_at = ap (λ (v : Vm). v.end_at) at_vm in
      let new_end : (g.vms fresh).end_at ≡ break_at = ap (λ (v : Vm). v.end_at) at_fresh in
      let file : ((g.vms vm).file == 0) ≡ true = ap (λ (v : Vm). v.file == 0) at_vm ∙ no_file in
      let top = page_align_le (u32 (addr + len)) in
      let moved =
        move_end_total vm (set_mm file_mmap fds fuel g p) (omega (arith, old_end, new_end, longer))
          (omega (arith, new_end, top)) (omega (arith, old_end, new_end, enough)) in
      let not_short : leb break_at (m.vms vm).end_at ≡ false = ground arith in
      let own_vm : (vm == vm) ≡ true = ground arith in
      let p1 = set_mm file_mmap fds fuel g p in
      let q : Proc = record p1 { space = moved.0 } in
      let p' = set_mm file_mmap fds fuel (copy_vm vm fresh q.mm) q in
      let range : p'.mm.vms vm ≡ g.vms fresh = rw own_vm refl in
      (
        p',
        rw (found, some_area, not_short, copy_grown_lem vm m, file, moved.1) refl,
        range ∙ at_fresh,
        refl,
      )
