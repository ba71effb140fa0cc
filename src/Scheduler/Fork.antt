-- ===== src/Scheduler/Fork.antt =====
-- kernel/task/scheduler.c: the memory areas and the files that a new process gets from its parent.
use yuzuos.Base.{
  ℕ, zero, suc, ◌+◌, ◌<◌, ◌≡◌, refl, ap, ◌∙◌, arith, true, false, not, some, List, [], ◌∷◌, ◌++◌,
  length, ◌==◌, if◌then◌else◌, update, Bool-cases, inl, inr, ==_iff,
}
use mathlib.Core.List.{append_assoc, append-nil}
use yuzuos.Bitmap.{u32}
use yuzuos.Base.Distinct.{has, Distinct, Apart, Apart-symm}
use yuzuos.DList.{Ptr}
use yuzuos.DList
use yuzuos.DList.Segment.{IsRing}
use yuzuos.DList.Insert.{add_tail-IsRing}
use yuzuos.DList.Query.{foreach-IsRing}
use yuzuos.Plist.Headless.{Apart-insert_right}
use yuzuos.Mmap.{Mm, Vm, mm_list, vm_list, vm_entry}
use yuzuos.Scheduler.Process.{
  Blocks, copy_areas, clone_mm, new_mm, count_files, clone_files, Kernel, fd_max,
}

-- The links of the new areas, and what stands in them.
abbrev pub news : (ℕ → Ptr) → ℕ → List Ptr → List Ptr
news fresh i [] = []
news fresh i (x ∷ xs) = vm_list (fresh i) ∷ news fresh (i + 1) xs

abbrev pub AreCopied :
    (fresh : ℕ → Ptr) (owner : Ptr) → ℕ → List Ptr → (from : Ptr → Vm) (vms : Ptr → Vm) → Type 0
AreCopied fresh owner i [] from vms = Unit {0}
AreCopied fresh owner i (x ∷ xs) from vms =
    (vms (fresh i) ≡ record (from (vm_entry x)) { mm = owner })
    × AreCopied fresh owner (i + 1) xs from vms

-- An area that is made before the others stays as it is, and so do the other fields.
copy_areas-vms :
    (fresh : ℕ → Ptr) (p : Ptr) (i : ℕ) (xs : List Ptr) (from to : Mm)
    → has (vm_list p) (news fresh i xs) ≡ false
    → (copy_areas fresh i xs from to).vms p ≡ to.vms p
unfolding copy_areas
copy_areas-vms fresh p i [] from to out = refl
copy_areas-vms fresh p i (x ∷ xs) from to out =
    copy_areas-vms fresh p (i + 1) xs from _ (ground (arith, out)) ∙ ground (arith, out)

copy_areas-at :
    (fresh : ℕ → Ptr) (i : ℕ) (xs : List Ptr) (from to : Mm)
    → (copy_areas fresh i xs from to).at ≡ to.at
unfolding copy_areas
copy_areas-at fresh i [] from to = refl
copy_areas-at fresh i (x ∷ xs) from to = copy_areas-at fresh (i + 1) xs from _

copy_areas-IsRing :
    (fresh : ℕ → Ptr) (i : ℕ) (xs done : List Ptr) (from to : Mm)
    → IsRing to.links (mm_list to.at) done
    → Apart (news fresh i xs) (mm_list to.at ∷ done)
    → Distinct (news fresh i xs)
    → IsRing (copy_areas fresh i xs from to).links (mm_list to.at) (done ++ news fresh i xs)
unfolding copy_areas
copy_areas-IsRing fresh i [] done from to r a d = rw (append-nil done) r
copy_areas-IsRing fresh i (x ∷ xs) done from to r a d =
    let new = vm_list (fresh i) in
    let r' =
      add_tail-IsRing to.links (mm_list to.at) new done [] a.0 refl (rw (append-nil done) r) in
    let a' =
      Apart-insert_right (news fresh (i + 1) xs) (mm_list to.at ∷ done) [] new d.0
        (rw (append-nil done) a.1) in
    rw (← append_assoc done (new ∷ []) (news fresh (i + 1) xs))
      (copy_areas-IsRing fresh (i + 1) xs (done ++ new ∷ []) from _ r' a' d.1)

copy_areas-AreCopied :
    (fresh : ℕ → Ptr) (i : ℕ) (xs : List Ptr) (from to : Mm)
    → Distinct (news fresh i xs)
    → AreCopied fresh to.at i xs from.vms (copy_areas fresh i xs from to).vms
unfolding copy_areas
copy_areas-AreCopied fresh i [] from to d = tt
copy_areas-AreCopied fresh i (x ∷ xs) from to d =
    let same : (fresh i == fresh i) ≡ true = ground arith in
    (
      copy_areas-vms fresh (fresh i) (i + 1) xs from _ d.0 ∙ rw same refl,
      copy_areas-AreCopied fresh (i + 1) xs from _ d.1,
    )

-- `sched_process_clone_mm` comes to its end, given more rounds than the parent has areas. With blocks
-- that are all different, the list at the new `struct process_mm` has a new area for each area of the
-- parent, in the same order, and each is a copy of its area but for its owner.
pub clone_mm_lem :
    (fuel : ℕ) (b : Blocks) (from : Mm) (xs : List Ptr)
    → IsRing from.links (mm_list from.at) xs
    → length xs < fuel
    → Distinct (mm_list b.mm ∷ news b.vm 0 xs)
    → (to : Mm) × (clone_mm fuel b from ≡ some to)
      × IsRing to.links (mm_list b.mm) (news b.vm 0 xs)
      × AreCopied b.vm b.mm 0 xs from.vms to.vms
unfolding clone_mm DList.head_init
clone_mm_lem fuel b from xs r enough d =
    let to : Mm = record (new_mm b.mm) {
      brk = from.brk;
      brk_end = from.brk_end;
      cache = from.cache;
    } in
    let start : IsRing to.links (mm_list b.mm) [] = record {
      distinct = (refl, tt);
      path = tt;
      closes = (ground arith, ground arith);
    } in
    (
      copy_areas b.vm 0 xs from to,
      rw (foreach-IsRing from.links (mm_list from.at) xs fuel r enough) refl,
      copy_areas-IsRing b.vm 0 xs [] from to start
          (Apart-symm (mm_list b.mm ∷ []) (news b.vm 0 xs) (d.0, tt)) d.1,
      copy_areas-AreCopied b.vm 0 xs from to d.1,
    )

-- The descriptors from `i` on that hold the file.
unfoldable pub holders : (left i : ℕ) → (ℕ → Ptr) → Ptr → ℕ
holders zero i fd file = 0
holders (suc left) i fd file =
    let rest = holders left (i + 1) fd file in if fd i == file then rest + 1 else rest

count_files_lem :
    (left i : ℕ) (fd : ℕ → Ptr) (counts : Ptr → ℕ) (file : Ptr)
    → (file == 0) ≡ false
    → u32 (count_files left i fd counts file) ≡ u32 (counts file + holders left i fd file)
unfolding count_files holders
count_files_lem zero i fd counts file there = omega arith
count_files_lem (suc left) i fd counts file there =
    let c = counts file in
    let held = holders left (i + 1) fd file in
    elim (Bool-cases (fd i == file)) [
      | inl here ↦
          let at : fd i ≡ file = (==_iff (fd i) file).0 here in
          let full : (fd i == 0) ≡ false = ap (λ (x : Ptr). x == 0) at ∙ there in
          let next = update counts (fd i) (u32 (counts (fd i) + 1)) in
          let now : next file ≡ u32 (c + 1) = ground (arith, at) in
          rw (here, full)
            (count_files_lem left (i + 1) fd next file there
              ∙ (ap (λ (x : ℕ). u32 (x + held)) now ∙ omega arith))
      | inr other ↦
          let next =
            if not (fd i == 0) then update counts (fd i) (u32 (counts (fd i) + 1)) else counts in
          let now : next file ≡ c = ground arith in
          rw other
            (count_files_lem left (i + 1) fd next file there ∙ ap (λ (x : ℕ). u32 (x + held)) now)
    ]

-- A process that is made with a parent holds the files of its parent, and the count of each file
-- grows by the number of descriptors below 512 that hold it, in `atomic_t` of 32 bits.
pub clone_files_lem :
    (parent : Ptr) (k : Kernel) (file : Ptr)
    → (parent == 0) ≡ false
    → (file == 0) ≡ false
    → ((clone_files parent k).0 ≡ (k.processes parent).fd)
      × (u32 ((clone_files parent k).1 file)
          ≡ u32 (k.counts file + holders fd_max 0 (k.processes parent).fd file))
unfolding clone_files
clone_files_lem parent k file child there =
    let fd = (k.processes parent).fd in
    let grown = count_files_lem fd_max 0 fd k.counts file there in rw child (refl, grown)
