-- ===== src/Paging/Range.antt =====
-- The loop of `virt_mm_addr_range_unmap` over whole pages.
use yuzuos.Base.{
  ℕ, zero, suc, ◌+◌, ◌*◌, ◌/◌, ◌^◌, ◌<◌, ◌≤◌, ◌≡◌, refl, ap, arith, Bool, true, false, ◌&&◌, Option,
  none, some, ◌==◌, ltb, leb, if◌then◌else◌, ◌∙◌,
}
use yuzuos.Bitmap.{u32}
use yuzuos.Paging.{Space, addr_unmap, addr_range_unmap}
use yuzuos.Paging.Map.{translate, same_page, IsOutside, translate-addr_unmap}

-- Two addresses of 32 bits have the same page where their page numbers agree.
same_page-number : (w v : ℕ) → w < 2 ^ 32 → v < 2 ^ 32 → same_page w v ≡ (w / 4096 == v / 4096)
same_page-number w v small small' = ground arith

abbrev pub in_pages : (a n w : ℕ) → Bool
in_pages a n w = leb a (w / 4096) && ltb (w / 4096) (a + n)

-- What the loop leaves of the pages of `s`.
abbrev pub IsCleared : (a n : ℕ) → Space → Space → Type 0
IsCleared a n s s' =
    (w : ℕ)
    → w < 2 ^ 32
    → IsOutside w
    → translate w s' ≡ (if in_pages a n w then none else translate w s)

cleared_next :
    (a n w : ℕ) (x : Option ℕ)
    → (if in_pages (a + 1) n w then none else (if w / 4096 == a then none else x))
      ≡ (if in_pages a (suc n) w then none else x)
cleared_next a n w x = ground arith

cleared_none : (a w : ℕ) (x : Option ℕ) → x ≡ (if in_pages a 0 w then none else x)
cleared_none a w x = ground arith

IsCleared-first :
    (a n : ℕ) (s s' : Space)
    → 4096 * a < 0xffc0_0000
    → IsCleared (a + 1) n (addr_unmap (4096 * a) s) s'
    → IsCleared a (suc n) s s'
IsCleared-first a n s s' below rest w small out =
    let v_out : IsOutside (4096 * a) = ground arith in
    let page : same_page w (4096 * a) ≡ (w / 4096 == a) =
      ground (arith, same_page-number w (4096 * a)) in
    rest w small out
    ∙ ap (λ (x : Option ℕ). if in_pages (a + 1) n w then none else x)
        (translate-addr_unmap s (4096 * a) w v_out out
          ∙ ap (λ (c : Bool). if c then none else translate w s) page)
    ∙ cleared_next a n w (translate w s)

-- `virt_mm_addr_range_unmap` of the `n` pages from page `a` on ends, takes just these pages out and
-- leaves every other page as it was, where the range stops below the window on the tables and the
-- other page lies outside of it. The fuel is more than the number of pages.
pub range_unmap-IsCleared :
    (n fuel a : ℕ) (s : Space)
    → n < fuel
    → 4096 * (a + n) ≤ 0xffc0_0000
    → (s' : Space) × (addr_range_unmap fuel (4096 * a) (4096 * (a + n)) s ≡ some s')
      × IsCleared a n s s'
unfolding addr_range_unmap
range_unmap-IsCleared n zero a s enough below = absurd (omega arith)
range_unmap-IsCleared zero (suc fuel) a s enough below =
    let done : ltb (4096 * a) (4096 * (a + 0)) ≡ false = ground arith in
    (s, rw done refl, λ w small out. cleared_none a w (translate w s))
range_unmap-IsCleared (suc n) (suc fuel) a s enough below =
    let more : ltb (4096 * a) (4096 * (a + suc n)) ≡ true = ground arith in
    let step : u32 (4096 * a + 4096) ≡ 4096 * (a + 1) = omega arith in
    let stop : 4096 * (a + suc n) ≡ 4096 * (a + 1 + n) = omega arith in
    let s1 = addr_unmap (4096 * a) s in
    let rest = range_unmap-IsCleared n fuel (a + 1) s1 (omega arith) (omega arith) in
    let run : addr_range_unmap fuel (u32 (4096 * a + 4096)) (4096 * (a + suc n)) s1 ≡ some rest.0 =
      ap (λ (x : ℕ). addr_range_unmap fuel x (4096 * (a + suc n)) s1) step
      ∙ ap (λ (x : ℕ). addr_range_unmap fuel (4096 * (a + 1)) x s1) stop
      ∙ rest.1 in
    (rest.0, rw more run, IsCleared-first a n s rest.0 (omega arith) rest.2)
