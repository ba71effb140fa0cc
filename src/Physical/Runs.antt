-- ===== src/Physical/Runs.antt =====
-- The loops over a run of frames: which bits they change, and what they do to the counter.
use yuzuos.Base.{
  ℕ, zero, suc, ◌+◌, ◌-◌, ◌*◌, ◌^◌, ◌<◌, ◌≤◌, ◌≡◌, ◌≢◌, refl, Bool, true, false, not, ◌&&◌, ◌||◌,
  some, arith, ap, ◌∙◌, leb, ltb,
}
use yuzuos.Base.Search.{find}
use yuzuos.Bitmap
use yuzuos.Bitmap.{Words, u32}
use yuzuos.Bitmap.Words.{IsWords, test-set, test-unset, set-IsWords, unset-IsWords}
use yuzuos.Bitmap.Scan.{or_no_bit}
use yuzuos.Bitmap.Window.{has_room, get_n_first-find}
use yuzuos.Bitmap.Hole.{get_n_first_hole}
use yuzuos.Physical.{Phys, block_size, take_bit, give_bit, take_run, give_run, block_n_alloc}
use yuzuos.Physical.Alloc.{IsCounted, searched, take_bit-IsCounted}

-- `c` is one of the `n` bits from `lo` on.
abbrev pub in_run : (lo n c : ℕ) → Bool
in_run lo n c = leb lo c && ltb c (lo + n)

pub test-take_run :
    (left i base : ℕ) (s : Phys) (c : ℕ)
    → base + i + left ≤ 2 ^ 32
    → Bitmap.test (take_run left i base s).bitmap c
      ≡ (in_run (base + i) left c || Bitmap.test s.bitmap c)
unfolding take_run
test-take_run zero i base s c fits = ground arith
test-take_run (suc left) i base s c fits =
    let here : u32 (base + i) ≡ base + i = omega arith in
    test-take_run left (i + 1) base (take_bit (u32 (base + i)) s) c (omega arith)
    ∙ rw (here, test-set s.bitmap (base + i) c) (ground arith)

pub used-take_run :
    (left i base : ℕ) (s : Phys)
    → s.used + left < 2 ^ 32
    → ((take_run left i base s).used ≡ s.used + left)
      × ((take_run left i base s).max_bits ≡ s.max_bits)
unfolding take_run
used-take_run zero i base s fits = omega arith
used-take_run (suc left) i base s fits =
    omega (arith, used-take_run left (i + 1) base (take_bit (u32 (base + i)) s) (omega arith))

pub take_run-IsWords :
    (left i base : ℕ) (s : Phys) → IsWords s.bitmap → IsWords (take_run left i base s).bitmap
unfolding take_run
take_run-IsWords zero i base s w = w
take_run-IsWords (suc left) i base s w =
    take_run-IsWords left (i + 1) base (take_bit (u32 (base + i)) s)
      (set-IsWords s.bitmap (u32 (base + i)) w)

pub test-give_run :
    (left i base : ℕ) (s : Phys) (c : ℕ)
    → IsWords s.bitmap
    → base + i + left ≤ 2 ^ 32
    → IsWords (give_run left i base s).bitmap
      × (Bitmap.test (give_run left i base s).bitmap c
          ≡ (not (in_run (base + i) left c) && Bitmap.test s.bitmap c))
unfolding give_run
test-give_run zero i base s c w fits = (w, ground arith)
test-give_run (suc left) i base s c w fits =
    let here : u32 (base + i) ≡ base + i = omega arith in
    let rest =
      test-give_run left (i + 1) base (give_bit (u32 (base + i)) s) c
        (unset-IsWords s.bitmap (u32 (base + i)) w) (omega arith) in
    (rest.0, rest.1 ∙ rw (here, test-unset s.bitmap (base + i) c w) (ground arith))

-- Taking frames that are free keeps the counter right.
take_run-IsCounted :
    (left i base : ℕ) (s : Phys)
    → IsCounted s
    → base + i + left ≤ s.max_bits
    → ((c : ℕ) → base + i ≤ c → c < base + i + left → Bitmap.test s.bitmap c ≡ false)
    → IsCounted (take_run left i base s)
unfolding take_run
take_run-IsCounted zero i base s v fits clear = v
take_run-IsCounted (suc left) i base s v fits clear =
    let here : u32 (base + i) ≡ base + i = omega (arith, v.small) in
    rw here (
      take_run-IsCounted left (i + 1) base (take_bit (base + i) s)
        (take_bit-IsCounted (base + i) s v (omega arith)
          (clear (base + i) (omega arith) (omega arith)))
        (omega arith) (λ c lo hi. rw (test-set s.bitmap (base + i) c) (ground (arith, clear c))))

-- A run is taken at the start that the search gives.
block_n_alloc-run :
    (len b : ℕ) (s : Phys)
    → s.max_bits ≤ 2 ^ 20
    → s.used + len ≤ s.max_bits
    → Bitmap.get_n_first s.bitmap s.max_bits len ≡ b
    → b ≢ 0
    → b < s.max_bits
    → block_n_alloc len s ≡ (take_run len 0 b s, block_size * b)
unfolding block_n_alloc
block_n_alloc-run len b s small room bit nonzero below =
    let enough : ltb (u32 (s.max_bits + 2 ^ 32 - s.used)) len ≡ false = ground arith in
    rw (bit, enough) (ground arith)

-- Where the run that the search settles on is free as a whole, allocation marks its bits and no
-- other, adds their number to the counter, which stays right, and gives the address of the first.
pub block_n_alloc_lem :
    (len b : ℕ) (s : Phys)
    → IsCounted s
    → 2 ≤ len
    → s.used + len ≤ s.max_bits
    → find (has_room s.bitmap len) (searched s) 0 ≡ some b
    → b ≢ 0
    → b + len ≤ s.max_bits
    → ((c : ℕ) → b ≤ c → c < b + len → Bitmap.test s.bitmap c ≡ false)
    → let r = block_n_alloc len s in
      (r.1 ≡ block_size * b)
      × IsCounted r.0
      × (r.0.used ≡ s.used + len)
      × ((c : ℕ) → Bitmap.test r.0.bitmap c ≡ (in_run b len c || Bitmap.test s.bitmap c))
block_n_alloc_lem len b s v two room found nonzero fits clear =
    let bit : Bitmap.get_n_first s.bitmap s.max_bits len ≡ b =
      get_n_first-find s.bitmap s.max_bits len two (omega (arith, v.small)) (omega (arith, v.small))
      ∙ ap or_no_bit found in
    rw (block_n_alloc-run len b s v.small room bit nonzero (omega arith)) (
      refl,
      take_run-IsCounted len 0 b s v (omega arith) (λ c lo hi. clear c (omega arith) (omega arith)),
      (used-take_run len 0 b s (omega (arith, v.small))).0,
      λ c.
          test-take_run len 0 b s c (omega (arith, v.small))
          ∙ ap (λ (lo : ℕ). in_run lo len c || Bitmap.test s.bitmap c) (omega arith),
    )

-- The search lets one set bit inside a run pass, so the allocation hands out a run that holds frame
-- `start + k`, which is in use.
pub block_n_alloc_hole :
    (len start k : ℕ) (s : Phys)
    → s.max_bits ≤ 2 ^ 20
    → 2 ≤ len
    → s.used + len ≤ s.max_bits
    → 0 < start
    → start + len < searched s
    → ((b : ℕ) → b < start → Bitmap.test s.bitmap b ≡ true)
    → 0 < k
    → k < len
    → ((j : ℕ) → j < len + 1 → j ≢ k → Bitmap.test s.bitmap (start + j) ≡ false)
    → block_n_alloc len s ≡ (take_run len 0 start s, block_size * start)
block_n_alloc_hole len start k s small two room pos inside before kpos klt clear =
    block_n_alloc-run len start s small room
      (get_n_first_hole s.bitmap s.max_bits len start k two (omega arith) inside before kpos klt
        clear)
      (omega arith) (omega arith)
