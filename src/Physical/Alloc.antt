-- ===== src/Physical/Alloc.antt =====
-- What the allocation of one frame does on each of its branches.
use yuzuos.Base.{
  ℕ, ◌+◌, ◌*◌, ◌/◌, ◌^◌, ◌<◌, ◌≤◌, ◌≡◌, ◌≢◌, refl, true, false, ◌||◌, none, some, arith, ◌==◌,
  ==_iff, leb, inl, inr, Option-cases, Bool-cases, ◌∙◌, ap,
}
use yuzuos.Base.Search.{find, find-some, find-eq_none, find-none}
use yuzuos.Base.Count.{count, count-le, count_insert, count-lt}
use yuzuos.Bitmap
use yuzuos.Bitmap.{u32, no_bit}
use yuzuos.Bitmap.Words.{IsWords, test-set, test-unset, set-IsWords, unset-IsWords}
use yuzuos.Bitmap.Scan.{is_free, or_no_bit, get_first-find}
use yuzuos.Physical.{Phys, block_size, take_bit, give_bit, addr_set, block_alloc, block_free}

-- The frames that `bitmap_get_first` looks at: those of the whole words.
abbrev pub searched : Phys → ℕ
searched s = s.max_bits / 32 * 32

-- The counter is the number of set bits, and every number is in range.
pub record IsCounted (s : Phys) : Type 0 where
  pub words : IsWords s.bitmap
  pub small : s.max_bits ≤ 2 ^ 20
  pub counted : s.used ≡ count (Bitmap.test s.bitmap) s.max_bits

module _ (b : ℕ) (s : Phys) (v : IsCounted s) (below : b < s.max_bits) where
  pub take_bit-IsCounted : Bitmap.test s.bitmap b ≡ false → IsCounted (take_bit b s)
  take_bit-IsCounted clear =
      let m = Bitmap.set s.bitmap b in
      let more =
        count_insert (Bitmap.test s.bitmap) (Bitmap.test m) s.max_bits b below clear
          (rw (test-set s.bitmap b b) (ground arith))
          (λ c ne. rw (test-set s.bitmap b c) (ground arith)) in
      record {
        words = set-IsWords s.bitmap b v.words;
        small = v.small;
        counted = omega (
          arith,
          more,
          v.counted,
          v.small,
          count-lt (Bitmap.test s.bitmap) s.max_bits b below clear,
        );
      }

  pub give_bit-IsCounted : Bitmap.test s.bitmap b ≡ true → IsCounted (give_bit b s)
  give_bit-IsCounted set =
      let m = Bitmap.unset s.bitmap b in
      let fewer =
        count_insert (Bitmap.test m) (Bitmap.test s.bitmap) s.max_bits b below
          (rw (test-unset s.bitmap b b v.words) (ground arith)) set
          (λ c ne. rw (test-unset s.bitmap b c v.words) (ground arith)) in
      record {
        words = unset-IsWords s.bitmap b v.words;
        small = v.small;
        counted =
            omega (arith, fewer, v.counted, v.small, count-le (Bitmap.test s.bitmap) s.max_bits);
      }

-- Marking the frame of an address keeps the counter right, on both branches.
pub addr_set-IsCounted :
    (addr : ℕ) (s : Phys)
    → IsCounted s
    → addr / block_size < s.max_bits
    → IsCounted (addr_set addr s)
      × (Bitmap.test (addr_set addr s).bitmap (addr / block_size) ≡ true)
unfolding addr_set
addr_set-IsCounted addr s v below =
    let b = addr / block_size in
    elim (Bool-cases (Bitmap.test s.bitmap b)) [
      | inl set ↦ rw set (v, set)
      | inr clear ↦
          rw clear (take_bit-IsCounted b s v below clear, rw (test-set s.bitmap b b) (ground arith))
    ]

-- The least free frame is the one that is handed out.
block_alloc-find :
    (s : Phys) (b : ℕ)
    → IsCounted s
    → find (is_free s.bitmap) (searched s) 0 ≡ some b
    → b ≢ 0
    → block_alloc s ≡ (take_bit b s, block_size * b)
unfolding block_alloc
block_alloc-find s b v found nonzero =
    let f = find-some (is_free s.bitmap) (searched s) 0 found in
    let bit : Bitmap.get_first s.bitmap s.max_bits ≡ b =
      get_first-find s.bitmap s.max_bits (omega (arith, v.small)) ∙ ap or_no_bit found in
    let room : leb s.max_bits s.used ≡ false =
      ground (arith, count-lt (Bitmap.test s.bitmap) s.max_bits b, v.counted, f.0, f.2) in
    rw (bit, room) (ground (arith, v.small, f.2))

-- The outcome of a successful allocation of frame `b`: it was the least free one, only its bit has
-- changed, the counter still counts, and the result is its address.
pub record Granted (s : Phys) (b : ℕ) (r : Phys × ℕ) : Type 0 where
  pub address : r.1 ≡ block_size * b
  pub nonzero : b ≢ 0
  pub below : b < s.max_bits
  pub was_free : Bitmap.test s.bitmap b ≡ false
  pub least : (c : ℕ) → c < b → Bitmap.test s.bitmap c ≡ true
  pub marked : (c : ℕ) → Bitmap.test r.0.bitmap c ≡ ((c == b) || Bitmap.test s.bitmap c)
  pub used_more : r.0.used ≡ s.used + 1
  pub same_max : r.0.max_bits ≡ s.max_bits
  pub still : IsCounted r.0

block_alloc-Granted_find :
    (s : Phys) (b : ℕ)
    → IsCounted s
    → find (is_free s.bitmap) (searched s) 0 ≡ some b
    → b ≢ 0
    → Granted s b (block_alloc s)
block_alloc-Granted_find s b v found nonzero =
    let f = find-some (is_free s.bitmap) (searched s) 0 found in
    let clear : Bitmap.test s.bitmap b ≡ false = ground (arith, f.0) in
    let below : b < s.max_bits = omega (arith, f.2) in
    rw (block_alloc-find s b v found nonzero) (record {
      address = refl;
      nonzero = nonzero;
      below = below;
      was_free = clear;
      least = λ c h. ground (arith, f.3 c);
      marked = λ c. test-set s.bitmap b c;
      used_more = omega (arith, v.counted, v.small, count-le (Bitmap.test s.bitmap) s.max_bits);
      same_max = refl;
      still = take_bit-IsCounted b s v below clear;
    })

-- With the counter right and frame 0 in use, `phys_mm_block_alloc` succeeds wherever some frame of
-- the whole words is free: it gives the address of the least free frame, marks that frame and no
-- other, and the counter stays right.
pub block_alloc-Granted :
    (s : Phys) (c : ℕ)
    → IsCounted s
    → Bitmap.test s.bitmap 0 ≡ true
    → c < searched s
    → Bitmap.test s.bitmap c ≡ false
    → (b : ℕ) × Granted s b (block_alloc s)
block_alloc-Granted s c v reserved below clear =
    elim (Option-cases (find (is_free s.bitmap) (searched s) 0)) [
      | inl nothing ↦
          let full =
            find-eq_none (is_free s.bitmap) (searched s) 0 nothing c (omega arith) (omega arith) in
          absurd (ground arith)
      | inr (b, found) ↦
          let f = find-some (is_free s.bitmap) (searched s) 0 found in
          (
            b,
            block_alloc-Granted_find s b v found
                (λ zero_bit. absurd (ground (arith, f.0, ap (Bitmap.test s.bitmap) zero_bit))),
          )
    ]

-- A frame's address leads back to its bit.
block_free-give_bit :
    (t : Phys) (addr b : ℕ) → addr ≡ block_size * b → b ≢ 0 → block_free addr t ≡ give_bit b t
unfolding block_free
block_free-give_bit t addr b e nonzero =
    let place : addr / block_size ≡ b = omega arith in
    let live : (addr == 0) ≡ false = ground arith in rw (live, place)

-- `phys_mm_block_free` of the address that a successful allocation gave restores every bit and the
-- counter.
pub block_free-block_alloc :
    (s : Phys) (b : ℕ)
    → IsCounted s
    → Granted s b (block_alloc s)
    → let t = block_free (block_alloc s).1 (block_alloc s).0 in
      ((c : ℕ) → Bitmap.test t.bitmap c ≡ Bitmap.test s.bitmap c) × (t.used ≡ s.used) × IsCounted t
block_free-block_alloc s b v g =
    let t = (block_alloc s).0 in
    rw (block_free-give_bit t (block_alloc s).1 b g.address g.nonzero) (
      (λ c.
          rw (test-unset t.bitmap b c g.still.words, g.marked c)
            (ground (arith, g.was_free, ==_iff c b))),
      omega (arith, g.used_more, v.counted, v.small, count-le (Bitmap.test s.bitmap) s.max_bits),
      give_bit-IsCounted b t g.still (omega (arith, g.below, g.same_max))
          (rw (g.marked b) (ground arith)),
    )

-- Where no frame of the whole words is free although the counter leaves room, the search gives -1,
-- which the test `bit <= 0` of an unsigned number lets through: the result is not NULL but the
-- address of a frame that does not exist.
pub block_alloc_exhausted :
    (s : Phys)
    → s.max_bits < 2 ^ 32
    → s.used < s.max_bits
    → ((c : ℕ) → c < searched s → Bitmap.test s.bitmap c ≡ true)
    → block_alloc s ≡ (take_bit no_bit s, 0xffff_f000)
unfolding block_alloc
block_alloc_exhausted s small room full =
    let none_free : find (is_free s.bitmap) (searched s) 0 ≡ none =
      find-none (is_free s.bitmap) (searched s) 0 (λ c lo hi. ground (arith, full c)) in
    let bit : Bitmap.get_first s.bitmap s.max_bits ≡ no_bit =
      get_first-find s.bitmap s.max_bits small ∙ ap or_no_bit none_free in
    let open_room : leb s.max_bits s.used ≡ false = ground arith in rw (bit, open_room) refl
