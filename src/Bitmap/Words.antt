-- ===== src/Bitmap/Words.antt =====
-- What `bitmap_set` and `bitmap_unset` do to every bit that `bitmap_test` reads.
use yuzuos.Base.{
  ℕ, ◌/◌, ◌%◌, ◌^◌, ◌<◌, ◌≡◌, not, ◌&&◌, ◌||◌, arith, bit_and, ◌==◌, bit, bit_and-pow, bit_le_one,
  bit-bit_or, bit-bit_and, bit-pow, bit-complement, bit_or-lt, bit_and-le, pow-lt-pow,
}
use native.Mathlib.Nat.{one-le-pow}
use yuzuos.Bitmap.{Words, set, unset, test, complement}

-- The words are 32 bits wide.
abbrev pub IsWords : Words → Type 0
IsWords m = (i : ℕ) → m i < 2 ^ 32

-- `w & (1 << k)` is zero exactly where bit `k` is.
pub masked : (w k : ℕ) → (bit_and w (2 ^ k) == 0) ≡ (bit w k == 0)
masked w k = grind (arith, bit_and-pow w k, bit_le_one w k, one-le-pow k 2)

pub pow-lt : (k : ℕ) → k < 32 → 2 ^ k < 2 ^ 32
pow-lt k h = pow-lt-pow k 32 h

pub test-bit : (m : Words) (b : ℕ) → test m b ≡ not (bit (m (b / 32)) (b % 32) == 0)
unfolding test
test-bit m b = rw (masked (m (b / 32)) (b % 32))

-- Setting a bit sets that bit and leaves every other one as it was.
pub test-set : (m : Words) (b c : ℕ) → test (set m b) c ≡ ((c == b) || test m c)
unfolding set
test-set m b c =
    rw (test-bit (set m b) c, test-bit m c)
      (ground (
        arith,
        bit-bit_or (m (b / 32)) (2 ^ (b % 32)) (c % 32),
        bit-pow (b % 32) (c % 32),
        bit_le_one (m (b / 32)) (c % 32),
      ))

-- Clearing a bit clears that bit and leaves every other one as it was.
pub test-unset : (m : Words) (b c : ℕ) → IsWords m → test (unset m b) c ≡ (not (c == b) && test m c)
unfolding unset
test-unset m b c w =
    rw (test-bit (unset m b) c, test-bit m c)
      (ground (
        arith,
        bit-bit_and (m (b / 32)) (complement (2 ^ (b % 32))) (c % 32),
        bit-complement 32 (2 ^ (b % 32)) (c % 32) (pow-lt (b % 32) (omega arith)) (omega arith),
        bit-pow (b % 32) (c % 32),
        bit_le_one (m (b / 32)) (c % 32),
      ))

pub set-IsWords : (m : Words) (b : ℕ) → IsWords m → IsWords (set m b)
unfolding set
set-IsWords m b w i = ground (
  arith,
  w i,
  bit_or-lt 32 (m (b / 32)) (2 ^ (b % 32)) (w (b / 32)) (pow-lt (b % 32) (omega arith)),
)

pub unset-IsWords : (m : Words) (b : ℕ) → IsWords m → IsWords (unset m b)
unfolding unset
unset-IsWords m b w i =
    ground (arith, w i, w (b / 32), bit_and-le (m (b / 32)) (complement (2 ^ (b % 32))))
