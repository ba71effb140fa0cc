-- ===== src/Base/Count.antt =====
-- How many numbers below a bound pass a test.
use Prim.Native.Nat.{ℕ, zero, suc, ◌+◌, ◌≤◌, ◌<◌}
use mathlib.Core.Path.{◌≡◌, refl, ap}
use mathlib.Core.Logic.{◌≢◌, inl, inr}
use mathlib.Core.Bool.{Bool, true, false}
use native.Mathlib.Omega.{arith}
use yuzuos.Base.Tests.{if◌then◌else◌, ◌==◌, ==_iff, Bool-cases}

unfoldable pub count : (ℕ → Bool) → ℕ → ℕ
count p zero = 0
count p (suc n) = (if p n then 1 else 0) + count p n

pub count-le : (p : ℕ → Bool) (n : ℕ) → count p n ≤ n
unfolding count
count-le p zero = omega arith
count-le p (suc n) = ground (arith, count-le p n)

-- Only the numbers below the bound matter.
pub count_ext : (p q : ℕ → Bool) (n : ℕ) → ((b : ℕ) → b < n → p b ≡ q b) → count p n ≡ count q n
unfolding count
count_ext p q zero same = refl
count_ext p q (suc n) same = ground (arith, same n, count_ext p q n (λ b h. same b (omega arith)))

-- Where one more number passes, the count is one more.
pub count_insert :
    (p q : ℕ → Bool) (n b : ℕ)
    → b < n
    → p b ≡ false
    → q b ≡ true
    → ((c : ℕ) → c ≢ b → q c ≡ p c)
    → count q n ≡ count p n + 1
unfolding count
count_insert p q zero b h was is same = absurd (omega arith)
count_insert p q (suc n) b h was is same = elim (Bool-cases (n == b)) [
  | inl top ↦ ground (
    arith,
    count_ext q p n (λ c below. same c (ground arith)),
    ap p ((==_iff n b).0 top),
    ap q ((==_iff n b).0 top),
  )
  | inr other ↦
      ground (arith, same n (ground arith), count_insert p q n b (ground arith) was is same)
]

-- Where some number fails, not all pass.
pub count-lt : (p : ℕ → Bool) (n b : ℕ) → b < n → p b ≡ false → count p n < n
unfolding count
count-lt p zero b h e = absurd (omega arith)
count-lt p (suc n) b h e = elim (Bool-cases (n == b)) [
  | inl top ↦ ground (arith, count-le p n, ap p ((==_iff n b).0 top))
  | inr other ↦ ground (arith, count-lt p n b (ground arith) e)
]
