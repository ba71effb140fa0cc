-- ===== src/Base/Bits.antt =====
-- Bits of a number, and what `|`, `&` and `~` do to each of them, at every width.
use Prim.Native.Nat.{ℕ, zero, suc, ◌+◌, ◌-◌, ◌*◌, ◌/◌, ◌%◌, ◌^◌, ◌≤◌, ◌<◌, min, max}
use Prim.Native.Nat.{bit_and, bit_or, digits, bit_and-bitwise, bit_or-bitwise}
use mathlib.Core.Path.{◌≡◌, refl, ap}
use native.Mathlib.Nat.{pow-suc, one-le-pow}
use native.Mathlib.Omega.{arith}
use yuzuos.Base.Tests.{◌==◌, if◌then◌else◌}

-- `&` and `|` are digit recursions on their first argument, with a count that only has to be large
-- enough. Both obey one law for the lowest digit.
module _ (base : ℕ → ℕ) (op : ℕ → ℕ → ℕ) where
  digits_at_zero : (k l b : ℕ) → digits base op k 0 b ≡ digits base op l 0 b
  digits_at_zero zero zero b = refl
  digits_at_zero zero (suc l) b = refl
  digits_at_zero (suc k) zero b = refl
  digits_at_zero (suc k) (suc l) b = refl

  same_digits : (k l a b : ℕ) → a ≤ k → a ≤ l → digits base op k a b ≡ digits base op l a b
  same_digits k l zero b _ _ = digits_at_zero k l b
  same_digits zero l (suc a) b small _ = absurd (omega arith)
  same_digits (suc k) zero (suc a) b _ small = absurd (omega arith)
  same_digits (suc k) (suc l) (suc a) b enough enough' =
      let upper = same_digits k l (suc a / 2) (b / 2) (omega arith) (omega arith) in
      omega (arith, upper)

  lowest_digit :
      ((b : ℕ) → base b ≡ base (b / 2) * 2 + op 0 (b % 2))
      → (a b : ℕ)
      → digits base op a a b ≡ digits base op (a / 2) (a / 2) (b / 2) * 2 + op (a % 2) (b % 2)
  lowest_digit at_base zero b = at_base b
  lowest_digit at_base (suc a) b =
      let upper = same_digits a (suc a / 2) (suc a / 2) (b / 2) (omega arith) (omega arith) in
      omega (arith, upper)

pub bit_and_step : (a b : ℕ) → bit_and a b ≡ bit_and (a / 2) (b / 2) * 2 + min (a % 2) (b % 2)
bit_and_step a b =
    let law = lowest_digit (λ b. 0) min (λ c. omega arith) a b in
    omega (arith, law, bit_and-bitwise a b, bit_and-bitwise (a / 2) (b / 2))

pub bit_or_step : (a b : ℕ) → bit_or a b ≡ bit_or (a / 2) (b / 2) * 2 + max (a % 2) (b % 2)
bit_or_step a b =
    let law = lowest_digit (λ b. b) max (λ c. omega arith) a b in
    omega (arith, law, bit_or-bitwise a b, bit_or-bitwise (a / 2) (b / 2))

-- A bound on `w & v`, and its value at 0, by the number of digits.
and_within : (digits_left a b : ℕ) → a ≤ digits_left → bit_and a b ≤ a
and_within left zero b small = omega (arith, bit_and-bitwise 0 b)
and_within zero (suc a) b small = absurd (omega arith)
and_within (suc left) (suc a) b small =
    let upper = and_within left (suc a / 2) (b / 2) (omega arith) in
    omega (arith, upper, bit_and_step (suc a) b)

pub bit_and-le : (a b : ℕ) → bit_and a b ≤ a
bit_and-le a b = and_within a a b (omega arith)

and_nothing : (digits_left a : ℕ) → a ≤ digits_left → bit_and a 0 ≡ 0
and_nothing left zero small = refl
and_nothing zero (suc a) small = absurd (omega arith)
and_nothing (suc left) (suc a) small =
    let upper = and_nothing left (suc a / 2) (omega arith) in
    omega (arith, upper, bit_and_step (suc a) 0)

pub bit_and-zero : (a : ℕ) → bit_and a 0 ≡ 0
bit_and-zero a = and_nothing a a (omega arith)

zero-bit_or : (b : ℕ) → bit_or 0 b ≡ b
zero-bit_or b = bit_or-bitwise 0 b

-- Bit `k` of `w`, counted from the lowest.
pub bit : ℕ → ℕ → ℕ
bit w zero = w % 2
bit w (suc k) = bit (w / 2) k

pub bit-lowest : (w : ℕ) → bit w 0 ≡ w % 2
unfolding bit
bit-lowest w = refl

pub bit_le_one : (w k : ℕ) → bit w k ≤ 1
unfolding bit
bit_le_one w zero = omega arith
bit_le_one w (suc k) = bit_le_one (w / 2) k

pub bit-zero : (k : ℕ) → bit 0 k ≡ 0
unfolding bit
bit-zero zero = refl
bit-zero (suc k) = bit-zero k

pub bit-bit_or : (a b k : ℕ) → bit (bit_or a b) k ≡ max (bit a k) (bit b k)
unfolding bit
bit-bit_or a b zero = omega (arith, bit_or_step a b)
bit-bit_or a b (suc k) =
    let half : bit_or a b / 2 ≡ bit_or (a / 2) (b / 2) = omega (arith, bit_or_step a b) in
    rw half (bit-bit_or (a / 2) (b / 2) k)

pub bit-bit_and : (a b k : ℕ) → bit (bit_and a b) k ≡ min (bit a k) (bit b k)
unfolding bit
bit-bit_and a b zero = omega (arith, bit_and_step a b)
bit-bit_and a b (suc k) =
    let half : bit_and a b / 2 ≡ bit_and (a / 2) (b / 2) = omega (arith, bit_and_step a b) in
    rw half (bit-bit_and (a / 2) (b / 2) k)

-- `1 << k` has bit `k` and no other.
pub bit-pow : (k j : ℕ) → bit (2 ^ k) j ≡ (if j == k then 1 else 0)
unfolding bit
bit-pow zero zero = refl
bit-pow zero (suc j) = ground (arith, bit-zero j)
bit-pow (suc k) zero = ground (arith, pow-suc 2 k)
bit-pow (suc k) (suc j) =
    let half : 2 ^ suc k / 2 ≡ 2 ^ k = omega (arith, pow-suc 2 k) in
    rw half (ground (arith, bit-pow k j))

-- The complement within `n` bits turns each of them round.
pub bit-complement : (n x k : ℕ) → x < 2 ^ n → k < n → bit (2 ^ n - 1 - x) k ≡ 1 - bit x k
unfolding bit
bit-complement zero x k fits below = absurd (omega arith)
bit-complement (suc n) x zero fits below = omega (arith, pow-suc 2 n)
bit-complement (suc n) x (suc k) fits below =
    let half : (2 ^ suc n - 1 - x) / 2 ≡ 2 ^ n - 1 - x / 2 = omega (arith, pow-suc 2 n) in
    rw half (bit-complement n (x / 2) k (omega (arith, pow-suc 2 n)) (omega arith))

-- `w & (1 << k)` keeps bit `k` in its place.
pub bit_and-pow : (w k : ℕ) → bit_and w (2 ^ k) ≡ bit w k * 2 ^ k
unfolding bit
bit_and-pow w zero = omega (arith, bit_and_step w 1, bit_and-zero (w / 2))
bit_and-pow w (suc k) =
    let half : 2 ^ suc k / 2 ≡ 2 ^ k = omega (arith, pow-suc 2 k) in
    omega (
      arith,
      bit_and_step w (2 ^ suc k),
      ap (bit_and (w / 2)) half,
      bit_and-pow (w / 2) k,
      pow-suc 2 k,
      ap (λ (t : ℕ). bit (w / 2) k * t) (pow-suc 2 k),
    )

pub bit_or-lt : (n a b : ℕ) → a < 2 ^ n → b < 2 ^ n → bit_or a b < 2 ^ n
bit_or-lt zero zero b p q = omega (arith, zero-bit_or b)
bit_or-lt zero (suc a) b p q = absurd (omega arith)
bit_or-lt (suc n) a b p q = omega (
  arith,
  bit_or_step a b,
  pow-suc 2 n,
  bit_or-lt n (a / 2) (b / 2) (omega (arith, pow-suc 2 n)) (omega (arith, pow-suc 2 n)),
)

pub pow-lt-pow : (k n : ℕ) → k < n → 2 ^ k < 2 ^ n
pow-lt-pow k zero h = absurd (omega arith)
pow-lt-pow zero (suc n) h = omega (arith, pow-suc 2 n, one-le-pow n 2)
pow-lt-pow (suc k) (suc n) h = omega (arith, pow-suc 2 n, pow-suc 2 k, pow-lt-pow k n (omega arith))

-- The bits below a shift are clear.
pub bit_mul_pow : (c w k : ℕ) → k < c → bit (w * 2 ^ c) k ≡ 0
unfolding bit
bit_mul_pow zero w k h = absurd (omega arith)
bit_mul_pow (suc c) w zero h = omega (arith, ap (λ (t : ℕ). w * t) (pow-suc 2 c))
bit_mul_pow (suc c) w (suc k) h =
    let half : w * 2 ^ suc c / 2 ≡ w * 2 ^ c = omega (arith, ap (λ (t : ℕ). w * t) (pow-suc 2 c)) in
    rw half (bit_mul_pow c w k (omega arith))

pub div_mul_le : (w d : ℕ) → w / d * d ≤ w
div_mul_le w d = grind arith
