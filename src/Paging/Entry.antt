-- ===== src/Paging/Entry.antt =====
-- The bits of a page table entry: a frame's address above its flags.
use yuzuos.Base.{
  ℕ, zero, suc, ◌+◌, ◌-◌, ◌*◌, ◌/◌, ◌%◌, ◌^◌, ◌<◌, ◌≡◌, ap, arith, bit_and, bit_or, bit_and_step,
  bit_or_step, max, min, bit, bit-bit_or, bit-bit_and, ◌∙◌, true, not, ◌==◌, bit_le_one, bit-lowest,
  bit-pow,
}
use Prim.Native.Nat.{bit_and-bitwise, bit_or-bitwise}
use native.Mathlib.Nat.{pow-suc, one-le-pow}
use yuzuos.Paging.{frame_set, flag_set, is_enabled}
use yuzuos.Bitmap.Words.{masked}

-- `&` with a word that has its lowest `c` bits set keeps a number of `c` bits.
bit_and-low : (c x k : ℕ) → x < 2 ^ c → bit_and x (2 ^ c - 1 + k * 2 ^ c) ≡ x
bit_and-low zero zero k small = bit_and-bitwise 0 (2 ^ 0 - 1 + k * 2 ^ 0)
bit_and-low zero (suc x) k small = absurd (omega arith)
bit_and-low (suc c) x k small =
    let mask = 2 ^ suc c - 1 + k * 2 ^ suc c in
    let twice = ap (λ (t : ℕ). k * t) (pow-suc 2 c) in
    let half : mask / 2 ≡ 2 ^ c - 1 + k * 2 ^ c =
      omega (arith, pow-suc 2 c, twice, one-le-pow c 2) in
    let upper : bit_and (x / 2) (mask / 2) ≡ x / 2 =
      rw half (bit_and-low c (x / 2) k (omega (arith, pow-suc 2 c))) in
    let odd : mask % 2 ≡ 1 = omega (arith, pow-suc 2 c, twice, one-le-pow c 2) in
    omega (arith, bit_and_step x mask, upper, odd)

-- `|` with a multiple of `2 ^ c` is a sum for a number of `c` bits.
bit_or-add : (c x q : ℕ) → x < 2 ^ c → bit_or x (q * 2 ^ c) ≡ x + q * 2 ^ c
bit_or-add zero zero q small = omega (arith, bit_or-bitwise 0 (q * 2 ^ 0))
bit_or-add zero (suc x) q small = absurd (omega arith)
bit_or-add (suc c) x q small =
    let twice = ap (λ (t : ℕ). q * t) (pow-suc 2 c) in
    let half : q * 2 ^ suc c / 2 ≡ q * 2 ^ c = omega (arith, twice) in
    let upper : bit_or (x / 2) (q * 2 ^ suc c / 2) ≡ x / 2 + q * 2 ^ c =
      rw half (bit_or-add c (x / 2) q (omega (arith, pow-suc 2 c))) in
    omega (arith, bit_or_step x (q * 2 ^ suc c), upper, twice)

-- A frame's address and flags put into an empty entry.
pub frame_set-flag_set :
    (q flags : ℕ) → flags < 4096 → frame_set (flag_set 0 flags) (q * 4096) ≡ flags + q * 4096
unfolding frame_set flag_set
frame_set-flag_set q flags small =
    rw (bit_or-bitwise 0 flags, bit_and-low 12 flags 524288 small) (bit_or-add 12 flags q small)

-- What stands in bit `k` of an entry that is written over.
pub bit-frame_set :
    (entry flags addr k : ℕ)
    → bit (frame_set (flag_set entry flags) addr) k
      ≡ max (min (max (bit entry k) (bit flags k)) (bit 0x8000_0fff k)) (bit addr k)
unfolding frame_set flag_set
bit-frame_set entry flags addr k =
    let kept = bit_and (bit_or entry flags) 0x8000_0fff in
    bit-bit_or kept addr k
    ∙ rw (bit-bit_and (bit_or entry flags) 0x8000_0fff k, bit-bit_or entry flags k)

low_bit_kept : bit 0x8000_0fff 0 ≡ 1
low_bit_kept = bit-lowest 0x8000_0fff

-- An entry is in use where its lowest bit is set.
pub is_enabled-bit : (entry : ℕ) → is_enabled entry ≡ not (bit entry 0 == 0)
is_enabled-bit entry = rw (masked entry 0)

pub is_enabled-frame_set :
    (entry flags addr : ℕ)
    → bit flags 0 ≡ 1
    → is_enabled (frame_set (flag_set entry flags) addr) ≡ true
is_enabled-frame_set entry flags addr odd =
    rw (is_enabled-bit (frame_set (flag_set entry flags) addr)) (
      ground (
        arith,
        bit-frame_set entry flags addr 0,
        bit_le_one entry 0,
        bit_le_one addr 0,
        odd,
        low_bit_kept,
      ))

top_bit_kept : bit 0x8000_0fff 31 ≡ 1
top_bit_kept = omega (arith, bit-bit_or (2 ^ 31) 4095 31, bit-pow 31 31, bit_le_one 4095 31)

-- The highest bit of the old entry stays, since PAGE_FRAME leaves it out.
pub top_bit-frame_set :
    (entry flags addr : ℕ)
    → bit (frame_set (flag_set entry flags) addr) 31
      ≡ max (bit entry 31) (max (bit flags 31) (bit addr 31))
top_bit-frame_set entry flags addr = omega (
  arith,
  bit-frame_set entry flags addr 31,
  top_bit_kept,
  bit_le_one entry 31,
  bit_le_one flags 31,
)
