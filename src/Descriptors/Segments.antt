-- ===== src/Descriptors/Segments.antt =====
-- kernel/arch/x86/boot/gdt.c: what the processor reads in an entry of the table of segments.
use yuzuos.Base.{
  ℕ, ◌+◌, ◌*◌, ◌/◌, ◌%◌, ◌^◌, ◌<◌, ◌≡◌, refl, arith, true, ◌==◌, bit_or, ==_iff, if◌then◌else◌,
}
use yuzuos.Base.Range.{all_below, all_below-true}
use yuzuos.Descriptors.{GdtEntry, gdt_entry_add}

-- The base, the limit and the flags behind the limit, as the processor puts them together.
abbrev pub base_of : GdtEntry → ℕ
base_of e = e.base_low + 2 ^ 16 * e.base_middle + 2 ^ 24 * e.base_high

abbrev pub limit_of : GdtEntry → ℕ
limit_of e = e.limit_low + 2 ^ 16 * (e.granularity % 2 ^ 4)

abbrev pub flags_of : GdtEntry → ℕ
flags_of e = e.granularity / 2 ^ 4

nibbles : all_below 16 (λ a. all_below 16 (λ b. bit_or a (b * 2 ^ 4) == a + b * 2 ^ 4)) ≡ true
unfolding all_below
nibbles = refl

join_nibbles : (a b : ℕ) → a < 16 → b < 16 → bit_or a (b * 2 ^ 4) ≡ a + b * 2 ^ 4
join_nibbles a b small small' = (==_iff (bit_or a (b * 2 ^ 4)) (a + b * 2 ^ 4)).0 (
    all_below-true 16 (λ y. bit_or a (y * 2 ^ 4) == a + y * 2 ^ 4) b
      (all_below-true 16 (λ x. all_below 16 (λ y. bit_or x (y * 2 ^ 4) == x + y * 2 ^ 4)) a nibbles
        small)
      small')

-- The entry that `gdt_entry_add` writes gives back the base, the low twenty bits of the limit, the
-- access byte and the upper half of the granularity, and the other entries stay as they were.
pub gdt_entry_add_lem :
    (index base limit access granularity i : ℕ) (gdt : ℕ → GdtEntry)
    → base < 2 ^ 32
    → granularity < 2 ^ 8
    → (let t = gdt_entry_add index base limit access granularity gdt in
        (base_of (t index) ≡ base)
        × (limit_of (t index) ≡ limit % 2 ^ 20)
        × (flags_of (t index) ≡ granularity / 2 ^ 4)
        × ((t index).access ≡ access)
        × (t i ≡ (if i == index then t index else gdt i)))
unfolding gdt_entry_add
gdt_entry_add_lem index base limit access granularity i gdt small byte =
    let same : (index == index) ≡ true = ground arith in
    let joined =
      join_nibbles (limit / 2 ^ 16 % 2 ^ 4) (granularity / 2 ^ 4) (omega arith) (omega arith) in
    rw (same, joined) (omega arith, omega arith, omega arith, refl, ground arith)
