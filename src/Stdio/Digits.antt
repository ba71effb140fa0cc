-- ===== src/Stdio/Digits.antt =====
-- The digits that `vsnprintf_number` prints, read back.
use yuzuos.Base.{
  ℕ, zero, suc, ◌+◌, ◌-◌, ◌*◌, ◌/◌, ◌%◌, ◌^◌, ◌≤◌, ◌<◌, ◌≡◌, refl, ◌∙◌, ap, arith, Bool, true,
  false, List, [], ◌∷◌, ◌++◌, length, ltb, ◌==◌, if◌then◌else◌, Bool-cases, inl, inr,
}
use yuzuos.Base.Int.{ℤ, pos_part}
use yuzuos.Stdio.{Flags, digit, digit_loop, tmp_of}
use yuzuos.Stdio.Emit.{replicate, reverse_onto}
use yuzuos.Stdio.Text.{magnitude, digits_text}
use native.Mathlib.Nat.{div-add-mod', mod-lt, pow-suc, mul-le-mul_left}

-- What a digit counts for, a letter of either case from ten on.
abbrev digit_value : ℕ → ℕ
digit_value c = if ltb c b'A' then c - b'0' else if ltb c b'a' then c - b'A' + 10 else c - b'a' + 10

-- A text of digits read from the left.
abbrev pub value : (base a : ℕ) → List ℕ → ℕ
value base a [] = a
value base a (c ∷ cs) = value base (a * base + digit_value c) cs

-- And one whose lowest digit comes first.
abbrev value_up : (base a : ℕ) → List ℕ → ℕ
value_up base a [] = a
value_up base a (c ∷ cs) = value_up base a cs * base + digit_value c

digit_value-digit : (large : Bool) (d : ℕ) → d < 36 → digit_value (digit large d) ≡ d
digit_value-digit true d small = ground arith
digit_value-digit false d small = ground arith

value-reverse_onto :
    (base a : ℕ) (xs ys : List ℕ)
    → value base a (reverse_onto xs ys) ≡ value base (value_up base a xs) ys
value-reverse_onto base a [] ys = refl
value-reverse_onto base a (x ∷ xs) ys = value-reverse_onto base a xs (x ∷ ys)

value-zeros : (base n : ℕ) (cs : List ℕ) → value base 0 (replicate n b'0' ++ cs) ≡ value base 0 cs
value-zeros base zero cs = refl
value-zeros base (suc n) cs =
    let none_yet : 0 * base + 0 ≡ 0 = omega arith in
    ap (λ (a : ℕ). value base a (replicate n b'0' ++ cs)) none_yet ∙ value-zeros base n cs

quotient_lt : (r base n : ℕ) → n < 2 ^ suc r → 2 ≤ base → n / base < 2 ^ r
quotient_lt r base n small low =
    let whole = div-add-mod' n base in
    let twice = mul-le-mul_left (n / base) low in omega (arith, whole, twice, pow-suc 2 r)

value_up-digit_loop :
    (r : ℕ) (large : Bool) (base n : ℕ)
    → n < 2 ^ r
    → 2 ≤ base
    → base ≤ 36
    → value_up base 0 (digit_loop r large base n) ≡ n
unfolding digit_loop
value_up-digit_loop zero large base n small low high = omega arith
value_up-digit_loop (suc r) large base n small low high = elim (Bool-cases (n == 0)) [
  | inl nothing ↦ rw nothing (ground arith)
  | inr more ↦
      let rest =
        value_up-digit_loop r large base (n / base) (quotient_lt r base n small low) low high in
      let below = mod-lt n {m = base} (omega arith) in
      let last = digit_value-digit large (n % base) (omega arith) in
      rw (more, rest, last) (div-add-mod' n base)
]

length-digit_loop : (r : ℕ) (large : Bool) (base n : ℕ) → length (digit_loop r large base n) ≤ r
unfolding digit_loop
length-digit_loop zero large base n = omega arith
length-digit_loop (suc r) large base n = elim (Bool-cases (n == 0)) [
  | inl nothing ↦ rw nothing (omega arith)
  | inr more ↦ let rest = length-digit_loop r large base (n / base) in rw more (omega (arith, rest))
]

-- `tmp` has room for 66 characters.
pub length-tmp_of : (large : Bool) (base n : ℕ) → length (tmp_of large base n) ≤ 64
length-tmp_of large base n = elim (Bool-cases (n == 0)) [
  | inl nothing ↦ rw nothing (omega arith)
  | inr more ↦ rw more (length-digit_loop 64 large base n)
]

value_up-tmp_of :
    (large : Bool) (base n : ℕ)
    → n < 2 ^ 64
    → 2 ≤ base
    → base ≤ 36
    → value_up base 0 (tmp_of large base n) ≡ n
value_up-tmp_of large base n small low high = elim (Bool-cases (n == 0)) [
  | inl nothing ↦ rw nothing (ground arith)
  | inr more ↦ rw more (value_up-digit_loop 64 large base n small low high)
]

magnitude_lt : (f : Flags) (num : ℕ) → num < 2 ^ 64 → magnitude f num < 2 ^ 64
magnitude_lt f num small = ground arith

-- In every base from 2 to 36 the digits that `vsnprintf_number` prints of a 64-bit number, read
-- back in that base, are the number without its sign, and `tmp` holds at most 64 of them.
pub digits_text-magnitude :
    (f : Flags) (num base : ℕ) (precision : ℤ)
    → num < 2 ^ 64
    → 2 ≤ base
    → base ≤ 36
    → (value base 0 (digits_text f num base precision) ≡ magnitude f num)
      × (length (tmp_of f.large base (magnitude f num)) ≤ 64)
digits_text-magnitude f num base precision small low high =
    let tmp = tmp_of f.large base (magnitude f num) in
    (
      value-zeros base (pos_part precision - length tmp) (reverse_onto tmp [])
          ∙ value-reverse_onto base 0 tmp []
          ∙ value_up-tmp_of f.large base (magnitude f num) (magnitude_lt f num small) low high,
      length-tmp_of f.large base (magnitude f num),
    )
