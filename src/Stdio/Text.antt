-- ===== src/Stdio/Text.antt =====
-- The text of a number: its parts, and their lengths.
use yuzuos.Base.{
  ℕ, zero, suc, ◌+◌, ◌-◌, ◌^◌, ◌≡◌, refl, arith, false, not, ◌&&◌, List, [], ◌∷◌, ◌++◌, ◌==◌,
  if◌then◌else◌, length, length-append, max, Bool-cases, inl, inr,
}
use yuzuos.Base.Int.{ℤ, pos, negsuc, pos_part, ltb_ℤ, sub_nat}
use yuzuos.Stdio.{Flags, digit, tmp_of, prefix_width, sign_of, is_negative}
use yuzuos.Stdio.Emit.{replicate, reverse_onto}

-- The number without its sign.
abbrev pub magnitude : Flags → ℕ → ℕ
magnitude f num = if f.sign then (if is_negative num then 2 ^ 64 - num else num) else num

abbrev pub sign_text : Flags → ℕ → List ℕ
sign_text f num = if sign_of f num == 0 then [] else sign_of f num ∷ []

abbrev pub prefix_text : Flags → ℕ → List ℕ
prefix_text f base =
    if f.special
    then (if base == 8 then b'0' ∷ [] else if base == 16 then b'0' ∷ digit f.large 33 ∷ [] else [])
    else []

-- The digits from the highest on, behind as many zeros as the precision asks for.
abbrev pub digits_text : Flags → (num base : ℕ) → ℤ → List ℕ
digits_text f num base precision =
    let tmp = tmp_of f.large base (magnitude f num) in
    replicate (pos_part precision - length tmp) b'0' ++ reverse_onto tmp []

-- How many characters are missing to the width of the field.
abbrev pub missing : Flags → (num base : ℕ) → (field precision : ℤ) → ℕ
missing f num base field precision =
    pos_part field
    - (length (sign_text f num)
        + length (prefix_text f base)
        + length (digits_text f num base precision))

abbrev pub number_text : Flags → (num base : ℕ) → (field precision : ℤ) → List ℕ
number_text f num base field precision =
    let lack = missing f num base field precision in
    let left = if f.left then 0 else lack in
    let right = if f.left then lack else 0 in
    let zeros = f.zeropad && not f.left in
    (if zeros then [] else replicate left b' ')
    ++ sign_text f num
    ++ prefix_text f base
    ++ (if zeros then replicate left b'0' else [])
    ++ digits_text f num base precision
    ++ replicate right b' '

-- What is left of a count.
pub pos_part-sub_nat : (z : ℤ) (n : ℕ) → pos_part (sub_nat z n) ≡ pos_part z - n
pos_part-sub_nat (pos a) n = ground arith
pos_part-sub_nat (negsuc a) n = omega arith

abbrev pub at_least : ℤ → ℕ → ℤ
at_least precision i = if ltb_ℤ precision (pos i) then pos i else precision

pub pos_part-at_least : (z : ℤ) (i : ℕ) → pos_part (at_least z i) ≡ max (pos_part z) i
pos_part-at_least (pos a) i = ground arith
pos_part-at_least (negsuc a) i = ground arith

pub length-replicate : (n c : ℕ) → length (replicate n c) ≡ n
length-replicate zero c = refl
length-replicate (suc n) c = omega (arith, length-replicate n c)

pub length-reverse_onto : (xs ys : List ℕ) → length (reverse_onto xs ys) ≡ length xs + length ys
length-reverse_onto [] ys = omega arith
length-reverse_onto (x ∷ xs) ys = omega (arith, length-reverse_onto xs (x ∷ ys))

pub length-sign_text :
    (f : Flags) (num : ℕ) → length (sign_text f num) ≡ (if sign_of f num == 0 then 0 else 1)
length-sign_text f num = elim (Bool-cases (sign_of f num == 0)) [
  | inl nothing ↦ rw nothing
  | inr shown ↦ rw shown
]

pub length-prefix_text : (f : Flags) (base : ℕ) → length (prefix_text f base) ≡ prefix_width f base
unfolding prefix_width
length-prefix_text f base = elim (Bool-cases f.special) [
  | inr plain ↦ rw plain
  | inl special ↦ rw special (elim (Bool-cases (base == 8)) [
    | inl eight ↦ let other : (base == 16) ≡ false = ground arith in rw (eight, other)
    | inr other ↦ rw other (elim (Bool-cases (base == 16)) [ inl b ↦ rw b | inr b ↦ rw b ])
  ])
]

pub length-digits_text :
    (f : Flags) (num base : ℕ) (precision : ℤ)
    → length (digits_text f num base precision)
      ≡ max (pos_part precision) (length (tmp_of f.large base (magnitude f num)))
length-digits_text f num base precision =
    let tmp = tmp_of f.large base (magnitude f num) in
    let short = pos_part precision - length tmp in
    omega (
      arith,
      length-append (replicate short b'0') (reverse_onto tmp []),
      length-replicate short b'0',
      length-reverse_onto tmp [],
    )
