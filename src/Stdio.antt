-- ===== src/Stdio.antt =====
-- kernel/utils/stdio.c and stdio.h: numbers and whole formats printed into a buffer (vsnprintf).
-- `buffer` is an address that each character moves on by one, whether it has been written or not;
-- a character is written only below `end`. The six bits of `flags` are a record.
pub mod Emit
pub mod Text
pub mod Number
pub mod Format
pub mod Run
pub mod Print
pub mod Shorter
pub mod Loop
pub mod Whole
pub mod Digits
pub mod Cut
pub mod Fits
use yuzuos.Base.{
  ℕ, zero, suc, ◌+◌, ◌-◌, ◌/◌, ◌%◌, ◌^◌, Bool, true, false, not, ◌||◌, ◌&&◌, ltb, leb, ◌==◌,
  if◌then◌else◌, List, [], ◌∷◌, length, update,
}
use yuzuos.Base.Int.{ℤ, pos, negsuc, pos_part, ltb_ℤ, sub_nat}

-- The memory that holds the buffer, and `buffer`.
pub record Out : Type 0 where
  pub at : ℕ
  pub memory : ℕ → ℕ

-- `if (buffer < end) *buffer = c; buffer++;`
abbrev pub put : (end_at c : ℕ) → Out → Out
put end_at c o = record {
  at = o.at + 1;
  memory = if ltb o.at end_at then update o.memory o.at c else o.memory;
}

pub record Flags : Type 0 where
  pub zeropad : Bool
  pub sign : Bool
  pub plus : Bool
  pub space : Bool
  pub left : Bool
  pub special : Bool
  pub large : Bool

abbrev pub no_flags : Flags
no_flags = record {
  zeropad = false;
  sign = false;
  plus = false;
  space = false;
  left = false;
  special = false;
  large = false;
}

-- `isdigit`
abbrev pub is_digit : ℕ → Bool
is_digit c = leb b'0' c && leb c b'9'

-- `digits[d]`, for the two texts of the ten digits and the 26 letters.
abbrev pub digit : Bool → ℕ → ℕ
digit large d = if ltb d 10 then b'0' + d else if large then b'A' + (d - 10) else b'a' + (d - 10)

-- A loop `while (n-- > 0)` that prints `c`, for a count that is not negative.
unfoldable pub fill : (end_at c n : ℕ) → Out → Out
fill end_at c zero o = o
fill end_at c (suc n) o = fill end_at c n (put end_at c o)

-- `while (field-- > 0)`: the count after the loop, and the buffer.
unfoldable pub pad : (end_at c : ℕ) → ℤ → Out → ℤ × Out
unfolding fill
pad end_at c (pos n) o = (negsuc 0, fill end_at c n o)
pad end_at c (negsuc n) o = (negsuc (suc n), o)

-- The loop that fills `tmp`, from the lowest digit on; 64 rounds are enough in every base.
unfoldable pub digit_loop : (rounds : ℕ) → (large : Bool) → (base number : ℕ) → List ℕ
digit_loop zero large base number = []
digit_loop (suc rounds) large base number =
    let rest = digit_loop rounds large base (number / base) in
    if number == 0 then [] else digit large (number % base) ∷ rest

abbrev pub tmp_of : Bool → (base number : ℕ) → List ℕ
tmp_of large base number = if number == 0 then b'0' ∷ [] else digit_loop 64 large base number

-- `while (i-- > 0)`: `tmp` from its end.
unfoldable pub put_back : (end_at : ℕ) → List ℕ → Out → Out
put_back end_at [] o = o
put_back end_at (c ∷ cs) o = put end_at c (put_back end_at cs o)

-- `(signed long long)number < 0`
abbrev pub is_negative : ℕ → Bool
is_negative number = leb (2 ^ 63) number

-- `sign`, 0 where there is none.
unfoldable pub sign_of : Flags → ℕ → ℕ
sign_of f number =
    if f.sign
    then (if is_negative number then b'-' else if f.plus then b'+' else if f.space then b' ' else 0)
    else 0

-- How many characters the prefix takes off the field.
unfoldable pub prefix_width : Flags → ℕ → ℕ
prefix_width f base =
    if f.special then (if base == 16 then 2 else if base == 8 then 1 else 0) else 0

unfoldable pub put_prefix : (end_at : ℕ) → Flags → ℕ → Out → Out
put_prefix end_at f base o =
    if f.special
    then (if base == 8
        then put end_at b'0' o
        else if base == 16
        then put end_at (digit f.large 33) (put end_at b'0' o)
        else o)
    else o

-- What `vsnprintf_number` prints once the base and the flags are right.
unfoldable pub number_body : (end_at num base : ℕ) → (field precision : ℤ) → Flags → Out → Out
unfolding pad digit_loop put_back sign_of prefix_width put_prefix
number_body end_at num base field precision f o =
    let sign = sign_of f num in
    let num' = if f.sign then (if is_negative num then 2 ^ 64 - num else num) else num in
    let field1 = sub_nat field (if sign == 0 then 0 else 1) in
    let field2 = sub_nat field1 (prefix_width f base) in
    let tmp = tmp_of f.large base num' in
    let i = length tmp in
    let precision' = if ltb_ℤ precision (pos i) then pos i else precision in
    let field3 = sub_nat field2 (pos_part precision') in
    let p1 = if not (f.zeropad || f.left) then pad end_at b' ' field3 o else (field3, o) in
    let o2 = if sign == 0 then p1.1 else put end_at sign p1.1 in
    let o3 = put_prefix end_at f base o2 in
    let c = if f.zeropad then b'0' else b' ' in
    let p4 = if not f.left then pad end_at c p1.0 o3 else (p1.0, o3) in
    let o5 = (pad end_at b'0' (sub_nat precision' i) p4.1).1 in
    let o6 = put_back end_at tmp o5 in (pad end_at b' ' p4.0 o6).1

-- `if (flags & VSNPRINTF_LEFT) flags &= ~VSNPRINTF_ZEROPAD;`
abbrev pub left_aligned : Flags → Flags
left_aligned f = if f.left then record f { zeropad = false } else f

-- `number` has 64 bits. A base outside of 2 to 36 gives NULL.
unfoldable pub number : (end_at num base : ℕ) → (field precision : ℤ) → Flags → Out → Out
unfolding number_body
number end_at num base field precision flags o =
    if ltb base 2 || ltb 36 base
    then record o { at = 0 }
    else number_body end_at num base field precision (left_aligned flags) o
