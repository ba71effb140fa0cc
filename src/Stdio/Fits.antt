-- ===== src/Stdio/Fits.antt =====
-- kernel/utils/stdio.c: what is printed where the numbers of type `int` and the pointer into the buffer
-- do not wrap round.
-- The definitions of Stdio count without bounds; the conditions here keep the code to the same values.
use yuzuos.Base.{ℕ, ◌+◌, ◌^◌, ◌≤◌, ◌<◌, ◌≡◌, ◌⊎◌, Bool, false, ◌||◌, List, [], ◌∷◌, length, ◌==◌}
use yuzuos.Base.Int.{ℤ, pos, negsuc}
use yuzuos.Stdio.{Out, Flags, number}
use yuzuos.Stdio.Emit.{emit}
use yuzuos.Stdio.Text.{number_text}
use yuzuos.Stdio.Number.{number-emit}
use yuzuos.Stdio.Format.{atoi, to_int}
use yuzuos.Stdio.Run.{Printed, printed, left_format, starved, vsnprintf}
use yuzuos.Stdio.Loop.{Verdict, is_starved}
use yuzuos.Stdio.Whole.{IsPrinted, vsnprintf-IsPrinted}

-- Far from the ends of an `int`.
abbrev pub IsSmall : ℤ → Type 0
IsSmall (pos n) = n < 2 ^ 30
IsSmall (negsuc n) = n < 2 ^ 30

-- The number that starts at each place of the format.
abbrev pub HasSmallNumbers : List ℕ → Type 0
HasSmallNumbers [] = Unit {0}
HasSmallNumbers (c ∷ cs) = ((atoi 0 (c ∷ cs)).0 < 2 ^ 30) × HasSmallNumbers cs

abbrev pub has_star : List ℕ → Bool
has_star [] = false
has_star (c ∷ cs) = (c == b'*') || has_star cs

-- The result of a run, 0 where it has none.
abbrev pub result_of : Printed → ℕ
result_of (printed m stores n) = n
result_of left_format = 0
result_of starved = 0

-- For a 64-bit number in a base from 2 to 36, with a field and a precision below 2 ^ 30 on either side
-- of 0 and a text that ends within the address space, `vsnprintf_number` prints the sign, the prefix
-- and the digits, behind zeros up to the precision, and fills the field with blanks or zeros on the
-- side that the flags say.
pub number-emit_fits :
    (e num base : ℕ) (field precision : ℤ) (f : Flags) (o : Out)
    → 2 ≤ base
    → base ≤ 36
    → num < 2 ^ 64
    → IsSmall field
    → IsSmall precision
    → o.at + length (number_text f num base field precision) < 2 ^ 32
    → number e num base field precision f o ≡ emit e (number_text f num base field precision) o
number-emit_fits e num base field precision f o low high wide small small' room =
    number-emit e num base field precision f o low high

-- The fields and precisions: those in the format, and those among the arguments if it has a `*`.
pub record HasSmallFields (words : ℕ → ℕ) (format : List ℕ) : Type 0 where
  pub numbers : HasSmallNumbers format
  pub stars : (has_star format ≡ false) ⊎ ((n : ℕ) → IsSmall (to_int (words n)))

module _ (words : ℕ → ℕ) (texts : ℕ → List ℕ) (fuel : ℕ) (format : List ℕ) where
  -- With fuel above the length of the format, fields and precisions below 2 ^ 30, and a text whose
  -- length as measured by a run without a buffer is below 2 GiB, `vsnprintf` does the same in any two
  -- buffers of less than 2 GiB that end within the address space, with room for the whole text
  -- before its end: either both runs step over the end of the format, or there is one text whose
  -- length both return, whatever the sizes are, and each run changes memory in the bytes of its
  -- buffer that the text reaches and in the zero behind them, which is the byte just after the
  -- buffer where the text fills it.
  pub vsnprintf-IsPrinted_fits :
      (str1 size1 str2 size2 room : ℕ) (memory1 memory2 : ℕ → ℕ)
      → length format < fuel
      → HasSmallFields words format
      → result_of (vsnprintf words texts fuel 0 0 format (λ p. 0)) ≤ room
      → room < 2 ^ 31
      → str1 + room < 2 ^ 32
      → str2 + room < 2 ^ 32
      → size1 < 2 ^ 31
      → str1 + size1 < 2 ^ 32
      → size2 < 2 ^ 31
      → str2 + size2 < 2 ^ 32
      → (v : Verdict) × (is_starved v ≡ false)
        × IsPrinted str1 size1 memory1 v (vsnprintf words texts fuel str1 size1 format memory1)
        × IsPrinted str2 size2 memory2 v (vsnprintf words texts fuel str2 size2 format memory2)
  vsnprintf-IsPrinted_fits str1 size1 str2 size2 room memory1 memory2 enough fields measured below
        within1 within2 small1 room1 small2 room2 =
      vsnprintf-IsPrinted words texts fuel format str1 size1 str2 size2 memory1 memory2 enough
        small1 room1 small2 room2
