-- ===== src/Tests/Prints.antt =====
-- Formats printed into small buffers.
use yuzuos.Base.{
  ℕ, zero, suc, ◌+◌, ◌-◌, ◌^◌, ◌≤◌, ◌≡◌, refl, inl, arith, true, false, List, [], ◌∷◌, ◌++◌, length,
  ◌==◌, if◌then◌else◌,
}
use yuzuos.Base.Int.{pos, negsuc}
use yuzuos.Stdio.{sign_of, digit_loop, Out, Flags, no_flags, number, tmp_of}
use yuzuos.Stdio.Emit.{emit}
use yuzuos.Stdio.Text.{number_text, digits_text, magnitude}
use yuzuos.Stdio.Format.{atoi}
use yuzuos.Stdio.Fits.{HasSmallFields, result_of, number-emit_fits, vsnprintf-IsPrinted_fits}
use yuzuos.Stdio.Digits.{digits_text-magnitude, value}
use yuzuos.Stdio.Run.{vsnprintf, left_format, printed, Printed}
use yuzuos.Stdio.Loop.{Verdict, is_starved}
use yuzuos.Stdio.Whole.{IsPrinted}
use yuzuos.Stdio.Cut.{vsnprintf-cut}

-- -42, and the address of a text.
abbrev words : ℕ → ℕ
words n = if n == 0 then 2 ^ 32 - 42 else 0x5000

abbrev texts : ℕ → List ℕ
texts address = b'o' ∷ b'k' ∷ []

-- "%6d %-4s|"
abbrev format : List ℕ
format = b'%' ∷ b'6' ∷ b'd' ∷ b' ' ∷ b'%' ∷ b'-' ∷ b'4' ∷ b's' ∷ b'|' ∷ []

abbrev blank : ℕ → ℕ
blank p = 1

-- "   -42 ok  |"
abbrev expected : List ℕ
expected = b' ' ∷ b' ' ∷ b' ' ∷ b'-' ∷ b'4' ∷ b'2' ∷ b' ' ∷ b'o' ∷ b'k' ∷ b' ' ∷ b' ' ∷ b'|' ∷ []

abbrev copied : (count at : ℕ) → (ℕ → ℕ) → List ℕ
copied zero at memory = []
copied (suc n) at memory = memory at ∷ copied n (at + 1) memory

-- The bytes of the buffer and the result.
abbrev read : (count at : ℕ) → Printed → List ℕ
read count at (printed memory stores n) = copied count at memory ++ n ∷ []
read count at r = []

roomy_run : read 12 100 (vsnprintf words texts 10 100 20 format blank) ≡ expected ++ 12 ∷ []
unfolding vsnprintf number
roomy_run = refl

small_fields : HasSmallFields words format
unfolding atoi
small_fields = record {
  numbers = (
    omega arith,
    (
      omega arith,
      (
        omega arith,
        (
          omega arith,
          (omega arith, (omega arith, (omega arith, (omega arith, (omega arith, tt))))),
        ),
      ),
    ),
  );
  stars = inl refl;
}

measured : result_of (vsnprintf words texts 10 0 0 format (λ p. 0)) ≤ 12
unfolding vsnprintf number
measured = omega arith

vsnprintf-IsPrinted_fits_example :
    (v : Verdict) × (is_starved v ≡ false)
    × IsPrinted 100 20 blank v (vsnprintf words texts 10 100 20 format blank)
    × IsPrinted 300 4 blank v (vsnprintf words texts 10 300 4 format blank)
vsnprintf-IsPrinted_fits_example =
    vsnprintf-IsPrinted_fits words texts 10 format 100 20 300 4 12 blank blank (omega arith)
      small_fields measured (omega arith) (omega arith) (omega arith) (omega arith) (omega arith)
      (omega arith) (omega arith)

abbrev hexadecimal : Flags
hexadecimal = record no_flags { special = true; zeropad = true }

abbrev buffer : Out
buffer = record { at = 100; memory = blank }

number-emit_fits_example :
    number 120 255 16 (pos 8) (negsuc 0) hexadecimal buffer
    ≡ emit 120 (number_text hexadecimal 255 16 (pos 8) (negsuc 0)) buffer
unfolding sign_of digit_loop
number-emit_fits_example =
    number-emit_fits 120 255 16 (pos 8) (negsuc 0) hexadecimal buffer (omega arith) (omega arith)
      (omega arith) (omega arith) (omega arith) (omega arith)

digits_text-magnitude_example :
    (value 16 0 (digits_text hexadecimal 255 16 (pos 4)) ≡ magnitude hexadecimal 255)
    × (length (tmp_of hexadecimal.large 16 (magnitude hexadecimal 255)) ≤ 64)
digits_text-magnitude_example =
    digits_text-magnitude hexadecimal 255 16 (pos 4) (omega arith) (omega arith) (omega arith)

vsnprintf-cut_example :
    vsnprintf words texts 4 100 20 ((b'a' ∷ []) ++ b'%' ∷ []) blank ≡ left_format
vsnprintf-cut_example =
    vsnprintf-cut words texts 4 100 20 (b'a' ∷ []) blank (refl, tt) (omega arith) (omega arith)
