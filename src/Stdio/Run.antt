-- ===== src/Stdio/Run.antt =====
-- `vsnprintf`: the letter of a directive, the loop over the format, and the closing zero.
use yuzuos.Base.{
  ℕ, zero, suc, ◌+◌, ◌-◌, ◌%◌, ◌^◌, Bool, true, not, ◌||◌, ltb, leb, ◌==◌, if◌then◌else◌, List, [],
  ◌∷◌, Option, none, some, update,
}
use yuzuos.Base.Int.{ℤ, pos, negsuc, eqb_ℤ, sub_nat}
use yuzuos.Bitmap.{u32}
use yuzuos.Stdio.{Out, Flags, put, fill, pad, number}
use yuzuos.Stdio.Format.{Spec, State, head, tail, parse, number_arg}

-- `while (--field > 0)`, from the first count that is tested.
unfoldable pub pre_pad_at : (end_at c : ℕ) → ℤ → Out → ℤ × Out
unfolding fill
pre_pad_at end_at c (pos n) o = (pos 0, fill end_at c n o)
pre_pad_at end_at c (negsuc n) o = (negsuc n, o)

abbrev pub pre_pad : (end_at c : ℕ) → ℤ → Out → ℤ × Out
pre_pad end_at c field o = pre_pad_at end_at c (sub_nat field 1) o

-- `while (precision-- && *p_string != '\0')`: how far it gets; a negative precision is never used up.
unfoldable pub scan : ℤ → List ℕ → ℕ
scan precision [] = 0
scan (pos zero) (c ∷ cs) = 0
scan (pos (suc n)) (c ∷ cs) = suc (scan (pos n) cs)
scan (negsuc n) (c ∷ cs) = suc (scan (negsuc (suc n)) cs)

-- The loop that prints `length` characters of a text.
unfoldable pub put_text : (end_at length : ℕ) → List ℕ → Out → Out
put_text end_at zero s o = o
put_text end_at (suc length) s o = put_text end_at length (tail s) (put end_at (head s) o)

-- "(NULL)"
abbrev pub null_text : List ℕ
null_text = b'(' ∷ b'N' ∷ b'U' ∷ b'L' ∷ b'L' ∷ b')' ∷ []

-- The case 'c'; `ch` is the argument.
unfoldable pub put_char : (end_at ch : ℕ) → Spec → Out → Out
unfolding pre_pad_at
put_char end_at ch d o =
    let p1 = if not d.flags.left then pre_pad end_at b' ' d.field o else (d.field, o) in
    (pre_pad end_at b' ' p1.0 (put end_at (ch % 256) p1.1)).1

-- The case 's'.
unfoldable pub put_string : (end_at : ℕ) → List ℕ → Spec → Out → Out
unfolding scan pad put_text
put_string end_at string d o =
    let length = scan d.precision string in
    let excess = sub_nat d.field length in
    let p1 = if not d.flags.left then pad end_at b' ' excess o else (excess, o) in
    (pad end_at b' ' p1.0 (put_text end_at length string p1.1)).1

-- The case 'p'; `ptr` is the argument.
unfoldable pub put_pointer : (end_at ptr : ℕ) → Spec → Out → Out
put_pointer end_at ptr d o =
    let f = d.flags in
    if eqb_ℤ d.field (negsuc 0)
    then number end_at ptr 16 (pos 8) d.precision (record f { zeropad = true }) o
    else number end_at ptr 16 d.field d.precision f o

-- The cases that set the base and the flags of a number.
abbrev pub base_of : ℕ → ℕ
base_of c = if c == b'o' then 8 else if (c == b'x') || (c == b'X') then 16 else 10

abbrev pub flags_for : ℕ → Flags → Flags
flags_for c f =
    if c == b'X'
    then record f { large = true }
    else if (c == b'd') || (c == b'i')
    then record f { sign = true }
    else f

abbrev pub is_number : ℕ → Bool
is_number c = (c == b'o') || (c == b'X') || (c == b'x') || (c == b'd') || (c == b'i') || (c == b'u')

module _ (words : ℕ → ℕ) (texts : ℕ → List ℕ) (str end_at : ℕ) where
  -- The number printed.
  unfoldable pub put_number : (c : ℕ) → Spec → State → State
  unfolding number_arg
  put_number c d st =
      let d' : Spec = record d { flags = flags_for c d.flags } in
      let n = number_arg words d' st.ap in
      record st {
        out = number end_at n.0 (base_of c) d.field d.precision d'.flags st.out;
        ap = n.1;
      }

  -- The switch over the letter, `none` where the format ends there.
  unfoldable pub convert : Spec → (c : ℕ) → State → State
  unfolding put_char put_string put_pointer put_number
  convert d c st =
      let w = u32 (words st.ap) in
      let out = st.out in
      let string = if ltb w 4096 then null_text else texts w in
      if c == b'c'
      then record st { out = put_char end_at w d out; ap = st.ap + 1 }
      else if c == b's'
      then record st { out = put_string end_at string d out; ap = st.ap + 1 }
      else if c == b'p'
      then record st { out = put_pointer end_at w d out; ap = st.ap + 1 }
      else if c == b'n'
      then record st { stores = (w, u32 (out.at - str)) ∷ st.stores; ap = st.ap + 1 }
      else if c == b'%'
      then record st { out = put end_at b'%' out }
      else if is_number c
      then put_number c d st
      else if c == 0
      then record st { out = put end_at b'%' out }
      else record st { out = put end_at c (put end_at b'%' out) }

  -- What follows a `%`: the state behind it, and the rest of the format, `none` where the code has
  -- left it.
  unfoldable pub directive : List ℕ → State → State × Option (List ℕ)
  unfolding parse convert
  directive s st =
      let p = parse words st.ap s in
      let c = head p.2 in
      let st' = convert p.0 c (record st { ap = p.1 }) in
      (st', if c == 0 then none else some (tail p.2))

  -- One round of the loop over the format.
  unfoldable pub step : (c : ℕ) → List ℕ → State → State × Option (List ℕ)
  unfolding directive
  step c cs st =
      let out = st.out in
      if c == b'%' then directive cs st else (record st { out = put end_at c out }, some cs)

pub data Result : Type 0 where
  finished : State → Result
  overrun : State → Result
  out_of_fuel : Result

module _ (words : ℕ → ℕ) (texts : ℕ → List ℕ) (str end_at : ℕ) where
  unfoldable pub format_loop : (fuel : ℕ) → List ℕ → State → Result
  unfolding step
  format_loop zero s st = out_of_fuel
  format_loop (suc fuel) [] st = finished st
  format_loop (suc fuel) (c ∷ cs) st =
      let r = step words texts str end_at c cs st in
      elim r.1 [ none ↦ overrun r.0 | some rest ↦ format_loop fuel rest r.0 ]

-- The closing zero: behind the text, or at `end` where the text has reached it.
unfoldable pub terminate : (end_at size : ℕ) → Out → Out
terminate end_at size o =
    if ltb o.at end_at
    then record o { memory = update o.memory o.at 0 }
    else if ltb 0 size
    then record o { memory = update o.memory end_at 0 }
    else o

-- `end`, which does not wrap round.
abbrev pub end_of : (str size : ℕ) → ℕ
end_of str size = if ltb (u32 (str + size)) str then 2 ^ 32 - 1 else u32 (str + size)

abbrev pub size_of : (str size : ℕ) → ℕ
size_of str size = if ltb (u32 (str + size)) str then 2 ^ 32 - 1 - str else size

-- The memory afterwards, what `%n` has stored, and the result.
pub data Printed : Type 0 where
  printed : (ℕ → ℕ) → List (ℕ × ℕ) → ℕ → Printed
  left_format : Printed
  starved : Printed

unfoldable pub vsnprintf :
    (words : ℕ → ℕ) → (texts : ℕ → List ℕ) → (fuel str size : ℕ) → List ℕ → (ℕ → ℕ) → Printed
unfolding format_loop terminate
vsnprintf words texts fuel str size format memory =
    let end_at = end_of str size in
    let start : State = record {
      out = record { at = str; memory = memory };
      ap = 0;
      stores = [];
    } in
    if leb (2 ^ 31) size
    then printed memory [] 0
    else elim (format_loop words texts str end_at fuel format start) [
      | finished st ↦
          printed (terminate end_at (size_of str size) st.out).memory st.stores (st.out.at - str)
      | overrun st ↦ left_format
      | out_of_fuel ↦ starved
    ]

-- `snprintf`, and `sprintf` with a size of INT_MAX; the arguments stand on the stack.
pub snprintf :
    (words : ℕ → ℕ) → (texts : ℕ → List ℕ) → (fuel str size : ℕ) → List ℕ → (ℕ → ℕ) → Printed
unfolding vsnprintf
snprintf words texts fuel str size format memory = vsnprintf words texts fuel str size format memory

pub sprintf : (words : ℕ → ℕ) → (texts : ℕ → List ℕ) → (fuel str : ℕ) → List ℕ → (ℕ → ℕ) → Printed
unfolding vsnprintf
sprintf words texts fuel str format memory =
    vsnprintf words texts fuel str 0x7fff_ffff format memory
