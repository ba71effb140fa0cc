-- ===== src/Stdio/Format.antt =====
-- `vsnprintf`: a format walked along, with its arguments.
-- A format or a text is the list of its bytes before the closing zero; `*format` at its end is 0. The
-- arguments are the words on the stack, of which a `long long` takes two. A directive that ends with
-- the format makes the code step over the closing zero and read on behind it: this is `overrun`.
use yuzuos.Base.{
  ℕ, zero, suc, ◌+◌, ◌-◌, ◌*◌, ◌%◌, ◌^◌, Bool, true, not, ◌||◌, ◌&&◌, ltb, ◌==◌, if◌then◌else◌,
  List, [], ◌∷◌,
}
use yuzuos.Base.Int.{ℤ, pos, negsuc, ltb_ℤ}
use yuzuos.Bitmap.{u32}
use yuzuos.Stdio.{Out, Flags, no_flags, is_digit}

-- `*format` and `format + 1`
abbrev pub head : List ℕ → ℕ
head [] = 0
head (c ∷ cs) = c

abbrev pub tail : List ℕ → List ℕ
tail [] = []
tail (c ∷ cs) = cs

-- `vsnprintf_atoi`: the number, and where it stops.
unfoldable pub atoi : ℕ → List ℕ → ℕ × List ℕ
atoi i [] = (i, [])
atoi i (c ∷ cs) =
    let rest = atoi (i * 10 + (c - b'0')) cs in if is_digit c then rest else (i, c ∷ cs)

-- A word read as an `int`.
abbrev pub to_int : ℕ → ℤ
to_int w = if ltb (u32 w) (2 ^ 31) then pos (u32 w) else negsuc (2 ^ 32 - 1 - u32 w)

-- `-x`
abbrev pub negate : ℤ → ℤ
negate (pos zero) = pos 0
negate (pos (suc n)) = negsuc n
negate (negsuc n) = pos (suc n)

-- What stands between the `%` and the letter.
pub record Spec : Type 0 where
  pub flags : Flags
  pub field : ℤ
  pub precision : ℤ
  pub qualifier : ℕ  -- 0 for none

-- `buffer`, the next argument, and what `%n` has stored: the value at each address, newest first.
pub record State : Type 0 where
  pub out : Out
  pub ap : ℕ
  pub stores : List (ℕ × ℕ)

abbrev pub is_flag : ℕ → Bool
is_flag c = (c == b'-') || (c == b'+') || (c == b' ') || (c == b'#') || (c == b'0')

abbrev pub flag_add : ℕ → Flags → Flags
flag_add c f =
    if c == b'-'
    then record f { left = true }
    else if c == b'+'
    then record f { plus = true }
    else if c == b' '
    then record f { space = true }
    else if c == b'#'
    then record f { special = true }
    else record f { zeropad = true }

-- The switch behind `repeat`.
unfoldable pub take_flags : Flags → List ℕ → Flags × List ℕ
take_flags f [] = (f, [])
take_flags f (c ∷ cs) =
    let rest = take_flags (flag_add c f) cs in if is_flag c then rest else (f, c ∷ cs)

-- A parsed part: the directive so far, the next argument and the rest of the format.
abbrev pub Parsed : Type 0
Parsed = Spec × ℕ × List ℕ

module _ (words : ℕ → ℕ) where
  unfoldable pub take_field : Spec → (ap : ℕ) → List ℕ → Parsed
  unfolding atoi
  take_field d ap s =
      let a = atoi 0 s in
      let w = to_int (words ap) in
      let d' : Spec =
        if ltb_ℤ w (pos 0)
        then (let f = d.flags in record d { field = negate w; flags = record f { left = true } })
        else record d { field = w } in
      if is_digit (head s)
      then (record d { field = pos a.0 }, ap, a.1)
      else if head s == b'*'
      then (d', ap + 1, tail s)
      else (d, ap, s)

  unfoldable pub take_precision : Spec → (ap : ℕ) → List ℕ → Parsed
  unfolding atoi
  take_precision d ap s =
      let a = atoi 0 (tail s) in
      let w = to_int (words ap) in
      if not (head s == b'.')
      then (d, ap, s)
      else if is_digit (head (tail s))
      then (record d { precision = pos a.0 }, ap, a.1)
      else if head (tail s) == b'*'
      then (record d { precision = if ltb_ℤ w (pos 0) then pos 0 else w }, ap + 1, tail (tail s))
      else (record d { precision = pos 0 }, ap, tail s)

  unfoldable pub take_qualifier : Spec → (ap : ℕ) → List ℕ → Parsed
  take_qualifier d ap s =
      let q = head s in
      let is_one = (q == b'h') || (q == b'l') || (q == b'L') || (q == b'Z') || (q == b'z') in
      if not is_one
      then (d, ap, s)
      else if (q == b'l') && (head (tail s) == b'l')
      then (record d { qualifier = b'L' }, ap, tail (tail s))
      else (record d { qualifier = q }, ap, tail s)

  -- Everything up to the letter.
  unfoldable pub parse : (ap : ℕ) → List ℕ → Parsed
  unfolding take_flags take_field take_precision take_qualifier
  parse ap s =
      let p0 = take_flags no_flags s in
      let d0 : Spec = record {
        flags = p0.0;
        field = negsuc 0;
        precision = negsuc 0;
        qualifier = 0;
      } in
      let p1 = take_field d0 ap p0.1 in
      let p2 = take_precision p1.0 p1.1 p1.2 in take_qualifier p2.0 p2.1 p2.2

  -- The number of a directive, 64 bits, and the next argument behind it.
  unfoldable pub number_arg : Spec → ℕ → ℕ × ℕ
  number_arg d ap =
      let w = u32 (words ap) in
      let half = w % 2 ^ 16 in
      let wide = if ltb w (2 ^ 31) then w else w + (2 ^ 64 - 2 ^ 32) in
      let short = if ltb half (2 ^ 15) then half else half + (2 ^ 64 - 2 ^ 16) in
      if d.qualifier == b'L'
      then (w + 2 ^ 32 * u32 (words (ap + 1)), ap + 2)
      else if d.qualifier == b'l'
      then (if d.flags.sign then wide else w, ap + 1)
      else if (d.qualifier == b'Z') || (d.qualifier == b'z')
      then (w, ap + 1)
      else if d.qualifier == b'h'
      then (if d.flags.sign then short else half, ap + 1)
      else (if d.flags.sign then wide else w, ap + 1)
