-- ===== src/Stdio/Number.antt =====
-- `vsnprintf_number` prints the text of a number, which does not depend on the buffer.
use yuzuos.Base.{
  ℕ, ◌-◌, ◌≤◌, ◌≡◌, refl, ◌∙◌, ap, arith, Bool, true, false, not, ◌||◌, ◌&&◌, List, [], ◌++◌, ltb,
  ◌==◌, if◌then◌else◌, length, Bool-cases, inl, inr,
}
use yuzuos.Base.Int.{ℤ, pos, negsuc, pos_part, sub_nat}
use yuzuos.Stdio.{
  Out, Flags, put, pad, tmp_of, put_back, put_prefix, prefix_width, sign_of, left_aligned,
  number_body, number,
}
use yuzuos.Stdio.Emit.{emit, replicate, reverse_onto, emit-append, fill-emit, put_back-emit}
use yuzuos.Stdio.Text.{
  magnitude, sign_text, prefix_text, missing, number_text, pos_part-sub_nat, at_least,
  pos_part-at_least, length-sign_text, length-prefix_text, length-digits_text,
}

pub pad-emit : (e c : ℕ) (z : ℤ) (o : Out) → (pad e c z o).1 ≡ emit e (replicate (pos_part z) c) o
unfolding pad emit
pad-emit e c (pos n) o = fill-emit e c n o
pad-emit e c (negsuc n) o = refl

pad_done : (e c : ℕ) (z : ℤ) (o : Out) → pos_part (pad e c z o).0 ≡ 0
unfolding pad
pad_done e c (pos n) o = refl
pad_done e c (negsuc n) o = refl

put_sign-emit :
    (e num : ℕ) (f : Flags) (o : Out)
    → (if sign_of f num == 0 then o else put e (sign_of f num) o) ≡ emit e (sign_text f num) o
unfolding emit
put_sign-emit e num f o = elim (Bool-cases (sign_of f num == 0)) [
  | inl nothing ↦ rw nothing
  | inr shown ↦ rw shown
]

put_prefix-emit :
    (e base : ℕ) (f : Flags) (o : Out) → put_prefix e f base o ≡ emit e (prefix_text f base) o
unfolding emit put_prefix
put_prefix-emit e base f o = elim (Bool-cases f.special) [
  | inr plain ↦ rw plain
  | inl special ↦ rw special (elim (Bool-cases (base == 8)) [
    | inl eight ↦ rw eight
    | inr other ↦
        rw other
          (elim (Bool-cases (base == 16)) [ inl sixteen ↦ rw sixteen | inr other' ↦ rw other' ])
  ])
]

put_back-all : (e : ℕ) (xs : List ℕ) (o : Out) → put_back e xs o ≡ emit e (reverse_onto xs []) o
unfolding emit
put_back-all e xs o = put_back-emit e xs [] o

-- The texts of all parts, one behind the other.
parts-emit :
    (e : ℕ) (a s p z n d r : List ℕ) (o : Out)
    → emit e r (emit e d (emit e n (emit e z (emit e p (emit e s (emit e a o))))))
      ≡ emit e (a ++ s ++ p ++ z ++ (n ++ d) ++ r) o
parts-emit e a s p z n d r o = simp (emit-append)

-- The stages behind the first two loops over the field.
chain :
    (e num base : ℕ) (f : Flags) (tmp a z : List ℕ) (w y : ℤ) (x1 x4 o : Out)
    → x1 ≡ emit e a o
    → x4
      ≡ emit e z (put_prefix e f base (if sign_of f num == 0 then x1 else put e (sign_of f num) x1))
    → (pad e b' ' w (put_back e tmp (pad e b'0' y x4).1)).1
      ≡ emit e
          (a
            ++ sign_text f num
            ++ prefix_text f base
            ++ z
            ++ (replicate (pos_part y) b'0' ++ reverse_onto tmp [])
            ++ replicate (pos_part w) b' ')
          o
chain e num base f tmp a z w y x1 x4 o e1 e4 =
    let blanks = replicate (pos_part w) b' ' in
    let zeros = replicate (pos_part y) b'0' in
    let s = sign_text f num in
    let p = prefix_text f base in
    pad-emit e b' ' w (put_back e tmp (pad e b'0' y x4).1)
    ∙ ap (emit e blanks) (
        put_back-all e tmp (pad e b'0' y x4).1
        ∙ ap (emit e (reverse_onto tmp [])) (
            pad-emit e b'0' y x4
            ∙ ap (emit e zeros) (
                e4
                ∙ ap (emit e z) (
                    put_prefix-emit e base f _
                    ∙ ap (emit e p) (put_sign-emit e num f x1 ∙ ap (emit e s) e1)))))
    ∙ parts-emit e a s p z zeros (reverse_onto tmp []) blanks o

-- A loop over the field that a flag may leave out.
pub pad_if-emit :
    (e c : ℕ) (b : Bool) (z : ℤ) (o : Out)
    → ((if b then pad e c z o else (z, o)).1
        ≡ emit e (if b then replicate (pos_part z) c else []) o)
      × (pos_part (if b then pad e c z o else (z, o)).0 ≡ (if b then 0 else pos_part z))
unfolding emit
pad_if-emit e c true z o = (pad-emit e c z o, pad_done e c z o)
pad_if-emit e c false z o = (refl, refl)

-- Where the blanks and zeros of the field stand.
arranged :
    (zeropad left : Bool) (n : ℕ) (s p d : List ℕ)
    → (zeropad && left) ≡ false
    → (if not (zeropad || left) then replicate n b' ' else [])
        ++ s
        ++ p
        ++ (if not left
            then replicate (if not (zeropad || left) then 0 else n) (if zeropad then b'0' else b' ')
            else [])
        ++ d
        ++ replicate (if not left then 0 else if not (zeropad || left) then 0 else n) b' '
      ≡ (if zeropad && not left then [] else replicate (if left then 0 else n) b' ')
        ++ s
        ++ p
        ++ (if zeropad && not left then replicate (if left then 0 else n) b'0' else [])
        ++ d
        ++ replicate (if left then n else 0) b' '
arranged true true n s p d one = absurd (ground arith)
arranged true false n s p d one = refl
arranged false true n s p d one = refl
arranged false false n s p d one = refl

recounted :
    (zeropad left : Bool) (x n3 n4 n y m : ℕ) (s p d : List ℕ)
    → (zeropad && left) ≡ false
    → x ≡ n
    → n3 ≡ (if not (zeropad || left) then 0 else x)
    → n4 ≡ (if not left then 0 else n3)
    → y ≡ m
    → (if not (zeropad || left) then replicate x b' ' else [])
        ++ s
        ++ p
        ++ (if not left then replicate n3 (if zeropad then b'0' else b' ') else [])
        ++ (replicate y b'0' ++ d)
        ++ replicate n4 b' '
      ≡ (if zeropad && not left then [] else replicate (if left then 0 else n) b' ')
        ++ s
        ++ p
        ++ (if zeropad && not left then replicate (if left then 0 else n) b'0' else [])
        ++ (replicate m b'0' ++ d)
        ++ replicate (if left then n else 0) b' '
recounted zeropad left x n3 n4 n y m s p d one ex e3 e4 ey =
    rw (e4, e3, ex, ey) (arranged zeropad left n s p (replicate m b'0' ++ d) one)

missing_lem :
    (f : Flags) (num base : ℕ) (field precision : ℤ)
    → pos_part (
        sub_nat
          (sub_nat (sub_nat field (if sign_of f num == 0 then 0 else 1)) (prefix_width f base))
          (pos_part (at_least precision (length (tmp_of f.large base (magnitude f num))))))
      ≡ missing f num base field precision
missing_lem f num base field precision =
    let i = length (tmp_of f.large base (magnitude f num)) in
    let one = if sign_of f num == 0 then 0 else 1 in
    let z1 = sub_nat field one in
    let z2 = sub_nat z1 (prefix_width f base) in
    omega (
      arith,
      pos_part-sub_nat z2 (pos_part (at_least precision i)),
      pos_part-sub_nat z1 (prefix_width f base),
      pos_part-sub_nat field one,
      pos_part-at_least precision i,
      length-sign_text f num,
      length-prefix_text f base,
      length-digits_text f num base precision,
    )

body-emit :
    (e num base : ℕ) (field precision : ℤ) (f : Flags) (o : Out)
    → (f.zeropad && f.left) ≡ false
    → number_body e num base field precision f o ≡ emit e (number_text f num base field precision) o
unfolding number_body
body-emit e num base field precision f o one =
    let tmp = tmp_of f.large base (magnitude f num) in
    let i = length tmp in
    let y = sub_nat (at_least precision i) i in
    let field3 =
      sub_nat (sub_nat (sub_nat field (if sign_of f num == 0 then 0 else 1)) (prefix_width f base))
        (pos_part (at_least precision i)) in
    let b1 = not (f.zeropad || f.left) in
    let b4 = not f.left in
    let c4 = if f.zeropad then b'0' else b' ' in
    let r1 = pad_if-emit e b' ' b1 field3 o in
    let p1 : ℤ × Out = if b1 then pad e b' ' field3 o else (field3, o) in
    let o3 =
      put_prefix e f base (if sign_of f num == 0 then p1.1 else put e (sign_of f num) p1.1) in
    let r4 = pad_if-emit e c4 b4 p1.0 o3 in
    let p4 : ℤ × Out = if b4 then pad e c4 p1.0 o3 else (p1.0, o3) in
    let counts : pos_part field3 ≡ missing f num base field precision =
      missing_lem f num base field precision in
    let zeros : pos_part y ≡ pos_part precision - i =
      omega (arith, pos_part-sub_nat (at_least precision i) i, pos_part-at_least precision i) in
    chain e num base f tmp (if b1 then replicate (pos_part field3) b' ' else [])
      (if b4 then replicate (pos_part p1.0) c4 else []) p4.0 y p1.1 p4.1 o r1.0 r4.0
    ∙ ap (λ (t : List ℕ). emit e t o)
        (recounted f.zeropad f.left (pos_part field3) (pos_part p1.0) (pos_part p4.0)
          (missing f num base field precision) (pos_part y) (pos_part precision - i)
          (sign_text f num) (prefix_text f base) (reverse_onto tmp []) one counts r1.1 r4.1 zeros)

abbrev flags_of : (zeropad sign plus space left special large : Bool) → Flags
flags_of z s p b l c g = record {
  zeropad = z;
  sign = s;
  plus = p;
  space = b;
  left = l;
  special = c;
  large = g;
}

-- The text is that of the flags after the first test of the code.
aligned-text :
    (z s p b l c g : Bool) (num base : ℕ) (field precision : ℤ)
    → number_text (left_aligned (flags_of z s p b l c g)) num base field precision
      ≡ number_text (flags_of z s p b l c g) num base field precision
unfolding sign_of
aligned-text true s p b true c g num base field precision = refl
aligned-text false s p b true c g num base field precision = refl
aligned-text z s p b false c g num base field precision = refl

aligned_one :
    (z s p b l c g : Bool)
    → ((left_aligned (flags_of z s p b l c g)).zeropad
        && (left_aligned (flags_of z s p b l c g)).left)
      ≡ false
aligned_one true s p b true c g = refl
aligned_one false s p b true c g = refl
aligned_one true s p b false c g = refl
aligned_one false s p b false c g = refl

-- In every base from 2 to 36 `vsnprintf_number` prints the sign, the prefix and the digits, behind
-- zeros up to the precision, and fills the field with blanks or zeros on the side that the flags say.
pub number-emit :
    (e num base : ℕ) (field precision : ℤ) (f : Flags) (o : Out)
    → 2 ≤ base
    → base ≤ 36
    → number e num base field precision f o ≡ emit e (number_text f num base field precision) o
unfolding number
number-emit e num base field precision f o low high =
    let out_of : (ltb base 2 || ltb 36 base) ≡ false = ground arith in
    rw out_of (
      body-emit e num base field precision (left_aligned f) o
        (aligned_one f.zeropad f.sign f.plus f.space f.left f.special f.large)
      ∙ ap (λ (t : List ℕ). emit e t o)
          (aligned-text f.zeropad f.sign f.plus f.space f.left f.special f.large num base field
            precision))
