-- ===== src/Stdio/Print.antt =====
-- Each conversion prints a text that depends on the directive and its arguments, and not on the
-- buffer.
use yuzuos.Base.{
  ℕ, zero, suc, ◌+◌, ◌%◌, ◌≡◌, refl, sym, ◌∙◌, ap, arith, Bool, true, not, List, [], ◌∷◌, ◌++◌, ltb,
  ◌==◌, if◌then◌else◌, Bool-cases, inl, inr,
}
use yuzuos.Base.Int.{ℤ, pos, negsuc, pos_part, eqb_ℤ, sub_nat}
use yuzuos.Bitmap.{u32}
use yuzuos.Stdio.{Out, Flags, put, pad, number}
use yuzuos.Stdio.Emit.{emit, replicate, emit-append, fill-emit}
use yuzuos.Stdio.Text.{number_text}
use yuzuos.Stdio.Number.{number-emit, pad_if-emit, pad-emit}
use yuzuos.Stdio.Format.{Spec, head, tail, number_arg}
use yuzuos.Stdio.Run.{
  pre_pad_at, scan, put_text, put_char, put_string, put_pointer, put_number, base_of, flags_for,
  convert, null_text, is_number,
}

-- A printer that does the same as `emit` of one text.
abbrev pub IsPrinter : (ℕ → Out → Out) → Type 0
IsPrinter f = (t : List ℕ) × ((e : ℕ) (o : Out) → f e o ≡ emit e t o)

-- The first `n` characters that `put_text` prints.
abbrev pub prefix : ℕ → List ℕ → List ℕ
prefix zero s = []
prefix (suc n) s = head s ∷ prefix n (tail s)

put_text-emit : (e n : ℕ) (s : List ℕ) (o : Out) → put_text e n s o ≡ emit e (prefix n s) o
unfolding put_text emit
put_text-emit e zero s o = refl
put_text-emit e (suc n) s o = put_text-emit e n (tail s) (put e (head s) o)

abbrev left_of : ℤ → ℤ
left_of (pos n) = pos 0
left_of (negsuc n) = negsuc n

pre_pad_at-emit :
    (e : ℕ) (z : ℤ) (o : Out)
    → ((pre_pad_at e b' ' z o).1 ≡ emit e (replicate (pos_part z) b' ') o)
      × ((pre_pad_at e b' ' z o).0 ≡ left_of z)
unfolding pre_pad_at emit
pre_pad_at-emit e (pos n) o = (fill-emit e b' ' n o, refl)
pre_pad_at-emit e (negsuc n) o = (refl, refl)

put-emit : (e c : ℕ) (o : Out) → put e c o ≡ emit e (c ∷ []) o
unfolding emit
put-emit e c o = refl

char_right :
    (e c : ℕ) (field : ℤ) (o : Out)
    → (let p1 = pre_pad_at e b' ' (sub_nat field 1) o in
        (pre_pad_at e b' ' (sub_nat p1.0 1) (put e c p1.1)).1)
      ≡ emit e
          (replicate (pos_part (sub_nat field 1)) b' '
            ++ c ∷ replicate (pos_part (sub_nat (left_of (sub_nat field 1)) 1)) b' ')
          o
char_right e c field o =
    let z = sub_nat field 1 in
    let blanks = replicate (pos_part z) b' ' in
    let p1 = pre_pad_at e b' ' z o in
    let first = pre_pad_at-emit e z o in
    let rest = λ (y : ℤ). replicate (pos_part (sub_nat y 1)) b' ' in
    (pre_pad_at-emit e (sub_nat p1.0 1) (put e c p1.1)).0
    ∙ ap (λ (y : ℤ). emit e (rest y) (put e c p1.1)) first.1
    ∙ ap (λ (x : Out). emit e (rest (left_of z)) (put e c x)) first.0
    ∙ ap (emit e (rest (left_of z))) (put-emit e c (emit e blanks o))
    ∙ sym (emit-append e (c ∷ []) (rest (left_of z)) (emit e blanks o))
    ∙ sym (emit-append e blanks (c ∷ rest (left_of z)) o)

put_char-IsPrinter : (ch : ℕ) (d : Spec) → IsPrinter (λ e o. put_char e ch d o)
unfolding put_char emit
put_char-IsPrinter ch d = elim (Bool-cases d.flags.left) [
  | inl left ↦ (
    ch % 256 ∷ replicate (pos_part (sub_nat d.field 1)) b' ',
    λ e o. rw left (pre_pad_at-emit e (sub_nat d.field 1) (put e (ch % 256) o)).0,
  )
  | inr right ↦ (
    replicate (pos_part (sub_nat d.field 1)) b' '
        ++ ch % 256 ∷ replicate (pos_part (sub_nat (left_of (sub_nat d.field 1)) 1)) b' ',
    λ e o. rw right (char_right e (ch % 256) d.field o),
  )
]

string_chain :
    (e n : ℕ) (s : List ℕ) (excess : ℤ) (b : Bool) (z : ℤ) (x o : Out)
    → x ≡ emit e (if b then replicate (pos_part excess) b' ' else []) o
    → pos_part z ≡ (if b then 0 else pos_part excess)
    → emit e (replicate (pos_part z) b' ') (put_text e n s x)
      ≡ emit e
          ((if b then replicate (pos_part excess) b' ' else [])
            ++ (prefix n s ++ replicate (if b then 0 else pos_part excess) b' '))
          o
string_chain e n s excess b z x o ex ez =
    let front = if b then replicate (pos_part excess) b' ' else [] in
    let back = replicate (if b then 0 else pos_part excess) b' ' in
    ap (λ (k : ℕ). emit e (replicate k b' ') (put_text e n s x)) ez
    ∙ ap (λ (y : Out). emit e back (put_text e n s y)) ex
    ∙ ap (emit e back) (put_text-emit e n s (emit e front o))
    ∙ sym (emit-append e (prefix n s) back (emit e front o))
    ∙ sym (emit-append e front (prefix n s ++ back) o)

put_string-IsPrinter : (s : List ℕ) (d : Spec) → IsPrinter (λ e o. put_string e s d o)
unfolding put_string
put_string-IsPrinter s d =
    let n = scan d.precision s in
    let excess = sub_nat d.field n in
    let b = not d.flags.left in
    (
      (if b then replicate (pos_part excess) b' ' else [])
          ++ (prefix n s ++ replicate (if b then 0 else pos_part excess) b' '),
      λ e o.
          (let r = pad_if-emit e b' ' b excess o in
            let p1 : ℤ × Out = if b then pad e b' ' excess o else (excess, o) in
            pad-emit e b' ' p1.0 (put_text e n s p1.1)
            ∙ string_chain e n s excess b p1.0 p1.1 o r.0 r.1),
    )

number-IsPrinter :
    (num c : ℕ) (field precision : ℤ) (f : Flags)
    → IsPrinter (λ e o. number e num (base_of c) field precision f o)
number-IsPrinter num c field precision f = (
  number_text f num (base_of c) field precision,
  λ e o. number-emit e num (base_of c) field precision f o (ground arith) (ground arith),
)

put_pointer-IsPrinter : (ptr : ℕ) (d : Spec) → IsPrinter (λ e o. put_pointer e ptr d o)
unfolding put_pointer
put_pointer-IsPrinter ptr d =
    let f = d.flags in
    elim (Bool-cases (eqb_ℤ d.field (negsuc 0))) [
      | inl unset ↦ (
        number_text (record f { zeropad = true }) ptr 16 (pos 8) d.precision,
        λ e o. rw unset (
            number-emit e ptr 16 (pos 8) d.precision (record f { zeropad = true }) o (omega arith)
              (omega arith)),
      )
      | inr given ↦ (
        number_text f ptr 16 d.field d.precision,
        λ e o. rw given (number-emit e ptr 16 d.field d.precision f o (omega arith) (omega arith)),
      )
    ]

-- What a directive prints, and the next argument behind it, by the directive and the argument.
abbrev pub IsConversion : (words : ℕ → ℕ) (texts : ℕ → List ℕ) → Spec → (c ap : ℕ) → Type 0
IsConversion words texts d c ap =
    (t : List ℕ) × (n : ℕ) × ((str e : ℕ) (o : Out) (stores : List (ℕ × ℕ))
      → let r = convert words texts str e d c (record { out = o; ap = ap; stores = stores }) in
        (r.out ≡ emit e t o) × (r.ap ≡ n))

module _ (words : ℕ → ℕ) (texts : ℕ → List ℕ) (d : Spec) (c ap : ℕ) where
  number-IsConversion :
      (t : List ℕ) × (n : ℕ) × ((str e : ℕ) (o : Out) (stores : List (ℕ × ℕ))
        → let r = put_number words texts str e c d (record { out = o; ap = ap; stores = stores }) in
          (r.out ≡ emit e t o) × (r.ap ≡ n))
  unfolding put_number
  number-IsConversion =
      let f = flags_for c d.flags in
      let n = number_arg words (record d { flags = f }) ap in
      let p = number-IsPrinter n.0 c d.field d.precision f in
      (p.0, n.1, λ str e o stores. (p.1 e o, refl))

  pub convert-IsConversion : IsConversion words texts d c ap
  unfolding convert emit
  convert-IsConversion =
      let w = u32 (words ap) in
      let string = if ltb w 4096 then null_text else texts w in
      elim (Bool-cases (c == b'c')) [
        | inl e1 ↦
            let p = put_char-IsPrinter w d in (p.0, ap + 1, λ str e o stores. rw e1 (p.1 e o, refl))
        | inr n1 ↦ elim (Bool-cases (c == b's')) [
          | inl e2 ↦
              let p = put_string-IsPrinter string d in
              (p.0, ap + 1, λ str e o stores. rw (n1, e2) (p.1 e o, refl))
          | inr n2 ↦ elim (Bool-cases (c == b'p')) [
            | inl e3 ↦
                let p = put_pointer-IsPrinter w d in
                (p.0, ap + 1, λ str e o stores. rw (n1, n2, e3) (p.1 e o, refl))
            | inr n3 ↦ elim (Bool-cases (c == b'n')) [
              | inl e4 ↦ ([], ap + 1, λ str e o stores. rw (n1, n2, n3, e4) (refl, refl))
              | inr n4 ↦ elim (Bool-cases (c == b'%')) [
                | inl e5 ↦ (b'%' ∷ [], ap, λ str e o stores. rw (n1, n2, n3, n4, e5) (refl, refl))
                | inr n5 ↦ elim (Bool-cases (is_number c)) [
                  | inl e6 ↦
                      let p = number-IsConversion in
                      (p.0, p.1, λ str e o stores. rw (n1, n2, n3, n4, n5, e6) (p.2 str e o stores))
                  | inr n6 ↦ elim (Bool-cases (c == 0)) [
                    | inl e7 ↦ (
                      b'%' ∷ [],
                      ap,
                      λ str e o stores. rw (n1, n2, n3, n4, n5, n6, e7) (refl, refl),
                    )
                    | inr n7 ↦ (
                      b'%' ∷ c ∷ [],
                      ap,
                      λ str e o stores. rw (n1, n2, n3, n4, n5, n6, n7) (refl, refl),
                    )
                  ]
                ]
              ]
            ]
          ]
        ]
      ]
