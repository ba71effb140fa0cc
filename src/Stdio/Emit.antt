-- ===== src/Stdio/Emit.antt =====
-- What every routine of the printer does: it prints a text, of which the part below the end is
-- written.
use yuzuos.Base.{
  ℕ, zero, suc, ◌+◌, ◌≤◌, ◌<◌, ◌≡◌, ◌⊎◌, refl, ◌∙◌, arith, true, false, ◌&&◌, List, [], ◌∷◌, ◌++◌,
  ltb, ◌==◌, length, inl, inr,
}
use yuzuos.Stdio.{Out, put, fill, put_back}

unfoldable pub emit : ℕ → List ℕ → Out → Out
emit end_at [] o = o
emit end_at (c ∷ cs) o = emit end_at cs (put end_at c o)

abbrev pub replicate : ℕ → ℕ → List ℕ
replicate zero c = []
replicate (suc n) c = c ∷ replicate n c

abbrev pub reverse_onto : List ℕ → List ℕ → List ℕ
reverse_onto [] ys = ys
reverse_onto (x ∷ xs) ys = reverse_onto xs (x ∷ ys)

pub emit-append : (e : ℕ) (xs ys : List ℕ) (o : Out) → emit e (xs ++ ys) o ≡ emit e ys (emit e xs o)
unfolding emit
emit-append e [] ys o = refl
emit-append e (x ∷ xs) ys o = emit-append e xs ys (put e x o)

pub fill-emit : (e c n : ℕ) (o : Out) → fill e c n o ≡ emit e (replicate n c) o
unfolding emit fill
fill-emit e c zero o = refl
fill-emit e c (suc n) o = fill-emit e c n (put e c o)

pub put_back-emit :
    (e : ℕ) (xs ys : List ℕ) (o : Out) → emit e ys (put_back e xs o) ≡ emit e (reverse_onto xs ys) o
unfolding emit put_back
put_back-emit e [] ys o = refl
put_back-emit e (x ∷ xs) ys o = put_back-emit e xs (x ∷ ys) o

pub at-emit : (e : ℕ) (xs : List ℕ) (o : Out) → (emit e xs o).at ≡ o.at + length xs
unfolding emit
at-emit e [] o = omega arith
at-emit e (x ∷ xs) o = omega (arith, at-emit e xs (put e x o))

put-off :
    (e x : ℕ) (o : Out) (p : ℕ)
    → (ltb o.at e && (p == o.at)) ≡ false
    → (put e x o).memory p ≡ o.memory p
put-off e x o p off = ground arith

-- Memory before the buffer and from the end on is left alone.
pub emit-off :
    (e : ℕ) (xs : List ℕ) (o : Out) (p : ℕ)
    → (p < o.at) ⊎ (e ≤ p)
    → (emit e xs o).memory p ≡ o.memory p
unfolding emit
emit-off e [] o p off = refl
emit-off e (x ∷ xs) o p off = elim off [
  | inl before ↦ emit-off e xs (put e x o) p (inl (omega arith)) ∙ put-off e x o p (ground arith)
  | inr behind ↦ emit-off e xs (put e x o) p (inr behind) ∙ put-off e x o p (ground arith)
]

-- So is memory behind the text.
pub emit-behind :
    (e : ℕ) (xs : List ℕ) (o : Out) (p : ℕ)
    → o.at + length xs ≤ p
    → (emit e xs o).memory p ≡ o.memory p
unfolding emit
emit-behind e [] o p behind = refl
emit-behind e (x ∷ xs) o p behind =
    emit-behind e xs (put e x o) p (omega arith) ∙ put-off e x o p (ground arith)

-- The character at a place, 0 behind the text.
abbrev pub char_at : List ℕ → ℕ → ℕ
char_at [] k = 0
char_at (x ∷ xs) zero = x
char_at (x ∷ xs) (suc k) = char_at xs k

-- Below the end stands the text.
pub emit-on :
    (e : ℕ) (xs : List ℕ) (o : Out) (k : ℕ)
    → k < length xs
    → o.at + k < e
    → (emit e xs o).memory (o.at + k) ≡ char_at xs k
unfolding emit
emit-on e [] o k here below = absurd (omega arith)
emit-on e (x ∷ xs) o zero here below =
    let first : o.at + 0 ≡ o.at = omega arith in
    let below' : ltb o.at e ≡ true = ground arith in
    emit-off e xs (put e x o) (o.at + 0) (inl (omega arith)) ∙ rw (below', first) (ground arith)
emit-on e (x ∷ xs) o (suc k) here below =
    let next : o.at + suc k ≡ o.at + 1 + k = omega arith in
    rw next (emit-on e xs (put e x o) k (omega arith) (omega arith))
