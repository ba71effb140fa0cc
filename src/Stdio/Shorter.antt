-- ===== src/Stdio/Shorter.antt =====
-- Every part of a directive leaves a rest of the format that is not longer.
use yuzuos.Base.{ℕ, ◌+◌, ◌-◌, ◌*◌, ◌≤◌, arith, List, [], ◌∷◌, length, Bool-cases, inl, inr}
use yuzuos.Base.Int.{negsuc}
use yuzuos.Stdio.{Flags, no_flags}
use yuzuos.Stdio.Format.{
  Spec, is_flag, flag_add, tail, atoi, take_flags, take_field, take_precision, take_qualifier,
  parse,
}

pub length-tail : (s : List ℕ) → length (tail s) ≤ length s
length-tail [] = omega arith
length-tail (c ∷ cs) = omega arith

length-atoi : (i : ℕ) (s : List ℕ) → length (atoi i s).1 ≤ length s
unfolding atoi
length-atoi i [] = omega arith
length-atoi i (c ∷ cs) = ground (arith, length-atoi (i * 10 + (c - b'0')) cs)

length-take_flags : (f : Flags) (s : List ℕ) → length (take_flags f s).1 ≤ length s
unfolding take_flags
length-take_flags f [] = omega arith
length-take_flags f (c ∷ cs) = elim (Bool-cases (is_flag c)) [
  | inl found ↦ let rest = length-take_flags (flag_add c f) cs in rw found (omega (arith, rest))
  | inr other ↦ rw other (omega arith)
]

module _ (words : ℕ → ℕ) (d : Spec) (ap : ℕ) (s : List ℕ) where
  length-take_field : length (take_field words d ap s).2 ≤ length s
  unfolding take_field
  length-take_field = ground (arith, length-atoi 0 s, length-tail s)

  length-take_precision : length (take_precision words d ap s).2 ≤ length s
  unfolding take_precision
  length-take_precision =
      ground (arith, length-atoi 0 (tail s), length-tail s, length-tail (tail s))

  length-take_qualifier : length (take_qualifier words d ap s).2 ≤ length s
  unfolding take_qualifier
  length-take_qualifier = ground (arith, length-tail s, length-tail (tail s))

three : {a b c d e : ℕ} → a ≤ b → b ≤ c → c ≤ d → d ≤ e → a ≤ e
three ab bc cd de = omega arith

pub length-parse : (words : ℕ → ℕ) (ap : ℕ) (s : List ℕ) → length (parse words ap s).2 ≤ length s
unfolding parse
length-parse words ap s =
    let p0 = take_flags no_flags s in
    let d0 : Spec = record {
      flags = p0.0;
      field = negsuc 0;
      precision = negsuc 0;
      qualifier = 0;
    } in
    let p1 = take_field words d0 ap p0.1 in
    let p2 = take_precision words p1.0 p1.1 p1.2 in
    let l0 = length-take_flags no_flags s in
    let l1 = length-take_field words d0 ap p0.1 in
    let l2 = length-take_precision words p1.0 p1.1 p1.2 in
    let l3 = length-take_qualifier words p2.0 p2.1 p2.2 in three l3 l2 l1 l0
