-- ===== src/Base/Distinct.antt =====
-- Membership of numbers in lists as a Boolean, and lists without repetition.
use Prim.Native.Nat.{ℕ}
use mathlib.Core.Path.{◌≡◌, refl, ap}
use mathlib.Core.Logic.{inl, inr}
use mathlib.Core.Bool.{Bool, true, false, ◌||◌}
use mathlib.Core.List.{List, [], ◌∷◌, ◌++◌}
use native.Mathlib.Omega.{arith}
use yuzuos.Base.Lists.{last}
use yuzuos.Base.Tests.{◌==◌, ==_iff, Bool-cases}

abbrev pub has : ℕ → List ℕ → Bool
has c [] = false
has c (x ∷ xs) = (c == x) || has c xs

-- No number stands twice in the list.
abbrev pub Distinct : List ℕ → Type 0
Distinct [] = Unit {0}
Distinct (x ∷ xs) = (has x xs ≡ false) × Distinct xs

-- No number of the first list stands in the second.
abbrev pub Apart : List ℕ → List ℕ → Type 0
Apart [] ys = Unit {0}
Apart (x ∷ xs) ys = (has x ys ≡ false) × Apart xs ys

-- The list without its last element, which `last` gives.
abbrev pub but_last : ℕ → List ℕ → List ℕ
but_last a [] = []
but_last a (x ∷ xs) = a ∷ but_last x xs

pub has-append : (c : ℕ) (xs ys : List ℕ) → has c (xs ++ ys) ≡ (has c xs || has c ys)
has-append c [] ys = refl
has-append c (x ∷ xs) ys = ground (arith, has-append c xs ys)

-- What is not in a list differs from what is.
pub has-ne : (a b : ℕ) (xs : List ℕ) → has a xs ≡ false → has b xs ≡ true → (b == a) ≡ false
has-ne a b xs out within = elim (Bool-cases (b == a)) [
  | inl same ↦ absurd (ground (arith, ap (λ (c : ℕ). has c xs) ((==_iff b a).0 same)))
  | inr other ↦ other
]

pub has-last : (a : ℕ) (xs : List ℕ) → has (last a xs) (a ∷ xs) ≡ true
has-last a [] = ground arith
has-last a (x ∷ xs) = ground (arith, has-last x xs)

pub has-but_last : (c a : ℕ) (xs : List ℕ) → has c (a ∷ xs) ≡ false → has c (but_last a xs) ≡ false
has-but_last c a [] h = refl
has-but_last c a (x ∷ xs) h = ground (arith, has-but_last c x xs)

pub has-but_last-last :
    (a : ℕ) (xs : List ℕ) → Distinct (a ∷ xs) → has (last a xs) (but_last a xs) ≡ false
has-but_last-last a [] d = refl
has-but_last-last a (x ∷ xs) d =
    ground (arith, has-but_last-last x xs d.1, has-last x xs, has-ne a (last x xs) (x ∷ xs))

pub Distinct-append :
    (xs ys : List ℕ) → Distinct xs → Distinct ys → Apart xs ys → Distinct (xs ++ ys)
Distinct-append [] ys dx dy apart = dy
Distinct-append (x ∷ xs) ys dx dy apart =
    (ground (arith, has-append x xs ys), Distinct-append xs ys dx.1 dy apart.1)

pub Distinct-left : (xs ys : List ℕ) → Distinct (xs ++ ys) → Distinct xs
Distinct-left [] ys d = tt
Distinct-left (x ∷ xs) ys d = (ground (arith, has-append x xs ys), Distinct-left xs ys d.1)

pub Distinct-right : (xs ys : List ℕ) → Distinct (xs ++ ys) → Distinct ys
Distinct-right [] ys d = d
Distinct-right (x ∷ xs) ys d = Distinct-right xs ys d.1

pub Apart-append : (xs ys : List ℕ) → Distinct (xs ++ ys) → Apart xs ys
Apart-append [] ys d = tt
Apart-append (x ∷ xs) ys d = (ground (arith, has-append x xs ys), Apart-append xs ys d.1)

-- What stands in the first list does not stand in the second.
pub not-has : (c : ℕ) (xs ys : List ℕ) → Apart xs ys → has c xs ≡ true → has c ys ≡ false
not-has c [] ys apart h = absurd (ground arith)
not-has c (x ∷ xs) ys apart h = ground (arith, not-has c xs ys apart.1)

pub Apart-symm : (xs ys : List ℕ) → Apart xs ys → Apart ys xs
Apart-symm xs [] apart = tt
Apart-symm xs (y ∷ ys) apart = (not_in xs apart, Apart-symm xs ys (rest xs apart))
  where
    not_in : (zs : List ℕ) → Apart zs (y ∷ ys) → has y zs ≡ false
    not_in [] a = refl
    not_in (z ∷ zs) a = ground (arith, not_in zs a.1)

    rest : (zs : List ℕ) → Apart zs (y ∷ ys) → Apart zs ys
    rest [] a = tt
    rest (z ∷ zs) a = (ground arith, rest zs a.1)

-- A list is apart from one more number that it does not hold.
pub Apart-cons : (xs ys : List ℕ) (y : ℕ) → has y xs ≡ false → Apart xs ys → Apart xs (y ∷ ys)
Apart-cons [] ys y out apart = tt
Apart-cons (x ∷ xs) ys y out apart =
    (ground (arith, apart.0), Apart-cons xs ys y (ground arith) apart.1)

pub Apart-nil : (xs : List ℕ) → Apart xs []
Apart-nil [] = tt
Apart-nil (x ∷ xs) = (refl, Apart-nil xs)

-- Numbers that differ do so both ways round.
pub ne_symm : (a b : ℕ) → (a == b) ≡ false → (b == a) ≡ false
ne_symm a b h = ground arith

pub Apart-tail : (xs ys : List ℕ) (y : ℕ) → Apart xs (y ∷ ys) → Apart xs ys
Apart-tail [] ys y apart = tt
Apart-tail (x ∷ xs) ys y apart = (ground (arith, apart.0), Apart-tail xs ys y apart.1)

-- The other way round from `not-has`.
pub Apart-of : (xs ys : List ℕ) → ((c : ℕ) → has c xs ≡ true → has c ys ≡ false) → Apart xs ys
Apart-of [] ys f = tt
Apart-of (x ∷ xs) ys f = (f x (ground arith), Apart-of xs ys (λ c h. f c (ground arith)))

-- Apart from a list is apart from what is left of it without one element.
pub Apart-drop : (zs xs ys : List ℕ) (e : ℕ) → Apart zs (xs ++ e ∷ ys) → Apart zs (xs ++ ys)
Apart-drop zs xs ys e apart = Apart-of zs (xs ++ ys) (λ c h.
    ground
      (arith, not-has c zs (xs ++ e ∷ ys) apart h, has-append c xs (e ∷ ys), has-append c xs ys))

pub Apart-append_right : (xs ys zs : List ℕ) → Apart xs ys → Apart xs zs → Apart xs (ys ++ zs)
Apart-append_right xs ys zs a b =
    Apart-of xs (ys ++ zs)
      (λ c h. ground (arith, has-append c ys zs, not-has c xs ys a h, not-has c xs zs b h))

pub Apart-left : (xs ys zs : List ℕ) → Apart xs (ys ++ zs) → Apart xs ys
Apart-left xs ys zs a =
    Apart-of xs ys (λ c h. ground (arith, has-append c ys zs, not-has c xs (ys ++ zs) a h))

pub Apart-right : (xs ys zs : List ℕ) → Apart xs (ys ++ zs) → Apart xs zs
Apart-right xs ys zs a =
    Apart-of xs zs (λ c h. ground (arith, has-append c ys zs, not-has c xs (ys ++ zs) a h))

pub eq_refl : (a : ℕ) → (a == a) ≡ true
eq_refl a = ground arith
