-- ===== src/Base/Search.antt =====
-- The least number of a range that passes a test, and what is known of the outcome.
use Prim.Native.Nat.{ℕ, zero, suc, ◌+◌, ◌≤◌, ◌<◌}
use Prim.Native.Nat.add
use mathlib.Core.Path.{◌≡◌, refl}
use mathlib.Core.Logic.{inl, inr}
use mathlib.Core.Bool.{Bool, true, false}
use mathlib.Core.Option.{Option, none, some}
use native.Mathlib.Omega.{arith}
use yuzuos.Base.Tests.{if◌then◌else◌, Bool-cases}

-- The least of `i`, …, `i + n - 1` that passes.
unfoldable pub find : (ℕ → Bool) → ℕ → ℕ → Option ℕ
find p zero i = none
find p (suc n) i = let rest = find p n (i + 1) in if p i then some i else rest

-- The first outcome, or the second where the first is none.
abbrev pub or_else {ℓ} : {A : Type ℓ} → Option A → Option A → Option A
or_else none d = d
or_else (some x) d = some x

pub find-add :
    (p : ℕ → Bool) (m n i k : ℕ) → i + m ≡ k → find p (m + n) i ≡ or_else (find p m i) (find p n k)
unfolding find
find-add p zero n i k e = ground (arith)
find-add p (suc m) n i k e =
    rw (add.suc m n) (ground (arith, find-add p m n (i + 1) k (omega arith)))

-- What is found passes, lies in the range, and nothing before it passes.
pub find-some :
    (p : ℕ → Bool) (n i : ℕ) {x : ℕ}
    → find p n i ≡ some x
    → (p x ≡ true) × (i ≤ x) × (x < i + n) × ((y : ℕ) → i ≤ y → y < x → p y ≡ false)
unfolding find
find-some p zero i h = absurd (cc)
find-some p (suc n) i {x} h = elim (Bool-cases (p i)) [
  | inl hit ↦
      let e : i ≡ x = ground arith in
      (ground arith, omega arith, omega arith, λ y a b. absurd (omega arith))
  | inr miss ↦
      let rest = find-some p n (i + 1) {x = x} (ground arith) in
      (rest.0, omega arith, omega arith, λ y a b. ground (arith, rest.3 y))
]

-- Nothing is found exactly where nothing passes.
pub find-none :
    (p : ℕ → Bool) (n i : ℕ) → ((y : ℕ) → i ≤ y → y < i + n → p y ≡ false) → find p n i ≡ none
unfolding find
find-none p zero i h = refl
find-none p (suc n) i h =
    ground (arith, h i, find-none p n (i + 1) (λ y a b. h y (omega arith) (omega arith)))

pub find-eq_none :
    (p : ℕ → Bool) (n i : ℕ) → find p n i ≡ none → (y : ℕ) → i ≤ y → y < i + n → p y ≡ false
unfolding find
find-eq_none p zero i h y a b = absurd (omega arith)
find-eq_none p (suc n) i h y a b = elim (Bool-cases (p i)) [
  | inl hit ↦ absurd (ground arith)
  | inr miss ↦ ground (arith, find-eq_none p n (i + 1) (ground arith) y)
]

pub find-least :
    (p : ℕ → Bool) (n i x : ℕ)
    → p x ≡ true
    → i ≤ x
    → x < i + n
    → ((y : ℕ) → i ≤ y → y < x → p y ≡ false)
    → find p n i ≡ some x
unfolding find
find-least p zero i x h a b c = absurd (omega arith)
find-least p (suc n) i x h a b c = elim (Bool-cases (p i)) [
  | inl hit ↦ ground (arith, c i)
  | inr miss ↦
      rw miss
        (find-least p n (i + 1) x h (ground arith) (omega arith) (λ y u v. c y (omega arith) v))
]
