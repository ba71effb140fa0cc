-- ===== src/Strings.antt =====
-- kernel/utils/string.c: bytes copied and set in memory.
-- Memory is a function from the address to the byte.
use yuzuos.Base.{
  ℕ, zero, suc, ◌+◌, ◌-◌, ◌%◌, ◌≤◌, ◌≡◌, ◌⊎◌, refl, ◌∙◌, arith, Bool, true, false, ◌&&◌, ltb, leb,
  ◌==◌, if◌then◌else◌, update, Bool-cases, inl, inr, ==_iff,
}

-- The loops, `left` rounds before their end.
unfoldable pub copy_from : (left i dest src : ℕ) → (ℕ → ℕ) → ℕ → ℕ
copy_from zero i dest src m = m
copy_from (suc left) i dest src m =
    copy_from left (i + 1) dest src (update m (dest + i) (m (src + i)))

unfoldable pub set_from : (left i str c : ℕ) → (ℕ → ℕ) → ℕ → ℕ
set_from zero i str c m = m
set_from (suc left) i str c m = set_from left (i + 1) str c (update m (str + i) (c % 256))

unfoldable pub memcpy : (dest src n : ℕ) → (ℕ → ℕ) → ℕ → ℕ
unfolding copy_from
memcpy dest src n m = copy_from n 0 dest src m

unfoldable pub memset : (str c n : ℕ) → (ℕ → ℕ) → ℕ → ℕ
unfolding set_from
memset str c n m = set_from n 0 str c m

-- A range of addresses.
abbrev pub is_in : (base n a : ℕ) → Bool
is_in base n a = leb base a && ltb a (base + n)

set_from_lem :
    (left i str c : ℕ) (m : ℕ → ℕ) (a : ℕ)
    → set_from left i str c m a ≡ (if is_in (str + i) left a then c % 256 else m a)
unfolding set_from
set_from_lem zero i str c m a = ground arith
set_from_lem (suc left) i str c m a =
    set_from_lem left (i + 1) str c (update m (str + i) (c % 256)) a ∙ ground arith

pub memset_lem :
    (str c n : ℕ) (m : ℕ → ℕ) (a : ℕ)
    → memset str c n m a ≡ (if is_in str n a then c % 256 else m a)
unfolding memset
memset_lem str c n m a = set_from_lem n 0 str c m a ∙ ground arith

-- No byte that is still to be read is among those that are written.
abbrev pub AreApart : (dest src n : ℕ) → Type 0
AreApart dest src n = (dest + n ≤ src) ⊎ (src + n ≤ dest)

copy_from_lem :
    (left i dest src : ℕ) (m : ℕ → ℕ) (a : ℕ)
    → AreApart dest src (i + left)
    → copy_from left i dest src m a
      ≡ (if is_in (dest + i) left a then m (src + (a - dest)) else m a)
unfolding copy_from
copy_from_lem zero i dest src m a apart = ground arith
copy_from_lem (suc left) i dest src m a apart =
    let m' = update m (dest + i) (m (src + i)) in
    let rest : i + 1 + left ≡ i + suc left = omega arith in
    copy_from_lem left (i + 1) dest src m' a (rw rest apart) ∙ elim (Bool-cases (a == dest + i)) [
      | inl same ↦
          let at : a ≡ dest + i = (==_iff a (dest + i)).0 same in
          let back : a - dest ≡ i = omega (arith, at) in
          let c1 : is_in (dest + (i + 1)) left a ≡ false = ground (arith, at) in
          let c2 : is_in (dest + i) (suc left) a ≡ true = ground (arith, at) in
          rw (c1, c2, same, back) refl
      | inr other ↦ elim (Bool-cases (is_in (dest + (i + 1)) left a)) [
        | inl later ↦
            let c2 : is_in (dest + i) (suc left) a ≡ true = ground arith in
            let unread : (src + (a - dest) == dest + i) ≡ false = ground arith in
            rw (later, c2, unread) refl
        | inr outside ↦
            let c2 : is_in (dest + i) (suc left) a ≡ false = ground arith in
            rw (outside, c2, other) refl
      ]
    ]

pub memcpy_lem :
    (dest src n : ℕ) (m : ℕ → ℕ) (a : ℕ)
    → AreApart dest src n
    → memcpy dest src n m a ≡ (if is_in dest n a then m (src + (a - dest)) else m a)
unfolding memcpy
memcpy_lem dest src n m a apart =
    let all : 0 + n ≡ n = omega arith in
    let start : dest + 0 ≡ dest = omega arith in
    copy_from_lem n 0 dest src m a (rw all apart) ∙ rw start refl
