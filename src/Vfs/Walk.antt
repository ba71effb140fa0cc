-- ===== src/Vfs/Walk.antt =====
-- The walk along a path is the walk over its names, and what it gives for entries that are there.
use yuzuos.Base.{
  ℕ, zero, suc, ◌<◌, ◌≤◌, ◌≡◌, refl, sym, ap, ◌∙◌, arith, Bool, true, false, Option, some, ◌==◌,
  if◌then◌else◌, List, [], ◌∷◌, ◌++◌, length, Bool-cases, inl, inr,
}
use mathlib.Core.List.{append_assoc, append-nil}
use mathlib.Core.Path.{fun_ext, subst}
use mathlib.Core.Option.{bind}
use yuzuos.Base.Int.{pos}
use yuzuos.Vfs.{Driver, Vfs, slash}
use yuzuos.Vfs.Path.{
  Namei, Reached, take_name, drop_name, skip_slashes, is_end, stopped, enter_name, go_on, find_from,
  start_of, path_find, fits,
}

-- A name that has been read, if it is not empty, in front of the later ones.
abbrev pub flush : List ℕ → List (List ℕ) → List (List ℕ)
flush [] rest = rest
flush (x ∷ xs) rest = (x ∷ xs) ∷ rest

-- The names of a path, `name` being what has been read of the first.
unfoldable pub names_from : (name : List ℕ) → List ℕ → List (List ℕ)
names_from name [] = flush name []
names_from name (c ∷ cs) =
    let rest = names_from (name ++ c ∷ []) cs in
    if c == slash then flush name (names_from [] cs) else rest

-- The names between the slashes of a path, without the empty ones.
unfoldable pub names_of : List ℕ → List (List ℕ)
unfolding names_from
names_of path = names_from [] path

abbrev pub has_no_name : List (List ℕ) → Bool
has_no_name [] = true
has_no_name (n ∷ ns) = false

-- The walk over names.
unfoldable pub walk : (drv : Driver) (flags mode : ℕ) → List (List ℕ) → Namei → Vfs → Option Reached
walk drv flags mode [] at s = some (stopped (pos 0) at s)
walk drv flags mode (n ∷ ns) at s =
    bind (enter_name drv flags mode (has_no_name ns) n at s) (go_on (walk drv flags mode ns))

-- Every name fits into the array.
abbrev pub AllFit : List (List ℕ) → Type 0
AllFit [] = Unit {0}
AllFit (n ∷ ns) = (fits n ≡ true) × AllFit ns

-- The path does not begin with a slash.
abbrev StartsName : List ℕ → Type 0
StartsName [] = Unit {0}
StartsName (c ∷ cs) = (c == slash) ≡ false

skip_slashes-StartsName : (p : List ℕ) → StartsName (skip_slashes p)
unfolding skip_slashes
skip_slashes-StartsName [] = tt
skip_slashes-StartsName (c ∷ cs) = elim (Bool-cases (c == slash)) [
  | inl here ↦ rw here (skip_slashes-StartsName cs)
  | inr other ↦ rw other other
]

names-skip_slashes : (p : List ℕ) → names_from [] (skip_slashes p) ≡ names_from [] p
unfolding names_from skip_slashes
names-skip_slashes [] = refl
names-skip_slashes (c ∷ cs) = elim (Bool-cases (c == slash)) [
  | inl here ↦ rw here (names-skip_slashes cs)
  | inr other ↦ rw (other, other) refl
]

names-drop_name :
    (n p : List ℕ) → names_from n p ≡ flush (n ++ take_name p) (names_from [] (drop_name p))
unfolding names_from take_name drop_name
names-drop_name n [] = rw (append-nil n) refl
names-drop_name n (c ∷ cs) = elim (Bool-cases (c == slash)) [
  | inl here ↦ rw (here, append-nil n, here) refl
  | inr other ↦
      rw other (names-drop_name (n ++ c ∷ []) cs ∙ rw (append_assoc n (c ∷ []) (take_name cs)) refl)
]

-- What is left of a path behind its first name.
abbrev left_of : List ℕ → List ℕ
left_of p = skip_slashes (drop_name p)

names-left_of :
    (c : ℕ) (cs : List ℕ)
    → (c == slash) ≡ false
    → names_from [] (c ∷ cs) ≡ take_name (c ∷ cs) ∷ names_from [] (left_of (c ∷ cs))
unfolding take_name
names-left_of c cs other =
    names-drop_name [] (c ∷ cs)
    ∙ rw other (
        ap (λ (r : List (List ℕ)). (c ∷ take_name cs) ∷ r)
          (sym (names-skip_slashes (drop_name (c ∷ cs)))))

is_end-names : (p : List ℕ) → StartsName p → is_end p ≡ has_no_name (names_from [] p)
unfolding names_from
is_end-names [] st = refl
is_end-names (c ∷ cs) st = rw (names-left_of c cs st) refl

skip_slashes-length : (p : List ℕ) → length (skip_slashes p) ≤ length p
unfolding skip_slashes
skip_slashes-length [] = omega arith
skip_slashes-length (c ∷ cs) = ground (arith, skip_slashes-length cs)

drop_name-length : (p : List ℕ) → length (drop_name p) ≤ length p
unfolding drop_name
drop_name-length [] = omega arith
drop_name-length (c ∷ cs) = ground (arith, drop_name-length cs)

left_of-length :
    (c : ℕ) (cs : List ℕ) → (c == slash) ≡ false → length (left_of (c ∷ cs)) ≤ length cs
unfolding drop_name
left_of-length c cs other =
    rw other (omega (arith, skip_slashes-length (drop_name cs), drop_name-length cs))

module _ (drv : Driver) (flags mode : ℕ) where
  find_from-walk :
      (fuel : ℕ) (p : List ℕ) (at : Namei) (s : Vfs)
      → StartsName p
      → length p < fuel
      → AllFit (names_from [] p)
      → find_from drv flags mode fuel p at s ≡ walk drv flags mode (names_from [] p) at s
  unfolding find_from walk
  find_from-walk zero p at s st enough short = absurd (omega arith)
  find_from-walk (suc fuel) [] at s st enough short = unfold names_from in refl
  find_from-walk (suc fuel) (c ∷ cs) at s st enough short =
      let left = left_of (c ∷ cs) in
      let starts = skip_slashes-StartsName (drop_name (c ∷ cs)) in
      let shorter : length left < fuel = omega (arith, left_of-length c cs st) in
      let parts : AllFit (take_name (c ∷ cs) ∷ names_from [] left) =
        subst AllFit (names-left_of c cs st) short in
      let rest : find_from drv flags mode fuel left ≡ walk drv flags mode (names_from [] left) =
        fun_ext (λ a. fun_ext (λ t. find_from-walk fuel left a t starts shorter parts.1)) in
      rw (names-left_of c cs st, is_end-names left starts, rest, parts.0) refl

  -- Where every name of a path has less than 256 characters, `virt_fs_path_find` takes no more
  -- rounds than the path has characters, and is the walk over the names between the slashes of the path, the last of them taken as the end:
  -- from the mount point of the process where the path begins with a slash, and else from its root.
  pub path_find-walk :
      (fuel : ℕ) (path : List ℕ) (s : Vfs)
      → length path < fuel
      → AllFit (names_of path)
      → path_find drv flags mode fuel path s
        ≡ walk drv flags mode (names_of path) (start_of path s) s
  unfolding path_find names_of
  path_find-walk fuel path s enough short =
      find_from-walk fuel (skip_slashes path) (start_of path s) s (skip_slashes-StartsName path)
        (omega (arith, skip_slashes-length path))
        (subst AllFit (sym (names-skip_slashes path)) short)
      ∙ rw (names-skip_slashes path) refl
