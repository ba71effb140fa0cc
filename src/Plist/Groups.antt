-- ===== src/Plist/Groups.antt =====
-- What a priority list stands for: groups of nodes of one priority, in rising order.
use yuzuos.Base.{
  ◌≡◌, refl, sym, ◌∙◌, ap, Bool, true, false, List, [], ◌∷◌, ◌++◌, map, arith, if◌then◌else◌,
  Bool-cases, inl, inr,
}
use mathlib.Core.List.{append_assoc}
use yuzuos.Base.Int.{ℤ, ltb_ℤ, eqb_ℤ}
use yuzuos.Base.Distinct.{Apart}
use yuzuos.DList.{Ptr, Mem}
use yuzuos.DList.Segment.{IsRing}
use yuzuos.Plist.{Store, node_list, prio_list}

-- The first node of a priority, and the later ones.
abbrev pub Group : Type 0
Group = Ptr × List Ptr

-- The links of all nodes, and those of the first nodes of each group.
abbrev pub nodes : List Group → List Ptr
nodes [] = []
nodes ((l, ms) ∷ gs) = node_list l ∷ (map node_list ms ++ nodes gs)

abbrev pub tops : List Group → List Ptr
tops [] = []
tops ((l, ms) ∷ gs) = prio_list l ∷ tops gs

-- All nodes of a list have the priority `p`.
abbrev pub AllAt : (Ptr → ℤ) → ℤ → List Ptr → Type 0
AllAt f p [] = Unit {0}
AllAt f p (x ∷ xs) = (eqb_ℤ (f x) p ≡ true) × AllAt f p xs

-- The next group, where there is one, has a higher priority.
abbrev pub IsAbove : (Ptr → ℤ) → ℤ → List Group → Type 0
IsAbove f p [] = Unit {0}
IsAbove f p ((l, ms) ∷ gs) = ltb_ℤ p (f l) ≡ true

abbrev pub IsOrdered : (Ptr → ℤ) → List Group → Type 0
IsOrdered f [] = Unit {0}
IsOrdered f ((l, ms) ∷ gs) = AllAt f (f l) ms × IsAbove f (f l) gs × IsOrdered f gs

-- A ring without a head of its own.
abbrev pub IsHeadless : Mem → List Ptr → Type 0
IsHeadless m [] = Unit {0}
IsHeadless m (t ∷ ts) = IsRing m t ts

pub record IsPlist (s : Store) (head : Ptr) (gs : List Group) : Type 0 where
  pub node_ring : IsRing s.links head (nodes gs)
  pub prio_ring : IsHeadless s.links (tops gs)
  pub apart : Apart (head ∷ nodes gs) (tops gs)
  pub ordered : IsOrdered s.prio gs

-- A node put behind the nodes of its priority, or in a new group of its own.
unfoldable pub insert : (Ptr → ℤ) → Ptr → List Group → List Group
insert f n [] = (n, []) ∷ []
insert f n ((l, ms) ∷ gs) =
    let rest = insert f n gs in
    if ltb_ℤ (f n) (f l)
    then (n, []) ∷ (l, ms) ∷ gs
    else if eqb_ℤ (f l) (f n)
    then (l, ms ++ n ∷ []) ∷ gs
    else (l, ms) ∷ rest

-- The groups whose priority is not above `p`, and the others.
abbrev pub low : (Ptr → ℤ) → ℤ → List Group → List Group
low f p [] = []
low f p ((l, ms) ∷ gs) = if ltb_ℤ p (f l) then [] else (l, ms) ∷ low f p gs

abbrev pub high : (Ptr → ℤ) → ℤ → List Group → List Group
high f p [] = []
high f p ((l, ms) ∷ gs) = if ltb_ℤ p (f l) then (l, ms) ∷ gs else high f p gs

-- Whether the last group that is not above `p` has just the priority `p`.
abbrev pub joins : (Ptr → ℤ) → ℤ → List Group → Bool
joins f p [] = false
joins f p ((l, ms) ∷ gs) =
    if ltb_ℤ p (f l) then false else if eqb_ℤ (f l) p then true else joins f p gs

pub low-high : (f : Ptr → ℤ) (p : ℤ) (gs : List Group) → low f p gs ++ high f p gs ≡ gs
low-high f p [] = refl
low-high f p ((l, ms) ∷ gs) = elim (Bool-cases (ltb_ℤ p (f l))) [
  | inl above ↦ rw above
  | inr below ↦ rw below (ap (λ (r : List Group). (l, ms) ∷ r) (low-high f p gs))
]

pub nodes-append : (us vs : List Group) → nodes (us ++ vs) ≡ nodes us ++ nodes vs
nodes-append [] vs = refl
nodes-append ((l, ms) ∷ us) vs =
    ap (λ (r : List Ptr). node_list l ∷ r)
      (ap (λ (r : List Ptr). map node_list ms ++ r) (nodes-append us vs)
        ∙ sym (append_assoc (map node_list ms) (nodes us) (nodes vs)))

pub tops-append : (us vs : List Group) → tops (us ++ vs) ≡ tops us ++ tops vs
tops-append [] vs = refl
tops-append ((l, ms) ∷ us) vs = ap (λ (r : List Ptr). prio_list l ∷ r) (tops-append us vs)

-- Above a priority nothing is low.
pub low_above :
    (f : Ptr → ℤ) (p : ℤ) (gs : List Group)
    → IsAbove f p gs
    → (low f p gs ≡ []) × (high f p gs ≡ gs)
low_above f p [] h = (refl, refl)
low_above f p ((l, ms) ∷ gs) h = rw h (refl, refl)

pub IsAbove-eq :
    (f : Ptr → ℤ) (p q : ℤ) (gs : List Group) → eqb_ℤ q p ≡ true → IsAbove f q gs → IsAbove f p gs
IsAbove-eq f p q [] e h = tt
IsAbove-eq f p q ((l, ms) ∷ gs) e h = ground arith

node_join :
    (l n : Ptr) (ms : List Ptr) (gs : List Group)
    → nodes ((l, ms ++ n ∷ []) ∷ gs)
      ≡ node_list l ∷ (map node_list ms ++ [] ++ node_list n ∷ nodes gs)
node_join l n [] gs = refl
node_join l n (k ∷ ms) gs = ap (λ (r : List Ptr). node_list l ∷ r) (node_join k n ms gs)

node_step :
    (l n : Ptr) (ms all lows highs : List Ptr)
    → all ≡ lows ++ node_list n ∷ highs
    → node_list l ∷ (map node_list ms ++ all)
      ≡ (node_list l ∷ (map node_list ms ++ lows)) ++ node_list n ∷ highs
node_step l n ms all lows highs e =
    ap (λ (r : List Ptr). node_list l ∷ r)
      (ap (λ (r : List Ptr). map node_list ms ++ r) e
        ∙ sym (append_assoc (map node_list ms) lows (node_list n ∷ highs)))

-- The new node stands behind all nodes that are not above it, and in front of the others.
pub nodes-insert :
    (f : Ptr → ℤ) (n : Ptr) (gs : List Group)
    → IsOrdered f gs
    → nodes (insert f n gs) ≡ nodes (low f (f n) gs) ++ node_list n ∷ nodes (high f (f n) gs)
unfolding insert
nodes-insert f n [] o = refl
nodes-insert f n ((l, ms) ∷ gs) o = elim (Bool-cases (ltb_ℤ (f n) (f l))) [
  | inl above ↦ rw above
  | inr below ↦ rw below (elim (Bool-cases (eqb_ℤ (f l) (f n))) [
    | inl same ↦
        let next = low_above f (f n) gs (IsAbove-eq f (f n) (f l) gs same o.1) in
        rw (same, next.0, next.1) (node_join l n ms gs)
    | inr other ↦ rw other (
        node_step l n ms (nodes (insert f n gs)) (nodes (low f (f n) gs)) (nodes (high f (f n) gs))
          (nodes-insert f n gs o.2))
  ])
]

pub tops-insert :
    (f : Ptr → ℤ) (n : Ptr) (gs : List Group)
    → tops (insert f n gs) ≡ (
        if joins f (f n) gs
        then tops gs
        else (tops (low f (f n) gs) ++ prio_list n ∷ tops (high f (f n) gs)))
unfolding insert
tops-insert f n [] = refl
tops-insert f n ((l, ms) ∷ gs) = elim (Bool-cases (ltb_ℤ (f n) (f l))) [
  | inl above ↦ rw above
  | inr below ↦ rw below (elim (Bool-cases (eqb_ℤ (f l) (f n))) [
    | inl same ↦ rw same
    | inr other ↦ rw other (ground (arith, tops-insert f n gs))
  ])
]

AllAt-append :
    (f : Ptr → ℤ) (p : ℤ) (ms : List Ptr) (n : Ptr)
    → AllAt f p ms
    → eqb_ℤ (f n) p ≡ true
    → AllAt f p (ms ++ n ∷ [])
AllAt-append f p [] n a h = (h, tt)
AllAt-append f p (k ∷ ms) n a h = (a.0, AllAt-append f p ms n a.1 h)

IsAbove-insert :
    (f : Ptr → ℤ) (p : ℤ) (n : Ptr) (gs : List Group)
    → IsAbove f p gs
    → ltb_ℤ p (f n) ≡ true
    → IsAbove f p (insert f n gs)
unfolding insert
IsAbove-insert f p n [] a h = h
IsAbove-insert f p n ((l, ms) ∷ gs) a h = elim (Bool-cases (ltb_ℤ (f n) (f l))) [
  | inl above ↦ rw above h
  | inr below ↦
      rw below
        (elim (Bool-cases (eqb_ℤ (f l) (f n))) [ inl same ↦ rw same a | inr other ↦ rw other a ])
]

pub insert-IsOrdered :
    (f : Ptr → ℤ) (n : Ptr) (gs : List Group) → IsOrdered f gs → IsOrdered f (insert f n gs)
unfolding insert
insert-IsOrdered f n [] o = (tt, tt, tt)
insert-IsOrdered f n ((l, ms) ∷ gs) o = elim (Bool-cases (ltb_ℤ (f n) (f l))) [
  | inl above ↦ rw above (tt, above, o)
  | inr below ↦ rw below (elim (Bool-cases (eqb_ℤ (f l) (f n))) [
    | inl same ↦ rw same (AllAt-append f (f l) ms n o.0 (ground arith), o.1, o.2)
    | inr other ↦
        rw other (o.0, IsAbove-insert f (f l) n gs o.1 (ground arith), insert-IsOrdered f n gs o.2)
  ])
]
