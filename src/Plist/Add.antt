-- ===== src/Plist/Add.antt =====
-- `plist_add` puts a node behind those of its priority, and keeps both rings.
use yuzuos.Base.{
  ℕ, ◌≡◌, refl, sym, ap, true, false, not, none, some, List, [], ◌∷◌, ◌++◌, arith, ◌==◌, ◌∙◌, ◌-◌,
  length, leb, if◌then◌else◌, Bool-cases, inl, inr,
}
use mathlib.Core.Path.{subst}
use yuzuos.Base.Int.{ltb_ℤ}
use yuzuos.Base.Distinct.{has, Apart, Apart-symm, has-append}
use yuzuos.DList.{Ptr, Mem}
use yuzuos.DList
use yuzuos.DList.Segment.{IsRing}
use yuzuos.DList.Frame.{add_tail-off}
use yuzuos.DList.Insert.{first_or, add_tail-IsRing}
use yuzuos.Plist.{opens_group, Store, add, add_at, is_head_empty, first, node_list, prio_list}
use yuzuos.Plist.Groups.{
  Group, nodes, tops, IsPlist, IsHeadless, insert, low, high, joins, IsOrdered, low-high,
  nodes-append, tops-append, nodes-insert, tops-insert, insert-IsOrdered,
}
use yuzuos.Plist.Walk.{slot_of, find_slot_lem, slot-next_node, slot-iter, slot-opens}
use yuzuos.Plist.Headless.{
  is_some, add_tail-IsHeadless, add_tail_headless-off, IsHeadless-off, Apart-insert,
  Apart-insert_right,
}

-- A node of which neither link stands in the list, and whose link of priorities is alone.
pub record IsFresh (s : Store) (node head : Ptr) (gs : List Group) : Type 0 where
  pub node_off : has (node_list node) (head ∷ nodes gs) ≡ false
  pub node_off_tops : has (node_list node) (tops gs) ≡ false
  pub prio_off : has (prio_list node) (head ∷ nodes gs) ≡ false
  pub prio_off_tops : has (prio_list node) (tops gs) ≡ false
  pub alone : IsRing s.links (prio_list node) []

-- The two rings around the place of the new node, in terms of what stands before and behind it.
module _ (m : Mem) (head new top : Ptr) (ns ns' us vs : List Ptr)
    (node_ring : IsRing m head (ns ++ ns')) (prio_ring : IsHeadless m (us ++ vs))
    (apart : Apart (head ∷ ns ++ ns') (us ++ vs)) (node_off : has new (head ∷ ns ++ ns') ≡ false)
    (node_off_tops : has new (us ++ vs) ≡ false) (prio_off : has top (head ∷ ns ++ ns') ≡ false)
    (prio_off_tops : has top (us ++ vs) ≡ false) (differ : (new == top) ≡ false)
    (full : is_some (us ++ vs) ≡ true) where
  -- The new node joins a group: only the ring of all nodes changes.
  pub rings_join :
      let m' = DList.add_tail new (first_or ns' head) m in
      IsRing m' head (ns ++ new ∷ ns')
      × IsHeadless m' (us ++ vs)
      × Apart (head ∷ ns ++ new ∷ ns') (us ++ vs)
  rings_join = (
    add_tail-IsRing m head new ns ns' (ground (arith, has-append new (head ∷ ns) ns'))
        (ground (arith, has-append new (head ∷ ns) ns')) node_ring,
    IsHeadless-off m head new ns ns' (us ++ vs) node_ring node_off_tops apart prio_ring,
    Apart-insert (head ∷ ns) ns' (us ++ vs) new node_off_tops apart,
  )

  -- The new node opens a group: it comes into both rings.
  pub rings_open :
      let m' =
        DList.add_tail new
          (first_or ns' head)
          (DList.add_tail top (first_or vs (first_or us top)) m) in
      IsRing m' head (ns ++ new ∷ ns')
      × IsHeadless m' (us ++ top ∷ vs)
      × Apart (head ∷ ns ++ new ∷ ns') (us ++ top ∷ vs)
  rings_open =
      let m1 = DList.add_tail top (first_or vs (first_or us top)) m in
      let back = Apart-symm (head ∷ ns ++ ns') (us ++ vs) apart in
      let node_ring1 : IsRing m1 head (ns ++ ns') =
        add_tail_headless-off m top us vs head (ns ++ ns') full prio_off back prio_ring node_ring in
      let prio_ring1 : IsHeadless m1 (us ++ top ∷ vs) =
        add_tail-IsHeadless m top us vs full prio_off_tops prio_ring in
      let apart1 = Apart-insert_right (head ∷ ns ++ ns') us vs top prio_off apart in
      let out : has new (us ++ top ∷ vs) ≡ false =
        ground (arith, has-append new us vs, has-append new us (top ∷ vs)) in
      (
        add_tail-IsRing m1 head new ns ns' (ground (arith, has-append new (head ∷ ns) ns'))
            (ground (arith, has-append new (head ∷ ns) ns')) node_ring1,
        IsHeadless-off m1 head new ns ns' (us ++ top ∷ vs) node_ring1 out apart1 prio_ring1,
        Apart-insert (head ∷ ns) ns' (us ++ top ∷ vs) new out apart1,
      )

-- A priority list from its two rings.
IsPlist-of :
    (s : Store) (head : Ptr) (gs : List Group) (m : Mem) (ns ts : List Ptr)
    → s.links ≡ m
    → nodes gs ≡ ns
    → tops gs ≡ ts
    → IsOrdered s.prio gs
    → IsRing m head ns × IsHeadless m ts × Apart (head ∷ ns) ts
    → IsPlist s head gs
IsPlist-of s head gs m ns ts em en et o r = record {
  node_ring = rw (em, en) r.0;
  prio_ring = rw (em, et) r.1;
  apart = rw (en, et) r.2;
  ordered = o;
}

module _ (s : Store) (node head : Ptr) (l : Ptr) (ms : List Ptr) (rest : List Group)
    (list : IsPlist s head ((l, ms) ∷ rest)) where
  abbrev all : List Group
  all = (l, ms) ∷ rest

  -- The loop gets to its end, and `add_at` does the rest.
  add-run :
      (fuel : ℕ)
      → leb (length all) fuel ≡ true
      → add fuel node head s ≡ some (add_at node (slot_of s (s.prio node) head l none all) s)
  unfolding add is_head_empty DList.is_empty first
  add-run fuel enough =
      let full : (node_list l == head) ≡ false = ground (arith, list.node_ring.distinct.0) in
      let here : node_list l - 12 ≡ l = ground arith in
      let found =
        find_slot_lem s (s.prio node) head l fuel l ms rest none list.prio_ring.path
          list.prio_ring.closes.0 list.prio_ring.distinct.0 (ground arith) in
      rw (list.node_ring.path.0.0, full, here, found)

  module _ (fresh : IsFresh s node head all) where
    abbrev lo : List Group
    lo = low s.prio (s.prio node) all

    abbrev hi : List Group
    hi = high s.prio (s.prio node) all

    node_split : nodes all ≡ nodes lo ++ nodes hi
    node_split = ap nodes (sym (low-high s.prio (s.prio node) all)) ∙ nodes-append lo hi

    top_split : tops all ≡ tops lo ++ tops hi
    top_split = ap tops (sym (low-high s.prio (s.prio node) all)) ∙ tops-append lo hi

    start_of :
        first_or (tops hi) (prio_list l) ≡ first_or (tops hi) (first_or (tops lo) (prio_list node))
    start_of = elim (Bool-cases (ltb_ℤ (s.prio node) (s.prio l))) [
      | inl above ↦ rw above
      | inr below ↦ rw below
    ]

    links_of :
        (add_at node (slot_of s (s.prio node) head l none all) s).links
        ≡ DList.add_tail (node_list node) (first_or (nodes hi) head) (
            if not (joins s.prio (s.prio node) all)
            then DList.add_tail
                (prio_list node)
                (first_or (tops hi) (first_or (tops lo) (prio_list node)))
                s.links
            else s.links)
    unfolding add_at opens_group
    links_of = rw (
      slot-next_node s (s.prio node) head l none all,
      slot-iter s (s.prio node) head l none all,
      slot-opens s (s.prio node) head l none all list.ordered refl,
      start_of,
    )

    prio_of : (add_at node (slot_of s (s.prio node) head l none all) s).prio ≡ s.prio
    unfolding add_at
    prio_of = refl

    -- What `IsPlist` says of both rings, in terms of the place of the node.
    abbrev behind : List Ptr
    behind = nodes lo ++ nodes hi

    abbrev tops_behind : List Ptr
    tops_behind = tops lo ++ tops hi

    node-IsRing' : IsRing s.links head behind
    node-IsRing' = subst (λ (ns : List Ptr). IsRing s.links head ns) node_split list.node_ring

    prio-IsHeadless' : IsHeadless s.links tops_behind
    prio-IsHeadless' = subst (λ (ts : List Ptr). IsHeadless s.links ts) top_split list.prio_ring

    apart' : Apart (head ∷ behind) tops_behind
    apart' =
        subst (λ (ts : List Ptr). Apart (head ∷ behind) ts) top_split
          (subst (λ (ns : List Ptr). Apart (head ∷ ns) (tops all)) node_split list.apart)

    off_nodes : (a : Ptr) → has a (head ∷ nodes all) ≡ false → has a (head ∷ behind) ≡ false
    off_nodes a out = subst (λ (ns : List Ptr). has a (head ∷ ns) ≡ false) node_split out

    off_tops : (a : Ptr) → has a (tops all) ≡ false → has a tops_behind ≡ false
    off_tops a out = subst (λ (ts : List Ptr). has a ts ≡ false) top_split out

    full' : is_some tops_behind ≡ true
    full' = subst (λ (ts : List Ptr). is_some ts ≡ true) top_split refl

    abbrev result : Store
    result = add_at node (slot_of s (s.prio node) head l none all) s

    joined : joins s.prio (s.prio node) all ≡ true → IsPlist result head (insert s.prio node all)
    unfolding add_at
    joined j =
        IsPlist-of result head (insert s.prio node all)
          (DList.add_tail (node_list node) (first_or (nodes hi) head) s.links)
          (nodes lo ++ node_list node ∷ nodes hi) tops_behind (rw (links_of, j))
          (nodes-insert s.prio node all list.ordered)
          (tops-insert s.prio node all ∙ rw (j, top_split))
          (insert-IsOrdered s.prio node all list.ordered)
          (rings_join s.links head (node_list node) (prio_list node) (nodes lo) (nodes hi) (tops lo)
            (tops hi) node-IsRing' prio-IsHeadless' apart'
            (off_nodes (node_list node) fresh.node_off)
            (off_tops (node_list node) fresh.node_off_tops)
            (off_nodes (prio_list node) fresh.prio_off)
            (off_tops (prio_list node) fresh.prio_off_tops) (ground arith) full')

    opened : joins s.prio (s.prio node) all ≡ false → IsPlist result head (insert s.prio node all)
    unfolding add_at
    opened j =
        let top = prio_list node in
        IsPlist-of result head (insert s.prio node all)
          (DList.add_tail (node_list node) (first_or (nodes hi) head)
            (DList.add_tail top (first_or (tops hi) (first_or (tops lo) top)) s.links))
          (nodes lo ++ node_list node ∷ nodes hi) (tops lo ++ top ∷ tops hi) (rw (links_of, j))
          (nodes-insert s.prio node all list.ordered) (tops-insert s.prio node all ∙ rw j)
          (insert-IsOrdered s.prio node all list.ordered)
          (rings_open s.links head (node_list node) top (nodes lo) (nodes hi) (tops lo) (tops hi)
            node-IsRing' prio-IsHeadless' apart' (off_nodes (node_list node) fresh.node_off)
            (off_tops (node_list node) fresh.node_off_tops) (off_nodes top fresh.prio_off)
            (off_tops top fresh.prio_off_tops) (ground arith) full')

    add_at-IsPlist : IsPlist result head (insert s.prio node all)
    add_at-IsPlist = elim (Bool-cases (joins s.prio (s.prio node) all)) [
      | inl j ↦ joined j
      | inr j ↦ opened j
    ]

add_empty :
    (fuel : ℕ) (node head : Ptr) (s : Store)
    → IsPlist s head []
    → IsFresh s node head []
    → (s' : Store) × (add fuel node head s ≡ some s')
      × (s'.prio ≡ s.prio)
      × IsPlist s' head (insert s.prio node [])
unfolding add is_head_empty DList.is_empty insert
add_empty fuel node head s list fresh =
    let m = s.links in
    let new = node_list node in
    let empty : (m.next head == head) ≡ true = ground (arith, list.node_ring.closes.0) in
    let prio_off : has (prio_list node) (head ∷ []) ≡ false = fresh.prio_off in
    let apart : Apart (head ∷ node_list node ∷ []) (prio_list node ∷ []) =
      (ground arith, (ground arith, tt)) in
    (
      record s { links = DList.add_tail new head m },
      rw empty,
      refl,
      record {
        node_ring = add_tail-IsRing m head new [] [] fresh.node_off refl list.node_ring;
        prio_ring =
            add_tail-off m head new [] [] (prio_list node) [] list.node_ring fresh.alone
              (ground arith) (ground arith);
        apart = apart;
        ordered = (tt, tt, tt);
      },
    )

-- `plist_add` ends on a list of priorities, with fuel for each of its groups, for a node whose two
-- links stand in no list and whose link of priorities leads to itself. No priority changes, and both
-- rings and the order are those of a list in which the node stands behind the nodes of its own
-- priority, or in a new group between the lower and the higher ones.
pub add-IsPlist :
    (fuel : ℕ) (node head : Ptr) (gs : List Group) (s : Store)
    → IsPlist s head gs
    → IsFresh s node head gs
    → leb (length gs) fuel ≡ true
    → (s' : Store) × (add fuel node head s ≡ some s')
      × (s'.prio ≡ s.prio)
      × IsPlist s' head (insert s.prio node gs)
add-IsPlist fuel node head [] s list fresh enough = add_empty fuel node head s list fresh
add-IsPlist fuel node head ((l, ms) ∷ gs) s list fresh enough = (
  add_at node (slot_of s (s.prio node) head l none ((l, ms) ∷ gs)) s,
  add-run s node head l ms gs list fuel enough,
  prio_of s node head l ms gs list fresh,
  add_at-IsPlist s node head l ms gs list fresh,
)
