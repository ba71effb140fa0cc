-- ===== src/Plist.antt =====
-- kernel/utils/plist.c and plist.h: lists of nodes by priority, the queue of the scheduler.
-- Each node stands in the ring of all nodes (node_list); the first node of each priority also stands
-- in a ring of those (prio_list). A node is the address of its `struct plist_node`, and the two
-- `struct dlist_head` in it stand at fixed distances behind it. A loop that follows pointers takes
-- fuel, and gives `none` where it runs out.
pub mod Groups
pub mod Walk
pub mod Headless
pub mod Add
use yuzuos.Base.{
  ℕ, zero, suc, ◌+◌, ◌-◌, Bool, true, false, not, ◌||◌, Option, none, some, ◌==◌, if◌then◌else◌,
  update,
}
use mathlib.Core.Option
use yuzuos.Base.Int.{ℤ, ltb_ℤ, eqb_ℤ}
use yuzuos.DList.{Ptr, Mem}
use yuzuos.DList

-- The links in memory, and the field `prio` of the node at each address.
pub record Store : Type 0 where
  pub links : Mem
  pub prio : Ptr → ℤ

-- `&node->prio_list` and `&node->node_list`: an `int` of four bytes stands before them, and a
-- `struct dlist_head` has eight.
abbrev pub prio_list : Ptr → Ptr
prio_list node = node + 4

abbrev pub node_list : Ptr → Ptr
node_list node = node + 12

-- `dlist_entry` for each of the two members.
abbrev pub prio_entry : Ptr → Ptr
prio_entry p = p - 4

abbrev pub node_entry : Ptr → Ptr
node_entry p = p - 12

unfoldable pub is_head_empty : Ptr → Store → Bool
is_head_empty head s = DList.is_empty head s.links

pub is_node_empty : Ptr → Store → Bool
is_node_empty node s = DList.is_empty (node_list node) s.links

unfoldable pub first : Ptr → Store → Ptr
first head s = node_entry (s.links.next head)

pub last : Ptr → Store → Ptr
last head s = node_entry (s.links.prev head)

unfoldable pub head_init : Ptr → Store → Store
head_init head s = record s { links = DList.head_init head s.links }

unfoldable pub node_init : Ptr → ℤ → Store → Store
node_init node prio s = record s {
  links = DList.head_init (node_list node) (DList.head_init (prio_list node) s.links);
  prio = update s.prio node prio;
}

-- What the loop of `plist_add` leaves in `iter`, `prev` and `next_node`.
pub record Slot : Type 0 where
  pub iter : Ptr
  pub before : Option Ptr
  pub next_node : Ptr

-- The loop of `plist_add`, at `iter`.
unfoldable pub find_slot :
    (fuel : ℕ) → ℤ → (head first iter : Ptr) → Option Ptr → Store → Option Slot
find_slot zero p head first iter before s = none
find_slot (suc fuel) p head first iter before s =
    let iter' = prio_entry (s.links.next (prio_list iter)) in
    let rest = find_slot fuel p head first iter' (some iter) s in
    if ltb_ℤ p (s.prio iter)
    then some (record { iter = iter; before = before; next_node = node_list iter })
    else if iter' == first
    then some (record { iter = iter'; before = some iter; next_node = head })
    else rest

-- `!prev || prev->prio != node->prio`
unfoldable pub opens_group : ℤ → Option Ptr → Store → Bool
opens_group p none s = true
opens_group p (some before) s = not (eqb_ℤ (s.prio before) p)

-- What `plist_add` does with the slot that the loop has found.
unfoldable pub add_at : Ptr → Slot → Store → Store
add_at node slot s =
    let m1 =
      if opens_group (s.prio node) slot.before s
      then DList.add_tail (prio_list node) (prio_list slot.iter) s.links
      else s.links in
    record s { links = DList.add_tail (node_list node) slot.next_node m1 }

unfoldable pub add : (fuel : ℕ) → (node head : Ptr) → Store → Option Store
unfolding find_slot opens_group add_at is_head_empty first
add fuel node head s =
    let start = first head s in
    if is_head_empty head s
    then some (record s { links = DList.add_tail (node_list node) head s.links })
    else Option.map (λ slot. add_at node slot s)
        (find_slot fuel (s.prio node) head start start none s)

-- The part of `plist_remove` for a node that stands in the ring of priorities: the next node takes
-- its place there, unless it has a place of its own.
hand_over : (node head : Ptr) → Mem → Mem
hand_over node head m =
    let next = node_entry (m.next (node_list node)) in
    let m1 =
      if not (m.next (node_list node) == head)
      then (if DList.is_empty (prio_list next) m
          then DList.add (prio_list next) (prio_list node) m
          else m)
      else m in
    DList.remove_init (prio_list node) m1

unfoldable pub remove : (node head : Ptr) → Store → Store
unfolding hand_over
remove node head s =
    let m1 =
      if not (DList.is_empty (prio_list node) s.links)
      then hand_over node head s.links
      else s.links in
    record s { links = DList.remove_init (node_list node) m1 }

-- The loop of `plist_requeue`, at `iter`: where the node goes.
requeue_before : (fuel : ℕ) → (node head iter : Ptr) → Store → Option Ptr
requeue_before zero node head iter s = none
requeue_before (suc fuel) node head iter s =
    let rest = requeue_before fuel node head (node_entry (s.links.next (node_list iter))) s in
    if node_list iter == head
    then some head
    else if not (eqb_ℤ (s.prio node) (s.prio iter))
    then some (node_list iter)
    else rest

pub requeue : (fuel : ℕ) → (node head : Ptr) → Store → Option Store
unfolding last remove requeue_before
requeue fuel node head s =
    let iter = node_entry (s.links.next (node_list node)) in
    let s1 = remove node head s in
    let next = node_entry (s1.links.next (node_list iter)) in
    if node == last head s
    then some s
    else if not (eqb_ℤ (s.prio node) (s.prio iter))
    then some s
    else Option.map (λ p. record s1 { links = DList.add_tail (node_list node) p s1.links })
        (requeue_before fuel node head next s1)
