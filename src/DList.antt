-- ===== src/DList.antt =====
-- kernel/utils/dlist.c and dlist.h: circular doubly linked lists through `struct dlist_head`.
-- Memory gives the two fields of the `struct dlist_head` at each address. A function that writes
-- returns the new memory; the assignments stand in the order of the source, and each later read
-- sees the earlier writes.
pub mod Segment
pub mod Parts
pub mod Insert
pub mod Remove
pub mod Query
pub mod Frame
pub mod Cut
pub mod Replace
pub mod Splice
use yuzuos.Base.{
  ℕ, zero, suc, Bool, true, false, not, ◌&&◌, Option, none, some, List, [], ◌∷◌, ◌==◌,
  if◌then◌else◌, update,
}
use mathlib.Core.Option

abbrev pub Ptr : Type 0
Ptr = ℕ

abbrev pub null : Ptr
null = 0

pub record Mem : Type 0 where
  pub next : Ptr → Ptr
  pub prev : Ptr → Ptr

-- `p->next = v` and `p->prev = v`
abbrev pub set_next : Ptr → Ptr → Mem → Mem
set_next p v m = record m { next = update m.next p v }

abbrev pub set_prev : Ptr → Ptr → Mem → Mem
set_prev p v m = record m { prev = update m.prev p v }

unfoldable pub head_init : Ptr → Mem → Mem
head_init list m = set_prev list list (set_next list list m)

pub is_first : (list head : Ptr) → Mem → Bool
is_first list head m = m.prev list == head

unfoldable pub is_last : (list head : Ptr) → Mem → Bool
is_last list head m = m.next list == head

unfoldable pub is_empty : Ptr → Mem → Bool
is_empty head m = m.next head == head

pub is_singular : Ptr → Mem → Bool
unfolding is_empty
is_singular head m = not (is_empty head m) && (m.next head == m.prev head)

add_internal : (new prv nxt : Ptr) → Mem → Mem
add_internal new prv nxt m =
    let m1 = set_prev nxt new m in
    let m2 = set_next new nxt m1 in let m3 = set_prev new prv m2 in set_next prv new m3

remove_internal : (prv nxt : Ptr) → Mem → Mem
remove_internal prv nxt m = let m1 = set_prev nxt prv m in set_next prv nxt m1

unfoldable pub add : (new head : Ptr) → Mem → Mem
unfolding add_internal
add new head m = add_internal new head (m.next head) m

unfoldable pub add_tail : (new head : Ptr) → Mem → Mem
unfolding add_internal
add_tail new head m = add_internal new (m.prev head) head m

pub entry_remove : Ptr → Mem → Mem
unfolding remove_internal
entry_remove entry m = remove_internal (m.prev entry) (m.next entry) m

pub remove : Ptr → Mem → Mem
unfolding entry_remove
remove entry m =
    let m1 = entry_remove entry m in let m2 = set_next entry null m1 in set_prev entry null m2

unfoldable pub remove_init : Ptr → Mem → Mem
unfolding entry_remove head_init
remove_init entry m = head_init entry (entry_remove entry m)

pub replace : (old new : Ptr) → Mem → Mem
replace old new m =
    let m1 = set_next new (m.next old) m in
    let m2 = set_prev (m1.next new) new m1 in
    let m3 = set_prev new (m2.prev old) m2 in set_next (m3.prev new) new m3

pub replace_init : (old new : Ptr) → Mem → Mem
unfolding replace head_init
replace_init old new m = head_init old (replace old new m)

pub swap : (entry1 entry2 : Ptr) → Mem → Mem
swap entry1 entry2 m =
    let pos = m.prev entry2 in
    let m1 = remove entry2 m in
    let m2 = replace entry1 entry2 m1 in
    let pos' = if pos == entry1 then entry2 else pos in add entry1 pos' m2

pub move : (list head : Ptr) → Mem → Mem
unfolding entry_remove add
move list head m = add list head (entry_remove list m)

pub move_tail : (list head : Ptr) → Mem → Mem
unfolding entry_remove add_tail
move_tail list head m = add_tail list head (entry_remove list m)

pub move_tail_bulk : (head first last : Ptr) → Mem → Mem
move_tail_bulk head first last m =
    let m1 = set_next (m.prev first) (m.next last) m in
    let m2 = set_prev (m1.next last) (m1.prev first) m1 in
    let m3 = set_next (m2.prev head) first m2 in
    let m4 = set_prev first (m3.prev head) m3 in
    let m5 = set_next last head m4 in set_prev head last m5

pub remove_init_careful : Ptr → Mem → Mem
unfolding entry_remove
remove_init_careful entry m =
    let m1 = entry_remove entry m in let m2 = set_prev entry entry m1 in set_next entry entry m2

pub empty_careful : Ptr → Mem → Bool
empty_careful head m = let next = m.next head in (next == head) && (next == m.prev head)

pub rotate_left : Ptr → Mem → Mem
unfolding is_empty move_tail
rotate_left head m = if not (is_empty head m) then move_tail (m.next head) head m else m

pub rotate_front : (list head : Ptr) → Mem → Mem
unfolding move_tail
rotate_front list head m = move_tail head list m

cut_position_internal : (list head entry : Ptr) → Mem → Mem
cut_position_internal list head entry m =
    let new_first = m.next entry in
    let m1 = set_next list (m.next head) m in
    let m2 = set_prev (m1.next list) list m1 in
    let m3 = set_prev list entry m2 in
    let m4 = set_next entry list m3 in
    let m5 = set_next head new_first m4 in set_prev new_first head m5

pub cut_position : (list head entry : Ptr) → Mem → Mem
unfolding is_empty is_singular head_init cut_position_internal
cut_position list head entry m =
    if is_empty head m
    then m
    else if is_singular head m && (not (m.next head == entry) && not (head == entry))
    then m
    else if entry == head
    then head_init list m
    else cut_position_internal list head entry m

pub cut_before : (list head entry : Ptr) → Mem → Mem
unfolding head_init
cut_before list head entry m =
    let m1 = set_next list (m.next head) m in
    let m2 = set_prev (m1.next list) list m1 in
    let m3 = set_prev list (m2.prev entry) m2 in
    let m4 = set_next (m3.prev list) list m3 in
    let m5 = set_next head entry m4 in
    if m.next head == entry then head_init list m else set_prev entry head m5

splice_internal : (list prv nxt : Ptr) → Mem → Mem
splice_internal list prv nxt m =
    let first = m.next list in
    let last = m.prev list in
    let m1 = set_prev first prv m in
    let m2 = set_next prv first m1 in let m3 = set_next last nxt m2 in set_prev nxt last m3

pub splice : (list head : Ptr) → Mem → Mem
unfolding is_empty splice_internal
splice list head m = if not (is_empty list m) then splice_internal list head (m.next head) m else m

pub splice_init : (list head : Ptr) → Mem → Mem
unfolding is_empty splice_internal head_init
splice_init list head m =
    if not (is_empty list m) then head_init list (splice_internal list head (m.next head) m) else m

pub splice_tail : (list head : Ptr) → Mem → Mem
unfolding is_empty splice_internal
splice_tail list head m =
    if not (is_empty list m) then splice_internal list (m.prev head) head m else m

pub splice_tail_init : (list head : Ptr) → Mem → Mem
unfolding is_empty splice_internal head_init
splice_tail_init list head m =
    if not (is_empty list m) then head_init list (splice_internal list (m.prev head) head m) else m

-- `dlist_foreach`: the positions that the loop visits from `pos` on. `none` is a loop that has not
-- come to its end within the fuel.
pub foreach_from : (fuel : ℕ) → (pos head : Ptr) → Mem → Option (List Ptr)
foreach_from zero pos head m = none
foreach_from (suc fuel) pos head m =
    let rest = foreach_from fuel (m.next pos) head m in
    if pos == head then some [] else Option.map (λ visited. pos ∷ visited) rest

unfoldable pub foreach : (fuel : ℕ) → Ptr → Mem → Option (List Ptr)
unfolding foreach_from
foreach fuel head m = foreach_from fuel (m.next head) head m
