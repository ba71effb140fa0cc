-- ===== src/Tests/Lists.antt =====
-- Lists built by the code of dlist.c itself, at the addresses 100 and 200.
use yuzuos.Base.{◌≡◌, refl, some, [], ◌∷◌}
use yuzuos.DList.{Mem, head_init, add_tail, move_tail, swap, foreach}
use yuzuos.DList.Segment.{IsRing}
use yuzuos.DList.Insert.{add_tail-IsRing}
use yuzuos.DList.Remove.{IsRing-head_init, head_init-IsRing}
use yuzuos.DList.Frame.{move_tail-IsRing, add_tail-off}
use yuzuos.DList.Replace.{swap-IsRing}

abbrev blank : Mem
blank = record { next = λ p. 0; prev = λ p. 0 }

-- A list at 100 with the entries 1, 2 and 3.
abbrev three : Mem
three = add_tail 3 100 (add_tail 2 100 (add_tail 1 100 (head_init 100 blank)))

three-IsRing : IsRing three 100 (1 ∷ 2 ∷ 3 ∷ [])
three-IsRing = add_tail-IsRing _ 100 3 (1 ∷ 2 ∷ []) [] refl refl (
    add_tail-IsRing _ 100 2 (1 ∷ []) [] refl refl
      (add_tail-IsRing _ 100 1 [] [] refl refl (IsRing-head_init 100 blank)))

-- A second list in the same memory, at 200, with the entry 4.
abbrev both : Mem
both = add_tail 4 200 (head_init 200 three)

both-IsRing : IsRing both 200 (4 ∷ []) × IsRing both 100 (1 ∷ 2 ∷ 3 ∷ [])
both-IsRing =
    let m = head_init 200 three in
    let here = IsRing-head_init 200 three in
    (
      add_tail-IsRing m 200 4 [] [] refl refl here,
      add_tail-off m 200 4 [] [] 100 (1 ∷ 2 ∷ 3 ∷ []) here
          (head_init-IsRing 200 100 (1 ∷ 2 ∷ 3 ∷ []) three refl three-IsRing) refl (refl, tt),
    )

move_tail-IsRing_example :
    IsRing (move_tail 2 200 both) 200 (4 ∷ 2 ∷ []) × IsRing (move_tail 2 200 both) 100 (1 ∷ 3 ∷ [])
move_tail-IsRing_example =
    move_tail-IsRing both 100 2 (1 ∷ []) (3 ∷ []) 200 (4 ∷ []) both-IsRing.1 both-IsRing.0
      (refl, (refl, (refl, (refl, tt))))

swap-IsRing_example :
    IsRing (swap 1 2 three) 100 (2 ∷ 1 ∷ 3 ∷ []) × IsRing (swap 2 1 three) 100 (2 ∷ 1 ∷ 3 ∷ [])
swap-IsRing_example = swap-IsRing three 100 1 2 [] [] (3 ∷ []) three-IsRing

-- The runs of the code themselves.
foreach-three : foreach 4 100 three ≡ some (1 ∷ 2 ∷ 3 ∷ [])
unfolding foreach add_tail head_init
foreach-three = refl
