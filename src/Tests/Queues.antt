-- ===== src/Tests/Queues.antt =====
-- Lists of priorities at fixed addresses: the head at 100, the nodes at 200, 300 and 400.
use yuzuos.Base.{◌≡◌, refl, some, [], ◌∷◌, ◌==◌, if◌then◌else◌}
use yuzuos.Base.Int.{ℤ, pos}
use yuzuos.DList.{Mem, add_tail, Ptr}
use yuzuos.Plist.{Store, add}
use yuzuos.Plist.Groups.{IsPlist, insert}
use yuzuos.Plist.Add.{IsFresh, add-IsPlist}

-- Every `struct dlist_head` is initialised.
abbrev initialised : Mem
initialised = record { next = λ p. p; prev = λ p. p }

-- The node at 300 has the priority 9, the others 5.
abbrev prios : Ptr → ℤ
prios p = if p == 300 then pos 9 else pos 5

abbrev two : Store
two = record {
  links = add_tail 304 204 (add_tail 312 100 (add_tail 212 100 initialised));
  prio = prios;
}

two-IsPlist : IsPlist two 100 ((200, []) ∷ (300, []) ∷ [])
unfolding add_tail
two-IsPlist = record {
  node_ring = record {
    distinct = (refl, (refl, (refl, tt)));
    path = ((refl, refl), ((refl, refl), tt));
    closes = (refl, refl);
  };
  prio_ring = record {
    distinct = (refl, (refl, tt));
    path = ((refl, refl), tt);
    closes = (refl, refl);
  };
  apart = (refl, (refl, (refl, tt)));
  ordered = (tt, refl, (tt, tt, tt));
}

two-IsFresh : IsFresh two 400 100 ((200, []) ∷ (300, []) ∷ [])
unfolding add_tail
two-IsFresh = record {
  node_off = refl;
  node_off_tops = refl;
  prio_off = refl;
  prio_off_tops = refl;
  alone = record { distinct = (refl, tt); path = tt; closes = (refl, refl) };
}

add-IsPlist_example :
    (s' : Store) × (add 2 400 100 two ≡ some s')
    × (s'.prio ≡ prios)
    × IsPlist s' 100 ((200, 400 ∷ []) ∷ (300, []) ∷ [])
unfolding insert
add-IsPlist_example =
    add-IsPlist 2 400 100 ((200, []) ∷ (300, []) ∷ []) two two-IsPlist two-IsFresh refl
