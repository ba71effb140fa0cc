-- ===== src/Tests/Heaps.antt =====
-- A heap with a used block of 16 bytes and a free one of 200.
use yuzuos.Base.{ℕ, refl, true, false, [], ◌∷◌, arith, ◌==◌, if◌then◌else◌, ◌≡◌, some}
use yuzuos.Heap.{Block, Heap, free}
use yuzuos.Heap.Chain.{IsHeap}
use yuzuos.Heap.Free.{address, free-IsHeap}

abbrev two_blocks : ℕ → Block
two_blocks p =
    if p == 0xd000_0000
    then record { size = 16; is_free = false; next = 0xd000_0020 }
    else record { size = 200; is_free = true; next = 0 }

abbrev small_heap : Heap
small_heap = record {
  blocks = 0xd000_0000;
  current = 0xd000_00f8;
  remaining = 3848;
  memory = two_blocks;
  space = record {
    dir = λ i. 0;
    tables = λ i j. 0;
    phys = record { bitmap = λ i. 0; used = 1; max_bits = 64 };
  };
}

small_heap-IsHeap : IsHeap small_heap ((16, false) ∷ (200, true) ∷ [])
small_heap-IsHeap = record {
  start = refl;
  chain = (refl, (refl, refl));
  sound = (omega arith, (omega arith, tt));
}

free-IsHeap_example :
    (h' : Heap) × (free 0xd000_0010 small_heap ≡ some h')
    × IsHeap h' ((16, true) ∷ (200, true) ∷ [])
unfolding address
free-IsHeap_example =
    free-IsHeap small_heap [] ((200, true) ∷ []) 16 false small_heap-IsHeap (omega arith)
