-- ===== src/Heap/Malloc.antt =====
-- `malloc` is first fit on the chain of blocks.
use yuzuos.Base.{ℕ, ◌+◌, ◌≡◌, List, some}
use yuzuos.Heap.{Heap, header, heap_bottom, align_up, malloc}
use yuzuos.Heap.Chain.{Cell, IsHeap, place, first_fit}

-- What `malloc` promises for `size` bytes: the first block that fits, or a new one behind the chain.
abbrev pub IsGranted : (fuel size : ℕ) → Heap → List Cell → Type 0
IsGranted fuel size h cs =
    (h' : Heap) × (malloc fuel size h ≡ some (h', place (align_up size) heap_bottom cs + header))
    × IsHeap h' (first_fit (align_up size) cs)
