-- ===== src/KHeap/WellFormed.antt =====
-- The heap's invariant: its pieces tile the space, and its index has exactly the holes.
use cmsi.Base.{ℕ, ◌<◌, ◌^◌, ◌≡◌, some, List, [], ◌∷◌, true, false, ltb, if◌then◌else◌}
use cmsi.Base.{◌-◌}
use cmsi.OrderedArray.Spec.{items, IsValid}
use cmsi.Kernel.{Kernel, Heap}
use cmsi.KHeap.Search.{header_t_less_than}
use cmsi.KHeap.Pieces.{Piece, piece, Tiles, holes, count}

pub record WellFormed (k : Kernel) (heap : Heap) (ps : List Piece) : Type 0 where
  pub is_heap : k.kheap ≡ some heap
  pub tiled : Tiles k.memory heap.end_address heap.start_address ps heap.end_address
  pub indexed : (x : ℕ) → count x (items heap.index) ≡ count x (holes heap.start_address ps)
  pub valid : IsValid heap.index
  pub room : heap.index.size < heap.index.max_size
  pub compares : heap.index.less_than ≡ some header_t_less_than
  pub word : heap.end_address < 2 ^ 32

-- What becomes of a hole of size `s` from which `n` bytes are taken: a remainder too small for a
-- header, a footer and more stays with the block.
unfoldable pub carve : (s n : ℕ) → List Piece
carve s n = if ltb (s - n) 20 then piece s false ∷ [] else piece n false ∷ piece (s - n) true ∷ []
