-- ===== src/KHeap/Samples.antt =====
-- Heaps of a few pieces, with the memory that they take.
use cmsi.Base.{
  ℕ, ◌+◌, ◌<◌, ◌≡◌, refl, arith, inl, ◌^◌, ◌∙◌, ◌≤◌, Bool, true, false, some, List, [], ◌∷◌,
}
use mathlib.Core.Path.{subst}
use cmsi.Memory.{Memory}
use cmsi.Kernel.{Kernel, Heap}
use cmsi.KHeap.Search.{header_t_less_than}
use cmsi.KHeap.Pieces.{
  Piece, piece, write_piece, write_piece-PieceAt, write_piece_outside, agree-PieceAt, Tiles, total,
}
use cmsi.KHeap.WellFormed.{WellFormed}
use cmsi.Base.{not, Bool-cases, inr, if◌then◌else◌}

unfoldable pub AllRoom : List Piece → Type 0
AllRoom [] = Unit
AllRoom (p ∷ ps) = (20 ≤ p.size) × AllRoom ps

-- A block of 32 bytes at 0x1000, a hole of 100 at 0x1020, a block of 24 at 0x1084 and a hole of 64 at
-- 0x109c, with both holes in an index with room for four.
abbrev pub some_pieces : List Piece
some_pieces = piece 32 false ∷ piece 100 true ∷ piece 24 false ∷ piece 64 true ∷ []

unfoldable pub write_pieces : Memory → ℕ → List Piece → Memory
write_pieces m a [] = m
write_pieces m a (p ∷ ps) = write_pieces (write_piece m a p) (a + p.size) ps

write_pieces_below :
    (m : Memory) (a : ℕ) (ps : List Piece) (b : ℕ)
    → AllRoom ps
    → b < a
    → write_pieces m a ps b ≡ m b
unfolding write_pieces AllRoom
write_pieces_below m a [] b r h = refl
write_pieces_below m a (p ∷ ps) b (r, rs) h =
    write_pieces_below (write_piece m a p) (a + p.size) ps b rs (omega arith)
    ∙ write_piece_outside m a p b r (inl h)

-- The pieces written one after another tile their space.
pub write_pieces-Tiles :
    (m : Memory) (top a : ℕ) (ps : List Piece)
    → AllRoom ps
    → a + total ps < 2 ^ 32
    → Tiles (write_pieces m a ps) top a ps (a + total ps)
unfolding write_pieces AllRoom
write_pieces-Tiles m top a [] r h = omega arith
write_pieces-Tiles m top a (p ∷ ps) (r, rs) h = (
  agree-PieceAt (write_piece m a p) (write_pieces (write_piece m a p) (a + p.size) ps) top a p
      (λ b l u. write_pieces_below (write_piece m a p) (a + p.size) ps b rs u)
      (write_piece-PieceAt m top a p r (omega arith)),
  subst (λ e. Tiles (write_pieces (write_piece m a p) (a + p.size) ps) top (a + p.size) ps e)
      (omega arith) (write_pieces-Tiles (write_piece m a p) top (a + p.size) ps rs (omega arith)),
)

-- A heap of these pieces at 0x1000, the holes in its index.
abbrev pub heap_of : List Piece → (cells : List ℕ) → (size : ℕ) → Heap
heap_of ps cells size = record {
  index = record {
    array = 0x800;
    cells = cells;
    size = size;
    max_size = 4;
    less_than = some header_t_less_than;
  };
  start_address = 0x1000;
  end_address = 0x1000 + total ps;
  max_address = 0x8000;
  supervisor = 0;
  readonly = 0;
}

abbrev pub kernel_of : List Piece → (cells : List ℕ) → (size : ℕ) → Kernel
kernel_of ps cells size = record {
  memory = write_pieces (λ a. 0) 0x1000 ps;
  placement_address = 0x5123;
  kheap = some (heap_of ps cells size);
  kernel_directory = 0;
  current_directory = 0;
  frames = 0;
  nframes = 0;
  current_task = 0;
  ready_queue = 0;
  next_pid = 1;
  initial_esp = 0;
}

abbrev pub some_cells : List ℕ
some_cells = 0x109c ∷ 0x1020 ∷ 0 ∷ 0 ∷ []

pub some_heap-WellFormed :
    WellFormed (kernel_of some_pieces some_cells 2) (heap_of some_pieces some_cells 2) some_pieces
unfolding AllRoom
some_heap-WellFormed = record {
  is_heap = refl;
  tiled =
      write_pieces-Tiles (λ a. 0) 0x10dc 0x1000 some_pieces
        (omega arith, (omega arith, (omega arith, (omega arith, tt)))) (omega arith);
  indexed = λ x. omega arith;
  valid = omega arith;
  room = omega arith;
  compares = refl;
  word = omega arith;
}

-- Four pieces of which the third may be a hole, which the index then has.
abbrev pub four : Bool → List Piece
four h = piece 32 false ∷ piece 24 false ∷ piece 40 h ∷ piece 64 (not h) ∷ []

abbrev pub four_cells : Bool → List ℕ
four_cells h = (if h then 0x1038 else 0x1060) ∷ 0 ∷ 0 ∷ 0 ∷ []

pub four-WellFormed :
    (h : Bool)
    → WellFormed (kernel_of (four h) (four_cells h) 1) (heap_of (four h) (four_cells h) 1) (four h)
unfolding AllRoom
four-WellFormed h = record {
  is_heap = refl;
  tiled =
      write_pieces-Tiles (λ a. 0) 0x10a0 0x1000 (four h)
        (omega arith, (omega arith, (omega arith, (omega arith, tt)))) (omega arith);
  indexed = λ x. elim (Bool-cases h) [ inl e ↦ ground arith | inr e ↦ ground arith ];
  valid = omega arith;
  room = omega arith;
  compares = refl;
  word = omega arith;
}

-- A block of 32 bytes at 0x1000 and a hole of two pages behind it.
abbrev pub two_pages : List Piece
two_pages = piece 32 false ∷ piece 0x2000 true ∷ []

abbrev pub two_pages_cells : List ℕ
two_pages_cells = 0x1020 ∷ 0 ∷ 0 ∷ 0 ∷ []

pub two_pages-WellFormed :
    WellFormed
      (kernel_of two_pages two_pages_cells 1)
      (heap_of two_pages two_pages_cells 1)
      two_pages
unfolding AllRoom
two_pages-WellFormed = record {
  is_heap = refl;
  tiled =
      write_pieces-Tiles (λ a. 0) 0x3020 0x1000 two_pages (omega arith, (omega arith, tt))
        (omega arith);
  indexed = λ x. omega arith;
  valid = omega arith;
  room = omega arith;
  compares = refl;
  word = omega arith;
}
