-- ===== src/KHeap/GrowthTests.antt =====
-- The theorems about the heap that grows, at a concrete heap.
use cmsi.Base.{ℕ, ◌+◌, ◌*◌, ◌/◌, ◌<◌, ◌≤◌, ◌≡◌, ◌∙◌, refl, ap, sym, arith, ◌==◌, if◌then◌else◌}
use cmsi.Base.{true, false, none, some, List, [], ◌∷◌}
use mathlib.Core.Path.{subst}
use cmsi.Base.Outcome.{ok}
use cmsi.Memory.{Memory, load32, store32, store8}
use cmsi.OrderedArray.{lookup_ordered_array}
use cmsi.Kernel.{Kernel, Heap}
use cmsi.Paging.{page_pointer}
use cmsi.Paging.GetPage.{table_index}
use cmsi.KHeap.{alloc, grow, kmalloc_with}
use cmsi.KHeap.Layout.{get_size}
use cmsi.KHeap.Search.{find_hole_from, hole_fits}
use cmsi.KHeap.Resize.{round_up}
use cmsi.KHeap.Expand.{HasTables, Outside}
use cmsi.KHeap.Pieces.{Piece, piece, write_piece}
use cmsi.KHeap.WellFormed.{WellFormed}
use cmsi.KHeap.Alloc.{Taken}
use cmsi.KHeap.Grown.{CanGrow, grown_length, gain, with_end}
use cmsi.KHeap.Extended.{alloc_grown_lem}
use cmsi.KHeap.Overlap.{alloc_overlap}
use cmsi.KHeap.Filled.{alloc_fresh_lem}
use cmsi.KHeap.Samples.{AllRoom, write_pieces, write_pieces-Tiles, heap_of}

-- The heap of these pieces, a page at 0x1000, with a directory at 0x20000 whose first table is at
-- 0x30000, and a bitset of 32 frames at 0x40000.
abbrev paged : List Piece → (cells : List ℕ) → (size : ℕ) → Kernel
paged ps cells size = record {
  memory = write_pieces (λ a. if a == 0x20002 then 3 else 0) 0x1000 ps;
  placement_address = 0x5123;
  kheap = some (heap_of ps cells size);
  kernel_directory = 0x2_0000;
  current_directory = 0x2_0000;
  frames = 0x4_0000;
  nframes = 32;
  current_task = 0;
  ready_queue = 0;
  next_pid = 1;
  initial_esp = 0;
}

paged-HasTables :
    (m : Memory) (hi : ℕ)
    → load32 m 0x2_0000 ≡ 0x3_0000
    → hi ≤ 0x8000
    → HasTables m 0x2_0000 0x4_0000 32 0x1000 0x2000 hi
paged-HasTables m hi first low = record {
  some_frames = omega arith;
  most_frames = omega arith;
  bitset = omega (arith, low);
  table = λ a l u e. absurd (omega (arith, e, at a (omega arith), first));
  away = λ a l u.
      subst (λ (x : ℕ). Outside 0x2_0000 0x1000 hi (page_pointer x (a / 0x1000)) 4)
        (sym (at a (omega arith) ∙ first)) (omega (arith, low));
}
  where
    at : (a : ℕ) → a < 0x8000 → load32 m (0x2_0000 + 4 * table_index a) ≡ load32 m 0x2_0000
    at a u = ap (λ (x : ℕ). load32 m x) (omega arith)

-- A block, and a hole up to the heap's end.
abbrev ending : List Piece
ending = piece 32 false ∷ piece 0xfe0 true ∷ []

abbrev ending_cells : List ℕ
ending_cells = 0x1020 ∷ 0 ∷ 0 ∷ 0 ∷ []

ending-WellFormed : WellFormed (paged ending ending_cells 1) (heap_of ending ending_cells 1) ending
unfolding AllRoom
ending-WellFormed = record {
  is_heap = refl;
  tiled = write_pieces-Tiles _ 0x2000 0x1000 ending (omega arith, (omega arith, tt)) (omega arith);
  indexed = λ x. omega arith;
  valid = omega arith;
  room = omega arith;
  compares = refl;
  word = omega arith;
}

ending-table : load32 (paged ending ending_cells 1).memory 0x2_0000 ≡ 0x3_0000
unfolding write_pieces write_piece load32 store32 store8
ending-table = refl

ending-full :
    find_hole_from 0x1014 0
      (paged ending ending_cells 1).memory
      (heap_of ending ending_cells 1).index
      1
      0
    ≡ ok none
unfolding find_hole_from hole_fits lookup_ordered_array write_pieces write_piece load32 store32
    store8
ending-full = refl

ending-length : grown_length (heap_of ending ending_cells 1) 0x1014 ≡ 0x3000
unfolding round_up
ending-length = refl

ending-CanGrow : CanGrow (paged ending ending_cells 1) (heap_of ending ending_cells 1) 0x1014
ending-CanGrow = record {
  low = omega arith;
  page = omega arith;
  some_bytes = omega arith;
  few = omega arith;
  fits = omega (arith, ending-length);
  top = omega arith;
  word = omega arith;
  tables =
      paged-HasTables (paged ending ending_cells 1).memory
        (0x1000 + grown_length (heap_of ending ending_cells 1) 0x1014) ending-table
        (omega (arith, ending-length));
}

alloc_grown_example :
    (addr : ℕ) × (k₁ : Kernel) × (k' : Kernel) × (alloc 2 0x1000 0 (paged ending ending_cells 1)
      ≡ ok (addr, k'))
    × WellFormed k₁
        (with_end (heap_of ending ending_cells 1) 0x1014)
        (piece 32 false ∷ piece (0xfe0 + gain (heap_of ending ending_cells 1) 0x1014) true ∷ [])
    × ((b : ℕ) → 0x1000 ≤ b → b < 0x1020 → k₁.memory b ≡ (paged ending ending_cells 1).memory b)
    × Taken k₁
        (with_end (heap_of ending ending_cells 1) 0x1014)
        (piece 32 false ∷ piece (0xfe0 + gain (heap_of ending ending_cells 1) 0x1014) true ∷ [])
        0x1000
        k'
        addr
alloc_grown_example =
    alloc_grown_lem (paged ending ending_cells 1) (heap_of ending ending_cells 1)
      (piece 32 false ∷ []) 0xfe0 0x1000 0 ending-WellFormed ending-full ending-CanGrow

-- A small hole in front of a block that ends the heap.
abbrev enclosed : List Piece
enclosed = piece 0xf00 false ∷ piece 32 true ∷ piece 0xe0 false ∷ []

abbrev enclosed_cells : List ℕ
enclosed_cells = 0x1f00 ∷ 0 ∷ 0 ∷ 0 ∷ []

enclosed-WellFormed :
    WellFormed (paged enclosed enclosed_cells 1) (heap_of enclosed enclosed_cells 1) enclosed
unfolding AllRoom
enclosed-WellFormed = record {
  is_heap = refl;
  tiled =
      write_pieces-Tiles _ 0x2000 0x1000 enclosed (omega arith, (omega arith, (omega arith, tt)))
        (omega arith);
  indexed = λ x. omega arith;
  valid = omega arith;
  room = omega arith;
  compares = refl;
  word = omega arith;
}

enclosed-table : load32 (paged enclosed enclosed_cells 1).memory 0x2_0000 ≡ 0x3_0000
unfolding write_pieces write_piece load32 store32 store8
enclosed-table = refl

enclosed-full :
    find_hole_from 120 0
      (paged enclosed enclosed_cells 1).memory
      (heap_of enclosed enclosed_cells 1).index
      1
      0
    ≡ ok none
unfolding find_hole_from hole_fits lookup_ordered_array write_pieces write_piece load32 store32
    store8
enclosed-full = refl

enclosed-length : grown_length (heap_of enclosed enclosed_cells 1) 120 ≡ 0x2000
unfolding round_up
enclosed-length = refl

enclosed-CanGrow : CanGrow (paged enclosed enclosed_cells 1) (heap_of enclosed enclosed_cells 1) 120
enclosed-CanGrow = record {
  low = omega arith;
  page = omega arith;
  some_bytes = omega arith;
  few = omega arith;
  fits = omega (arith, enclosed-length);
  top = omega arith;
  word = omega arith;
  tables =
      paged-HasTables (paged enclosed enclosed_cells 1).memory
        (0x1000 + grown_length (heap_of enclosed enclosed_cells 1) 120) enclosed-table
        (omega (arith, enclosed-length));
}

alloc_overlap_example :
    (k₁ : Kernel) × (k' : Kernel) × (grow
        (λ sz. kmalloc_with (alloc 1) sz 1 true)
        120
        (paged enclosed enclosed_cells 1)
      ≡ ok (tt, k₁))
    × (get_size k₁.memory 0x1f00 ≡ 32 + gain (heap_of enclosed enclosed_cells 1) 120)
    × (alloc 2 100 0 (paged enclosed enclosed_cells 1) ≡ ok (0x1f0c, k'))
    × (0x1f0c ≤ 0x1f20)
    × (0x1f20 < 0x1f0c + 100 + 8)
alloc_overlap_example =
    alloc_overlap (paged enclosed enclosed_cells 1) (heap_of enclosed enclosed_cells 1)
      (piece 0xf00 false ∷ []) 32 0xe0 [] 100 enclosed-WellFormed tt enclosed-full enclosed-CanGrow
      0

-- One block takes the whole heap.
abbrev filled : List Piece
filled = piece 0x1000 false ∷ []

abbrev no_cells : List ℕ
no_cells = 0 ∷ 0 ∷ 0 ∷ 0 ∷ []

filled-WellFormed : WellFormed (paged filled no_cells 0) (heap_of filled no_cells 0) filled
unfolding AllRoom
filled-WellFormed = record {
  is_heap = refl;
  tiled = write_pieces-Tiles _ 0x2000 0x1000 filled (omega arith, tt) (omega arith);
  indexed = λ x. refl;
  valid = omega arith;
  room = omega arith;
  compares = refl;
  word = omega arith;
}

filled-table : load32 (paged filled no_cells 0).memory 0x2_0000 ≡ 0x3_0000
unfolding write_pieces write_piece load32 store32 store8
filled-table = refl

filled-length : grown_length (heap_of filled no_cells 0) 120 ≡ 0x2000
unfolding round_up
filled-length = refl

filled-CanGrow : CanGrow (paged filled no_cells 0) (heap_of filled no_cells 0) 120
filled-CanGrow = record {
  low = omega arith;
  page = omega arith;
  some_bytes = omega arith;
  few = omega arith;
  fits = omega (arith, filled-length);
  top = omega arith;
  word = omega arith;
  tables =
      paged-HasTables (paged filled no_cells 0).memory
        (0x1000 + grown_length (heap_of filled no_cells 0) 120) filled-table
        (omega (arith, filled-length));
}

alloc_fresh_example :
    (addr : ℕ) × (k₁ : Kernel) × (heap₁ : Heap) × (k' : Kernel) × (alloc 2 100 0
        (paged filled no_cells 0)
      ≡ ok (addr, k'))
    × WellFormed k₁ heap₁
        (piece 0x1000 false ∷ piece (gain (heap_of filled no_cells 0) 120) true ∷ [])
    × ((b : ℕ) → 0x1000 ≤ b → b < 0x2000 → k₁.memory b ≡ (paged filled no_cells 0).memory b)
    × Taken k₁ heap₁
        (piece 0x1000 false ∷ piece (gain (heap_of filled no_cells 0) 120) true ∷ [])
        100
        k'
        addr
alloc_fresh_example =
    alloc_fresh_lem (paged filled no_cells 0) (heap_of filled no_cells 0) filled 100 0
      filled-WellFormed (refl, tt) (omega arith) filled-CanGrow
