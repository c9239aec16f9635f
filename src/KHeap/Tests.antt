-- ===== src/KHeap/Tests.antt =====
-- The theorems about the heap at a concrete heap.
use cmsi.Base.{◌≢◌}
use cmsi.Base.{ℕ, ◌+◌, ◌<◌, ◌≡◌, refl, arith, inl, ◌≤◌, true, false, none, some, [], ◌∷◌}
use mathlib.Core.Path.{subst}
use cmsi.Memory.{Memory, load32, load8, store32, store8}
use cmsi.OrderedArray.{lookup_ordered_array}
use cmsi.Base.Outcome.{ok}
use cmsi.Kernel.{Kernel, Heap}
use cmsi.KHeap.{alloc}
use cmsi.KHeap.Pieces.{piece, write_piece}
use cmsi.KHeap.WellFormed.{WellFormed}
use cmsi.KHeap.{kmalloc_int}
use cmsi.KHeap.Release.{free}
use cmsi.KHeap.Layout.{get_is_hole, get_size, get_header}
use cmsi.KHeap.Pieces.{PieceAt}
use cmsi.KHeap.Freed.{free_lem, released}
use cmsi.KHeap.StaleFooter.{free_stale_footer}
use cmsi.KHeap.Placement.{kmalloc_early}
use cmsi.Base.{◌%◌, inr, ◌⊎◌}
use cmsi.KHeap.Alloc.{alloc_lem, Taken, FirstFit}
use cmsi.KHeap.{create_heap}
use cmsi.KHeap.Create.{create_heap_lem}
use cmsi.KHeap.Client.{Requests, allocates, start, Keeps, HasHole, Requests-Keeps}
use cmsi.KHeap.View.{WellFormed-unique}
use cmsi.KHeap.RoundTrip.{alloc-free}
use cmsi.KHeap.AlignedTake.{TakenAligned}
use cmsi.KHeap.AlignedAlloc.{alloc_aligned_lem}
use cmsi.KHeap.Search.{find_hole_from, hole_fits}
use cmsi.KHeap.Search.{align_offset}
use cmsi.Base.{get_or}
use cmsi.Base.{suc, zero}
use cmsi.KHeap.Samples.{
  some_pieces, write_pieces, heap_of, kernel_of, some_cells, some_heap-WellFormed, four, four_cells,
  four-WellFormed, two_pages, two_pages_cells, two_pages-WellFormed,
}

alloc_example :
    (addr : ℕ) × (k' : Kernel) × (alloc 1 30 0 (kernel_of some_pieces some_cells 2) ≡ ok (addr, k'))
    × Taken
        (kernel_of some_pieces some_cells 2)
        (heap_of some_pieces some_cells 2)
        some_pieces
        30
        k'
        addr
alloc_example =
    alloc_lem (kernel_of some_pieces some_cells 2) (heap_of some_pieces some_cells 2)
      (piece 32 false ∷ []) 100 (piece 24 false ∷ piece 64 true ∷ []) 30 0 some_heap-WellFormed
      (omega arith)

free_example :
    (k' : Kernel) × (heap' : Heap) × (free 0x102c (kernel_of (four false) (four_cells false) 1)
      ≡ ok (tt, k'))
    × WellFormed k' heap' (piece 32 false ∷ piece 24 true ∷ piece 40 false ∷ piece 64 true ∷ [])
    × ((b : ℕ)
        → (b < 0x1020) ⊎ (0x1038 ≤ b)
        → k'.memory b ≡ (kernel_of (four false) (four_cells false) 1).memory b)
    × (heap'.start_address ≡ 0x1000)
    × (heap'.end_address ≡ 0x10a0)
unfolding released
free_example =
    free_lem (kernel_of (four false) (four_cells false) 1)
      (heap_of (four false) (four_cells false) 1) [] (piece 32 false) 24 (piece 40 false)
      (piece 64 true ∷ []) (four-WellFormed false) (omega arith) refl

free_stale_footer_example :
    (k' : Kernel) × (free 0x102c (kernel_of (four true) (four_cells true) 1) ≡ ok (tt, k'))
    × (get_is_hole k'.memory 0x1020 ≡ 1)
    × (get_size k'.memory 0x1020 ≡ 64)
    × (get_header k'.memory 0x1058 ≡ 0x1038)
    × ¬ PieceAt k'.memory 0x10a0 0x1020 (piece 64 true)
free_stale_footer_example =
    free_stale_footer (kernel_of (four true) (four_cells true) 1)
      (heap_of (four true) (four_cells true) 1) [] (piece 32 false) 24 (piece 40 true)
      (piece 64 false ∷ []) (four-WellFormed true) refl refl (omega arith)

abbrev early : Kernel
early = record (kernel_of [] [] 0) { kheap = none }

kmalloc_early_example :
    (addr : ℕ) × (k' : Kernel) × (kmalloc_int 0 100 1 true early ≡ ok ((addr, addr), k'))
    × (0x5123 ≤ addr)
    × (addr ≤ 0x6123)
    × (k'.placement_address ≡ addr + 100)
    × (k'.memory ≡ early.memory)
    × (k'.kheap ≡ none)
    × (◌≡◌ {A = ℕ} 1 1 → 0x1000 ≤ 0x5123 → (addr % 0x1000 ≡ 0) × (0x5123 < addr))
    × ((0x5123 < 0x1000) → addr ≡ 0x5123)
    × (◌≢◌ {A = ℕ} 1 1 → addr ≡ 0x5123)
kmalloc_early_example = kmalloc_early early 0 100 1 true refl (omega arith)

create_heap_example :
    (heap : Heap) × (k' : Kernel) × (create_heap 0 0x10_0000 0x20_0000 0x30_0000 0 0 early
      ≡ ok (heap, k'))
    × WellFormed (record k' { kheap = some heap }) heap (piece 0x7_f000 true ∷ [])
    × (heap.start_address ≡ 0x18_1000)
    × (heap.end_address ≡ 0x20_0000)
    × (heap.max_address ≡ 0x30_0000)
create_heap_example =
    create_heap_lem early 0 0x10_0000 0x20_0000 0x30_0000 0 0 refl refl refl (omega arith)
      (omega arith)

abbrev some_memory : Memory
some_memory = (kernel_of some_pieces some_cells 2).memory

hole_sizes : (get_size some_memory 0x109c ≡ 64) × (get_size some_memory 0x1020 ≡ 100)
unfolding write_pieces write_piece load32 load8 store32 store8
hole_sizes = (refl, refl)

first_small : (j : ℕ) → 0 ≤ j → j < 1 → get_size some_memory (get_or some_cells j 0) < 90
first_small zero l h = omega (arith, hole_sizes.0)
first_small (suc j) l h = absurd (omega arith)

-- The second entry of the index is the first hole with 90 bytes.
second-FirstFit : FirstFit some_memory some_cells 0 2 90 1
second-FirstFit = record {
  listed = omega arith;
  fits = omega (arith, hole_sizes.1);
  from_there = omega arith;
  first = first_small;
}

alloc-free_example :
    (addr : ℕ) × (k' : Kernel) × (k'' : Kernel) × (heap'' : Heap) × (alloc 1 70 0
        (kernel_of some_pieces some_cells 2)
      ≡ ok (addr, k'))
    × (free addr k' ≡ ok (tt, k''))
    × WellFormed k'' heap'' some_pieces
alloc-free_example =
    alloc-free (kernel_of some_pieces some_cells 2) (heap_of some_pieces some_cells 2) []
      (piece 32 false) 100 (piece 24 false) (piece 64 true ∷ []) 1 70 0 some_heap-WellFormed
      second-FirstFit (omega arith) (omega arith) (omega arith) refl refl

aligned-found :
    find_hole_from 120 1
      (kernel_of two_pages two_pages_cells 1).memory
      (heap_of two_pages two_pages_cells 1).index
      1
      0
    ≡ ok (some 0)
unfolding find_hole_from hole_fits align_offset lookup_ordered_array write_pieces write_piece load32
    load8 store32 store8
aligned-found = refl

alloc_aligned_example :
    (addr : ℕ) × (k' : Kernel) × (alloc 1 100 1 (kernel_of two_pages two_pages_cells 1)
      ≡ ok (addr, k'))
    × (addr ≡ 0x2000)
    × (addr % 0x1000 ≡ 0)
    × TakenAligned
        (kernel_of two_pages two_pages_cells 1)
        (heap_of two_pages two_pages_cells 1)
        (piece 32 false ∷ [])
        0x2000
        []
        0
        0xfd4
        100
        k'
alloc_aligned_example =
    alloc_aligned_lem (kernel_of two_pages two_pages_cells 1) (heap_of two_pages two_pages_cells 1)
      (piece 32 false ∷ []) 0x2000 [] 0 0xfd4 100 0 two_pages-WellFormed aligned-found (omega arith)
      (omega arith) (omega arith) (omega arith) (inr (omega arith)) (omega arith)

-- The heap when a block of 70 bytes has been taken from the first hole.
abbrev with_block : Kernel
with_block =
    (alloc_lem (kernel_of some_pieces some_cells 2) (heap_of some_pieces some_cells 2)
      (piece 32 false ∷ []) 100 (piece 24 false ∷ piece 64 true ∷ []) 70 0 some_heap-WellFormed
      (omega arith)).1

one_request : Requests 0x1000 (kernel_of some_pieces some_cells 2) with_block
one_request =
    let (addr, k', ran, _) =
      alloc_lem (kernel_of some_pieces some_cells 2) (heap_of some_pieces some_cells 2)
        (piece 32 false ∷ []) 100 (piece 24 false ∷ piece 64 true ∷ []) 70 0 some_heap-WellFormed
        (omega arith) in
    allocates 70 0 addr start
      (λ heap ps wf.
        subst (λ l. HasHole l 90)
          (WellFormed-unique (kernel_of some_pieces some_cells 2) (heap_of some_pieces some_cells 2)
            heap some_pieces ps some_heap-WellFormed wf)
          (record {
            before = piece 32 false ∷ [];
            size = 100;
            after = piece 24 false ∷ piece 64 true ∷ [];
            parts = refl;
            fits = omega arith;
          }))
      ran

-- The block at 0x1000 stays.
requests_example :
    Keeps
      (kernel_of some_pieces some_cells 2)
      with_block
      (heap_of some_pieces some_cells 2)
      0x1000
      32
requests_example =
    Requests-Keeps (heap_of some_pieces some_cells 2) some_pieces 0x1000 32
      (kernel_of some_pieces some_cells 2) with_block some_heap-WellFormed (inl (refl, refl, refl))
      one_request
