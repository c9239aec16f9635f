-- ===== src/KHeap/Carve.antt =====
-- A block carved from a hole: the pieces and the index of holes change together.
use cmsi.Base.{ℕ, ◌+◌, ◌-◌, ◌≤◌, ◌<◌, ◌≡◌, refl, ◌⊎◌, inl, ap, ◌∙◌, arith}
use cmsi.Base.{true, false, some, List, [], ◌∷◌, ◌++◌, ◌==◌, if◌then◌else◌}
use cmsi.Base.{get_or, length-take}
use cmsi.Base.Outcome.{ok}
use cmsi.OrderedArray.{lookup_ordered_array}
use cmsi.OrderedArray.Spec.{items, remove_at}
use cmsi.OrderedArray.Insert.{insert_ordered_array_lem}
use cmsi.OrderedArray.Remove.{remove_ordered_array_lem, lookup_ordered_array_lem}
use cmsi.Kernel.{Kernel, Heap}
use cmsi.KHeap.{take_hole}
use cmsi.KHeap.Search.{header_t_less_than}
use cmsi.KHeap.Index.{count-insert_before, count-remove_at, get_or-take}
use cmsi.KHeap.Pieces.{Piece, piece, total, holes, count, count-append, holes-append, PieceAt}
use cmsi.KHeap.Pieces.{
  agree-PieceAt, write_piece, write_piece_outside, write_piece-PieceAt, Tiles-replace, Tiles-piece,
}
use cmsi.KHeap.WellFormed.{WellFormed}
use cmsi.KHeap.Take.{with_block, take_hole-split, take_hole-small, write_remainder-run}

-- The holes after a hole became a block, and after it became a block and a smaller hole.
module _ (x a h : ℕ) (before : List Piece) (s n : ℕ) (after : List Piece)
    (place : h ≡ a + total before) where
  count-holes_block :
      count x (holes a (before ++ piece s true ∷ after))
      ≡ count x (holes a (before ++ piece s false ∷ after)) + (if h == x then 1 else 0)
  count-holes_block = ground (
    arith,
    holes-append a h before (piece s true ∷ after) place,
    holes-append a h before (piece s false ∷ after) place,
    count-append x (holes a before) (h ∷ holes (h + s) after),
    count-append x (holes a before) (holes (h + s) after),
  )

  count-holes_split :
      n ≤ s
      → count x (holes a (before ++ piece s true ∷ after)) + (if h + n == x then 1 else 0)
        ≡ count x (holes a (before ++ piece n false ∷ piece (s - n) true ∷ after))
          + (if h == x then 1 else 0)
  count-holes_split fits = ground (
    arith,
    holes-append a h before (piece s true ∷ after) place,
    holes-append a h before (piece n false ∷ piece (s - n) true ∷ after) place,
    count-append x (holes a before) (h ∷ holes (h + s) after),
    count-append x (holes a before) ((h + n) ∷ holes (h + n + (s - n)) after),
    ap (λ (e : ℕ). holes e after) rest,
  )
    where
      rest : h + n + (s - n) ≡ h + s
      rest = omega arith

-- The entry of the index at `i`.
abbrev pub entry : Heap → ℕ → ℕ
entry heap i = get_or heap.index.cells i 0

module _ (k : Kernel) (heap : Heap) (before : List Piece) (s : ℕ) (after : List Piece) (i : ℕ)
    (wf : WellFormed k heap (before ++ piece s true ∷ after)) (listed : i < heap.index.size)
    (place : entry heap i ≡ heap.start_address + total before) where
  pub hole_piece :
      PieceAt k.memory heap.end_address (entry heap i) (piece s true)
      × (entry heap i + s ≤ heap.end_address)
  hole_piece =
      Tiles-piece k.memory heap.end_address heap.start_address (entry heap i) before (piece s true)
        after heap.end_address place wf.tiled

  -- Removing the entry takes the hole from the count.
  count_removed :
      (x : ℕ) (rest : List ℕ)
      → rest ≡ remove_at i (items heap.index)
      → (if entry heap i == x then 1 else 0) + count x rest
        ≡ count x (holes heap.start_address (before ++ piece s true ∷ after))
  count_removed x rest e = ground (
    arith,
    wf.valid,
    count-remove_at x i (items heap.index)
        (omega (arith, wf.valid, length-take heap.index.size heap.index.cells)),
    get_or-take heap.index.size i heap.index.cells listed (omega (arith, wf.valid)),
    wf.indexed x,
  )

  pub lookup-entry : lookup_ordered_array i heap.index ≡ ok (entry heap i)
  lookup-entry = ground (arith, lookup_ordered_array_lem i wf.valid)

  -- With a remainder too small for a hole, the whole hole becomes the block.
  pub take_hole_whole :
      (size : ℕ)
      → size + 20 ≤ s
      → s < size + 40
      → (k' : Kernel) × (heap' : Heap) × (take_hole size 0 i k ≡ ok (entry heap i + 12, k'))
        × WellFormed k' heap' (before ++ piece s false ∷ after)
        × ((b : ℕ) → (b < entry heap i) ⊎ (entry heap i + s ≤ b) → k'.memory b ≡ k.memory b)
        × (heap'.start_address ≡ heap.start_address)
        × (heap'.end_address ≡ heap.end_address)
        × (heap'.index.size + 1 ≡ heap.index.size)
        × (heap'.index.max_size ≡ heap.index.max_size)
        × (k' ≡ record k { memory = k'.memory; kheap = k'.kheap })
  unfolding with_block
  take_hole_whole size fits tight =
      let (at, inside) = hole_piece in
      let (index, removed, left, valid, smaller, same_max, same_less) =
        remove_ordered_array_lem i wf.valid listed wf.room in
      let h = entry heap i in
      let outside = λ (b : ℕ) (o : (b < h) ⊎ (h + s ≤ b)).
        write_piece_outside k.memory h (piece s false) b at.room o in
      (
        with_block k heap index size i h s wf.is_heap lookup-entry at.sized removed
            (omega (arith, wf.word)) s,
        record heap { index = index },
        take_hole-small k heap index size i h s wf.is_heap lookup-entry at.sized removed
            (omega (arith, wf.word)) fits tight,
        record {
          is_heap = refl;
          tiled =
              Tiles-replace k.memory _ heap.end_address heap.start_address h before (piece s true)
                (piece s false ∷ []) after heap.end_address place outside
                (
                  write_piece-PieceAt k.memory heap.end_address h (piece s false) at.room
                      (omega (arith, wf.word)),
                  refl,
                )
                wf.tiled;
          indexed = λ x. ground (
            arith,
            count_removed x (items index) left,
            count-holes_block x heap.start_address h before s 0 after place,
          );
          valid = valid;
          room = omega (arith, wf.room);
          compares = same_less ∙ wf.compares;
          word = wf.word;
        },
        outside,
        refl,
        refl,
        smaller,
        same_max,
        refl,
      )

  -- With a larger remainder, the hole becomes the block and a smaller hole.
  pub take_hole_divided :
      (size : ℕ)
      → size + 40 ≤ s
      → (k' : Kernel) × (heap' : Heap) × (take_hole size 0 i k ≡ ok (entry heap i + 12, k'))
        × WellFormed k' heap'
            (before ++ piece (size + 20) false ∷ piece (s - (size + 20)) true ∷ after)
        × ((b : ℕ) → (b < entry heap i) ⊎ (entry heap i + s ≤ b) → k'.memory b ≡ k.memory b)
        × (heap'.start_address ≡ heap.start_address)
        × (heap'.end_address ≡ heap.end_address)
        × (k' ≡ record k { memory = k'.memory; kheap = k'.kheap })
  unfolding with_block
  take_hole_divided size fits =
      let (at, inside) = hole_piece in
      let (index, removed, left, valid, smaller, same_max, same_less) =
        remove_ordered_array_lem i wf.valid listed wf.room in
      let h = entry heap i in
      let n = size + 20 in
      let m₁ = write_piece k.memory h (piece n false) in
      let m₂ = write_piece m₁ (h + n) (piece (s - n) true) in
      let (index₂, inserted, new, valid₂, larger, same_max₂, same_less₂) =
        insert_ordered_array_lem m₂ (h + n) valid (same_less ∙ wf.compares)
          (omega (arith, wf.room)) in
      let outside = λ (b : ℕ) (o : (b < h) ⊎ (h + s ≤ b)).
        write_piece_outside m₁ (h + n) (piece (s - n) true) b (omega arith) (omega arith)
        ∙ write_piece_outside k.memory h (piece n false) b (omega arith) (omega arith) in
      let block =
        write_piece-PieceAt k.memory heap.end_address h (piece n false) (omega arith)
          (omega (arith, wf.word)) in
      let rest =
        write_piece-PieceAt m₁ heap.end_address (h + n) (piece (s - n) true) (omega arith)
          (omega (arith, wf.word)) in
      (
        record k { memory = m₂; kheap = some (record heap { index = index₂ }) },
        record heap { index = index₂ },
        take_hole-split k heap index size i h s wf.is_heap lookup-entry at.sized removed
              (omega (arith, wf.word)) fits
            ∙ simp (
                write_remainder-run
                  (with_block k heap index size i h s wf.is_heap lookup-entry at.sized removed
                    (omega (arith, wf.word)) n)
                  (record heap { index = index }) index₂ h size n s refl refl (omega arith) inside
                  wf.word inserted),
        record {
          is_heap = refl;
          tiled =
              Tiles-replace k.memory m₂ heap.end_address heap.start_address h before (piece s true)
                (piece n false ∷ piece (s - n) true ∷ []) after heap.end_address place outside
                (
                  agree-PieceAt m₁ m₂ heap.end_address h (piece n false)
                      (λ b l u.
                        write_piece_outside m₁ (h + n) (piece (s - n) true) b (omega arith) (inl u))
                      block,
                  (rest, omega arith),
                )
                wf.tiled;
          indexed = λ x. ground (
            arith,
            ap (count x) new,
            count-insert_before x (header_t_less_than m₂) (h + n) (items index),
            count_removed x (items index) left,
            count-holes_split x heap.start_address h before s n after place (omega arith),
          );
          valid = valid₂;
          room = omega (arith, wf.room);
          compares = same_less₂;
          word = wf.word;
        },
        outside,
        refl,
        refl,
        refl,
      )
