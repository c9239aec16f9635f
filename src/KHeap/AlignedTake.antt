-- ===== src/KHeap/AlignedTake.antt =====
-- What `take_hole` does to a hole where the block's data must start on a page.
use cmsi.Base.{ℕ, ◌+◌, ◌-◌, ◌%◌, ◌≤◌, ◌<◌, ◌≡◌, ◌⊎◌, inl, refl, ap, ◌∙◌, arith}
use cmsi.Base.{true, false, some, List, [], ◌∷◌, ◌++◌, ◌==◌, if◌then◌else◌}
use mathlib.Core.Path.{subst}
use cmsi.Base.Outcome.{ok}
use cmsi.Memory.{Memory}
use cmsi.OrderedArray.Spec.{items}
use cmsi.OrderedArray.Insert.{insert_ordered_array_lem}
use cmsi.Kernel.{Kernel, Heap}
use cmsi.KHeap.{take_hole}
use cmsi.KHeap.Search.{header_t_less_than}
use cmsi.KHeap.Index.{count-insert_before}
use cmsi.KHeap.Pieces.{
  Piece, piece, total, count, PieceAt, agree-PieceAt, Tiles-piece, Tiles-replace,
}
use cmsi.KHeap.Pieces.{write_piece, write_piece-PieceAt, write_piece_outside}
use cmsi.KHeap.Take.{write_remainder-none, write_remainder-run}
use cmsi.KHeap.Carve.{entry, lookup-entry}
use cmsi.KHeap.Unify.{count-holes_run}
use cmsi.KHeap.WellFormed.{WellFormed}
use cmsi.KHeap.Aligned.{
  front_hole, front_hole-PieceAt, front_hole_outside, with_aligned, take_hole-aligned,
}

-- What becomes of a hole of size `s` from which a block of `n` bytes is taken behind a gap.
unfoldable pub carve_aligned : (s n gap : ℕ) → List Piece
carve_aligned s n gap =
    piece gap true
    ∷ piece n false
    ∷ (if s - gap - n == 0 then [] else piece (s - gap - n) true ∷ [])

-- What an aligned request does to the hole at entry `i` of the index.
abbrev pub TakenAligned :
    Kernel
    → Heap
    → (before : List Piece) → (s : ℕ) → (after : List Piece) → (i gap size : ℕ) → (k' : Kernel)
    → Type 0
TakenAligned k heap before s after i gap size k' =
    (heap' : Heap) × WellFormed k' heap' (before ++ (carve_aligned s (size + 20) gap ++ after))
    × ((b : ℕ) → (b < entry heap i) ⊎ (entry heap i + s ≤ b) → k'.memory b ≡ k.memory b)
    × (heap'.start_address ≡ heap.start_address)
    × (heap'.end_address ≡ heap.end_address)

module _ (k : Kernel) (heap : Heap) (before : List Piece) (s : ℕ) (after : List Piece)
    (i gap size : ℕ) (wf : WellFormed k heap (before ++ piece s true ∷ after))
    (listed : i < heap.index.size) (place : entry heap i ≡ heap.start_address + total before)
    (paged : 0x1000 ≤ entry heap i) (is_gap : gap + entry heap i % 0x1000 + 12 ≡ 0x1000)
    (room : 20 ≤ gap) (fits : size + 20 + gap ≤ s) where
  abbrev pub h : ℕ
  h = entry heap i

  abbrev pub n : ℕ
  n = size + 20

  pub the_piece : PieceAt k.memory heap.end_address h (piece s true) × (h + s ≤ heap.end_address)
  the_piece =
      Tiles-piece k.memory heap.end_address heap.start_address h before (piece s true) after
        heap.end_address place wf.tiled

  abbrev m₁ : Memory
  m₁ = front_hole k.memory h gap

  abbrev m₂ : Memory
  m₂ = write_piece m₁ (h + gap) (piece n false)

  outside₂ : (b : ℕ) → (b < h) ⊎ (h + gap + n ≤ b) → m₂ b ≡ k.memory b
  outside₂ b o =
      write_piece_outside m₁ (h + gap) (piece n false) b (omega arith) (omega arith)
      ∙ front_hole_outside k.memory h gap b room (omega arith)

  front_piece : PieceAt m₂ heap.end_address h (piece gap true)
  front_piece =
      let (_, inside) = the_piece in
      agree-PieceAt m₁ m₂ heap.end_address h (piece gap true)
        (λ b l u. write_piece_outside m₁ (h + gap) (piece n false) b (omega arith) (inl u))
        (front_hole-PieceAt k.memory heap.end_address h gap room (omega (arith, wf.word)))

  block_piece : PieceAt m₂ heap.end_address (h + gap) (piece n false)
  block_piece =
      let (_, inside) = the_piece in
      write_piece-PieceAt m₁ heap.end_address (h + gap) (piece n false) (omega arith)
        (omega (arith, wf.word))

  -- The block takes all that is behind the gap.
  pub exact :
      n + gap ≡ s
      → (k' : Kernel) × (take_hole size 1 i k ≡ ok (h + gap + 12, k'))
        × TakenAligned k heap before s after i gap size k'
  unfolding with_aligned carve_aligned
  exact all =
      let (at, inside) = the_piece in
      let none_left : (s - gap - n == 0) ≡ true = ground arith in
      let new : piece gap true ∷ piece n false ∷ [] ≡ carve_aligned s n gap = ground arith in
      (
        record k { memory = m₂ },
        take_hole-aligned k i h s gap paged is_gap room (omega arith) (omega (arith, wf.word)) heap
              size wf.is_heap (lookup-entry k heap before s after i wf listed place) at.sized fits
            ∙ simp (
                write_remainder-none (record k { memory = m₂ }) (h + gap) size n (s - gap)
                  (omega arith) (omega (arith, wf.word))),
        (
          heap,
          subst (λ ps. WellFormed (record k { memory = m₂ }) heap (before ++ (ps ++ after))) new
              (record {
                is_heap = wf.is_heap;
                tiled =
                    Tiles-replace k.memory m₂ heap.end_address heap.start_address h before
                      (piece s true) (piece gap true ∷ piece n false ∷ []) after heap.end_address
                      place (λ b o. outside₂ b (omega arith))
                      (front_piece, (block_piece, omega arith)) wf.tiled;
                indexed = λ x. ground (
                  arith,
                  wf.indexed x,
                  count-holes_run x heap.start_address h before (piece s true ∷ []) after place,
                  count-holes_run x heap.start_address h before
                      (piece gap true ∷ piece n false ∷ []) after place,
                );
                valid = wf.valid;
                room = wf.room;
                compares = wf.compares;
                word = wf.word;
              }),
          (λ b o. outside₂ b (omega arith)),
          refl,
          refl,
        ),
      )

  abbrev rem : ℕ
  rem = s - gap - n

  abbrev m₃ : Memory
  m₃ = write_piece m₂ (h + gap + n) (piece rem true)

  -- What is left behind the block is a hole.
  pub divided :
      heap.index.size + 1 < heap.index.max_size
      → n + gap + 20 ≤ s
      → (k' : Kernel) × (take_hole size 1 i k ≡ ok (h + gap + 12, k'))
        × TakenAligned k heap before s after i gap size k'
  unfolding with_aligned carve_aligned
  divided index_room more =
      let (at, inside) = the_piece in
      let some_left : (s - gap - n == 0) ≡ false = ground arith in
      let new : piece gap true ∷ piece n false ∷ piece rem true ∷ [] ≡ carve_aligned s n gap =
        ground arith in
      let (index, inserted, new_items, valid, larger, same_max, same_less) =
        insert_ordered_array_lem m₃ (h + gap + n) wf.valid wf.compares (omega (arith, wf.room)) in
      let kept = λ (b : ℕ) (u : b < h + gap + n).
        write_piece_outside m₂ (h + gap + n) (piece rem true) b (omega arith) (inl u) in
      let outside = λ (b : ℕ) (o : (b < h) ⊎ (h + s ≤ b)).
        write_piece_outside m₂ (h + gap + n) (piece rem true) b (omega arith) (omega arith)
        ∙ outside₂ b (omega arith) in
      let k' = record k { memory = m₃; kheap = some (record heap { index = index }) } in
      (
        k',
        take_hole-aligned k i h s gap paged is_gap room (omega arith) (omega (arith, wf.word)) heap
              size wf.is_heap (lookup-entry k heap before s after i wf listed place) at.sized fits
            ∙ simp (
                write_remainder-run (record k { memory = m₂ }) heap index (h + gap) size n (s - gap)
                  wf.is_heap refl (omega arith) (omega arith) wf.word inserted),
        (
          record heap { index = index },
          subst (λ ps. WellFormed k' (record heap { index = index }) (before ++ (ps ++ after))) new
              (record {
                is_heap = refl;
                tiled =
                    Tiles-replace k.memory m₃ heap.end_address heap.start_address h before
                      (piece s true) (piece gap true ∷ piece n false ∷ piece rem true ∷ []) after
                      heap.end_address place outside
                      (
                        agree-PieceAt m₂ m₃ heap.end_address h (piece gap true)
                            (λ b l u. kept b (omega arith)) front_piece,
                        (
                          agree-PieceAt m₂ m₃ heap.end_address (h + gap) (piece n false)
                              (λ b l u. kept b u) block_piece,
                          (
                            write_piece-PieceAt m₂ heap.end_address (h + gap + n) (piece rem true)
                                (omega arith) (omega (arith, wf.word)),
                            omega arith,
                          ),
                        ),
                      )
                      wf.tiled;
                indexed = λ x. ground (
                  arith,
                  ap (count x) new_items,
                  count-insert_before x (header_t_less_than m₃) (h + gap + n) (items heap.index),
                  wf.indexed x,
                  count-holes_run x heap.start_address h before (piece s true ∷ []) after place,
                  count-holes_run x heap.start_address h before
                      (piece gap true ∷ piece n false ∷ piece rem true ∷ []) after place,
                );
                valid = valid;
                room = omega arith;
                compares = same_less;
                word = wf.word;
              }),
          outside,
          refl,
          refl,
        ),
      )
