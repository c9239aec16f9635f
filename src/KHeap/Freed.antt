-- ===== src/KHeap/Freed.antt =====
-- `free` of a block with no hole behind it, whatever is in front of it.
use cmsi.Base.{ℕ, ◌+◌, ◌<◌, ◌≤◌, ◌≡◌, refl, inl, inr, arith, ◌⊎◌, Bool-cases}
use cmsi.Base.{true, false, List, [], ◌∷◌, ◌++◌, if◌then◌else◌}
use mathlib.Core.Path.{subst}
use cmsi.Base.Outcome.{ok}
use cmsi.Kernel.{Kernel, Heap}
use cmsi.KHeap.Release.{free}
use cmsi.KHeap.Pieces.{Piece, piece, total}
use cmsi.KHeap.WellFormed.{WellFormed}
use cmsi.KHeap.Free.{free_block_lem, free_hole_lem, joined, joined_outside}

-- What becomes of a piece and the block of size `s` behind it when the block is freed: a hole takes the
-- block over.
unfoldable pub released : (q : Piece) (s : ℕ) → List Piece
released q s = if q.is_hole then piece (q.size + s) true ∷ [] else q ∷ piece s true ∷ []

-- On a well-formed heap with room for two more holes in its index, free of a block that lies behind
-- piece `q`, and before a block, returns: the block becomes a hole of its own if `q` is a block, and
-- part of `q` if that is a hole; the heap is well-formed with these pieces, and no byte changes but
-- those of the block, and of `q` if that is a hole.
pub free_lem :
    (k : Kernel) (heap : Heap) (before : List Piece) (q : Piece) (s : ℕ) (r : Piece)
    (after : List Piece)
    → WellFormed k heap (before ++ q ∷ piece s false ∷ r ∷ after)
    → heap.index.size + 1 < heap.index.max_size
    → r.is_hole ≡ false
    → (k' : Kernel) × (heap' : Heap) × (free (heap.start_address + total before + q.size + 12) k
        ≡ ok (tt, k'))
      × WellFormed k' heap' (before ++ (released q s ++ r ∷ after))
      × ((b : ℕ)
          → (b < heap.start_address + total before + (if q.is_hole then 0 else q.size))
            ⊎ (heap.start_address + total before + q.size + s ≤ b)
          → k'.memory b ≡ k.memory b)
      × (heap'.start_address ≡ heap.start_address)
      × (heap'.end_address ≡ heap.end_address)
unfolding released
free_lem k heap before q s r after wf room behind = elim (Bool-cases (q.is_hole)) [
  | inl hole ↦
      let (run, well_formed) = free_hole_lem k heap before q s r after wf hole behind in
      let same : piece (q.size + s) true ∷ [] ≡ released q s = ground arith in
      (
        record k { memory = joined k heap before q s r after wf },
        heap,
        run,
        subst
            (λ x.
              WellFormed (record k { memory = joined k heap before q s r after wf }) heap
                (before ++ (x ++ r ∷ after)))
            same well_formed,
        (λ b o. joined_outside k heap before q s r after wf b (ground arith)),
        refl,
        refl,
      )
  | inr block ↦
      let (k', heap', run, well_formed, outside, start, end) =
        free_block_lem k heap before q s r after wf room block behind in
      let same : q ∷ piece s true ∷ [] ≡ released q s = ground arith in
      (
        k',
        heap',
        run,
        subst (λ x. WellFormed k' heap' (before ++ (x ++ r ∷ after))) same well_formed,
        (λ b o. outside b (ground arith)),
        start,
        end,
      )
]
