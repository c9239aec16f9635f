-- ===== src/KHeap/AlignedAlloc.antt =====
-- About `alloc` of IcarusOS/kheap.c with alignment, where the parts of the hole have room for their
-- headers and footers.
use cmsi.Base.{ℕ, zero, suc, ◌+◌, ◌%◌, ◌≤◌, ◌<◌, ◌≡◌, ◌⊎◌, inl, inr, refl, sym, ◌∙◌, arith}
use cmsi.Base.{true, some, none, List, ◌∷◌, ◌++◌, if◌then◌else◌, Bool-cases}
use mathlib.Core.Path.{subst}
use cmsi.Base.Words.{add32}
use cmsi.Base.Outcome.{ok}
use cmsi.Memory.{Memory}
use cmsi.OrderedArray.{OrderedArray, lookup_ordered_array}
use cmsi.OrderedArray.Spec.{IsValid}
use cmsi.OrderedArray.Remove.{lookup_ordered_array_lem}
use cmsi.Base.Outcome.{ok-injective}
use cmsi.Base.{get_or, Option}
use cmsi.Kernel.{Kernel, Heap, the_heap-some}
use cmsi.KHeap.{alloc, find_smallest_hole, take_hole}
use cmsi.KHeap.Search.{find_hole_from, hole_fits}
use cmsi.KHeap.Layout.{get_size}
use cmsi.KHeap.Pieces.{Piece, piece, total}
use cmsi.KHeap.Carve.{entry}
use cmsi.KHeap.WellFormed.{WellFormed}
use cmsi.KHeap.AlignedTake.{TakenAligned, the_piece, exact, divided}

not-none : (i : ℕ) → ◌≡◌ {A = Option ℕ} none (some i) → ⊥
not-none i h = cc

some-injective : {a b : ℕ} → some a ≡ some b → a ≡ b
some-injective h = cc

-- A hole that the search finds fits.
find_hole_from-step :
    (m : Memory) (index : OrderedArray Memory) (n align rounds iterator : ℕ)
    → IsValid index
    → iterator < index.size
    → find_hole_from n align m index (suc rounds) iterator ≡ (
        if hole_fits n align
          (get_or index.cells iterator 0)
          (get_size m (get_or index.cells iterator 0))
        then ok (some iterator)
        else find_hole_from n align m index rounds (iterator + 1))
unfolding find_hole_from
find_hole_from-step m index n align rounds iterator valid below =
    let found : lookup_ordered_array iterator index ≡ ok (get_or index.cells iterator 0) =
      ground (arith, lookup_ordered_array_lem iterator valid) in
    cc

find_hole_from-fits :
    (m : Memory) (index : OrderedArray Memory) (n align rounds iterator i : ℕ)
    → IsValid index
    → rounds + iterator ≡ index.size
    → find_hole_from n align m index rounds iterator ≡ ok (some i)
    → (i < index.size)
      × (hole_fits n align (get_or index.cells i 0) (get_size m (get_or index.cells i 0)) ≡ true)
unfolding find_hole_from
find_hole_from-fits m index n align zero iterator i valid e found =
    absurd (not-none i (ok-injective found))
find_hole_from-fits m index n align (suc r) iterator i valid e found =
    let fits =
      hole_fits n align (get_or index.cells iterator 0)
        (get_size m (get_or index.cells iterator 0)) in
    let step = find_hole_from-step m index n align r iterator valid (omega arith) in
    elim (Bool-cases fits) [
      | inl here ↦
          let same : iterator ≡ i =
            some-injective (ok-injective (sym (step ∙ rw here refl) ∙ found)) in
          (
            omega arith,
            subst
                (λ j.
                  hole_fits n align (get_or index.cells j 0) (get_size m (get_or index.cells j 0))
                  ≡ true)
                same here,
          )
      | inr there ↦
          find_hole_from-fits m index n align r (iterator + 1) i valid (omega arith)
            (sym (step ∙ rw there refl) ∙ found)
    ]

-- On a well-formed heap with room for two more holes in its index, where the search for an aligned
-- block of `size` + 20 bytes finds entry `i`, a hole at 0x1000 or above, whose gap up to a page less
-- a header has at least 20 bytes and which has `size` + 20 bytes behind it, with nothing left or at
-- least 20 bytes, alloc with alignment returns an address on a page: the gap stays a hole, the block
-- follows, then a hole of what is left; the heap is well-formed with these pieces, and no byte
-- outside the hole changes.
pub alloc_aligned_lem :
    (k : Kernel) (heap : Heap) (before : List Piece) (s : ℕ) (after : List Piece)
    (i gap size fuel : ℕ)
    → WellFormed k heap (before ++ piece s true ∷ after)
    → find_hole_from (size + 20) 1 k.memory heap.index heap.index.size 0 ≡ ok (some i)
    → entry heap i ≡ heap.start_address + total before
    → 0x1000 ≤ entry heap i
    → gap + entry heap i % 0x1000 + 12 ≡ 0x1000
    → 20 ≤ gap
    → (size + 20 + gap ≡ s) ⊎ (size + 40 + gap ≤ s)
    → heap.index.size + 1 < heap.index.max_size
    → (addr : ℕ) × (k' : Kernel) × (alloc (suc fuel) size 1 k ≡ ok (addr, k'))
      × (addr ≡ entry heap i + gap + 12)
      × (addr % 0x1000 ≡ 0)
      × TakenAligned k heap before s after i gap size k'
unfolding alloc find_smallest_hole
alloc_aligned_lem k heap before s after i gap size fuel wf found place paged is_gap room left
      index_room =
    let (listed, _) =
      find_hole_from-fits k.memory heap.index (size + 20) 1 heap.index.size 0 i wf.valid
        (omega arith) found in
    let (_, inside) =
      the_piece k heap before s after i gap size wf listed place paged is_gap room (omega arith) in
    let n : add32 size 20 ≡ size + 20 = omega (arith, wf.word, inside) in
    let (k', ran, taken) : (k' : Kernel) × (take_hole size 1 i k ≡ ok (entry heap i + gap + 12, k'))
        × TakenAligned k heap before s after i gap size k' =
      elim left [
        | inl all ↦
            exact k heap before s after i gap size wf listed place paged is_gap room (omega arith)
              all
        | inr more ↦
            divided k heap before s after i gap size wf listed place paged is_gap room (omega arith)
              index_room (omega arith)
      ] in
    (
      entry heap i + gap + 12,
      k',
      simp (n, the_heap-some k heap wf.is_heap, found, ran),
      refl,
      omega arith,
      taken,
    )
