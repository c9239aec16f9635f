-- ===== src/KHeap/Overlap.antt =====
-- About `alloc` of IcarusOS/kheap.c where the heap grows and blocks lie behind the last hole.
use cmsi.Base.{ℕ, suc, ◌+◌, ◌-◌, ◌^◌, ◌≤◌, ◌<◌, ◌≡◌, inl, inr, refl, sym, ◌∙◌, arith}
use cmsi.Base.{true, false, none, some, List, ◌∷◌, ◌++◌, ltb, leb, Bool-cases, get_or}
use mathlib.Core.Path.{subst}
use cmsi.Base.Words.{add32}
use cmsi.Base.Outcome.{ok}
use cmsi.Memory.{Memory, load32}
use cmsi.Memory.Access.{load32_agree}
use cmsi.OrderedArray.{OrderedArray, lookup_ordered_array}
use cmsi.OrderedArray.Spec.{IsValid}
use cmsi.OrderedArray.Insert.{insert_ordered_array_lem}
use cmsi.OrderedArray.Remove.{remove_ordered_array_lem, lookup_ordered_array_lem}
use cmsi.Kernel.{Kernel, Heap, the_heap-some}
use cmsi.Paging.{KmallocAp}
use cmsi.KHeap.{alloc, kmalloc_with, find_smallest_hole, take_hole}
use cmsi.KHeap.Layout.{get_size}
use cmsi.KHeap.Search.{find_hole_from, header_t_less_than}
use cmsi.KHeap.Expand.{Same}
use cmsi.KHeap.Pieces.{Piece, piece, total, holes, count, count-HoleIn, Tiles-piece, write_piece}
use cmsi.KHeap.WellFormed.{WellFormed}
use cmsi.KHeap.Alloc.{find_hole_from_lem, listed_hole}
use cmsi.KHeap.Carve.{entry}
use cmsi.KHeap.Take.{with_block, take_hole-split, take_hole-small, write_remainder-run}
use cmsi.KHeap.Endmost.{NoHoles, holes-below}
use cmsi.KHeap.Grow.{entry_place, front_pieces, grown, grown_outside, grown-size}
use cmsi.KHeap.Grown.{CanGrow, grown_length, gain, with_end, gain_lem, grow_last}
use cmsi.KHeap.Extended.{alloc-grows}
use cmsi.KHeap.{grow}

-- When no hole fits, every listed one is too small.
pub none-small :
    (m : Memory) (index : OrderedArray Memory) (n i : ℕ)
    → IsValid index
    → find_hole_from n 0 m index index.size 0 ≡ ok none
    → i < index.size
    → get_size m (get_or index.cells i 0) < n
none-small m index n i valid no_fit listed =
    elim (Bool-cases (leb n (get_size m (get_or index.cells i 0)))) [
      | inl fits ↦
          let (j, run, _) =
            find_hole_from_lem m index n valid index.size 0 i (omega arith) (omega arith) listed
              (ground arith) in
          let clash : ok (some j) ≡ ok none = sym run ∙ no_fit in absurd (ground arith)
      | inr small ↦ ground arith
    ]

-- What `take_hole` returns, whatever stands around the hole.
take_hole-returns :
    (k : Kernel) (heap : Heap) (i h s size : ℕ)
    → k.kheap ≡ some heap
    → IsValid heap.index
    → heap.index.size < heap.index.max_size
    → heap.index.less_than ≡ some header_t_less_than
    → heap.end_address < 2 ^ 32
    → i < heap.index.size
    → entry heap i ≡ h
    → load32 k.memory (h + 8) ≡ s
    → h + s ≤ heap.end_address
    → size + 20 ≤ s
    → (k' : Kernel) × (take_hole size 0 i k ≡ ok (h + 12, k'))
unfolding with_block
take_hole-returns k heap i h s size is_heap valid room compares word listed place sized inside
      fits =
    let (index, removed, left, valid₁, smaller, same_max, same_less) =
      remove_ordered_array_lem i valid listed room in
    let found : lookup_ordered_array i heap.index ≡ ok h =
      ground (arith, lookup_ordered_array_lem i valid, place) in
    elim (Bool-cases (ltb s (size + 40))) [
      | inl tight ↦ (
        _,
        take_hole-small k heap index size i h s is_heap found sized removed (omega arith) fits
            (ground arith),
      )
      | inr large ↦
          let big : size + 40 ≤ s = ground arith in
          let n = size + 20 in
          let m₂ =
            write_piece (write_piece k.memory h (piece n false)) (h + n) (piece (s - n) true) in
          let (index₂, inserted, _, _, _, _, _) =
            insert_ordered_array_lem m₂ (h + n) valid₁ (same_less ∙ compares) (omega arith) in
          (
            record k { memory = m₂; kheap = some (record heap { index = index₂ }) },
            take_hole-split k heap index size i h s is_heap found sized removed (omega arith) big
                ∙ simp (
                    write_remainder-run
                      (with_block k heap index size i h s is_heap found sized removed (omega arith)
                        n)
                      (record heap { index = index }) index₂ h size n s refl refl (omega arith)
                      inside word inserted),
          )
    ]

module _ (k : Kernel) (heap : Heap) (before : List Piece) (s t : ℕ) (rest : List Piece) (size : ℕ)
    (wf : WellFormed k heap (before ++ piece s true ∷ piece t false ∷ rest)) (last : NoHoles rest)
    (no_fit : find_hole_from (size + 20) 0 k.memory heap.index heap.index.size 0 ≡ ok none)
    (can : CanGrow k heap (size + 20)) where
  abbrev pub h : ℕ
  h = heap.start_address + total before

  abbrev pub d : ℕ
  d = gain heap (size + 20)

  behind : NoHoles (piece t false ∷ rest)
  behind = (refl, last)

  ends : h + s ≤ heap.end_address
  ends =
      (Tiles-piece k.memory heap.end_address heap.start_address h before (piece s true)
        (piece t false ∷ rest) heap.end_address refl wf.tiled).1

  -- The holes in front of the last one keep their sizes when it grows.
  kept_size :
      (m : Memory) (x : ℕ)
      → Same k.kernel_directory heap.start_address
          (heap.start_address + grown_length heap (size + 20))
          k.memory
          m
      → 20 ≤ s
      → 0 < count x (holes heap.start_address before)
      → get_size (grown m h (s + d)) x ≡ get_size k.memory x
  kept_size m x same room counted =
      let below =
        holes-below k.memory heap.end_address heap.start_address h x before
          (front_pieces k heap before s (piece t false ∷ rest) wf behind) counted in
      let hole = count-HoleIn heap.start_address x before counted in
      let (split, enough) =
        gain_lem (λ sz k. ok ((0, 0), k)) k heap before s (piece t false ∷ rest) (size + 20) wf
          behind can in
      load32_agree (grown m h (s + d)) k.memory (x + 8) (λ b l u.
        grown_outside m h (s + d) b (omega (arith, room)) (omega arith) (omega (arith, room))
        ∙ same.1 b (omega (arith, hole.place)) (omega (arith, split, ends, can.page)))

  -- `find_smallest_hole` finds the hole that has grown, and no other.
  found_grown :
      (m : Memory)
      → Same k.kernel_directory heap.start_address
          (heap.start_address + grown_length heap (size + 20))
          k.memory
          m
      → (i : ℕ) × (find_hole_from (size + 20) 0 (grown m h (s + d)) heap.index heap.index.size 0
          ≡ ok (some i))
        × (i < heap.index.size)
        × (entry heap i ≡ h)
        × (get_size (grown m h (s + d)) h ≡ s + d)
  found_grown m same =
      let (split, enough) =
        gain_lem (λ sz k. ok ((0, 0), k)) k heap before s (piece t false ∷ rest) (size + 20) wf
          behind can in
      let (at, _) =
        Tiles-piece k.memory heap.end_address heap.start_address h before (piece s true)
          (piece t false ∷ rest) heap.end_address refl wf.tiled in
      let sized : get_size (grown m h (s + d)) h ≡ s + d =
        grown-size m h (s + d) (omega (arith, at.room))
          (omega (arith, split, ends, can.fits, can.top)) in
      let (j, listed, _, place) = listed_hole k heap before s (piece t false ∷ rest) wf in
      let (i, run, fit) =
        find_hole_from_lem (grown m h (s + d)) heap.index (size + 20) wf.valid heap.index.size 0 j
          (omega arith) (omega arith) listed
          (subst (λ x. size + 20 ≤ get_size (grown m h (s + d)) x) (sym place)
            (omega (arith, sized))) in
      elim (entry_place k heap before s (piece t false ∷ rest) wf behind i fit.listed) [
        | inl here ↦ (i, run, fit.listed, here, sized)
        | inr front ↦ absurd (
            omega (
              arith,
              fit.fits,
              kept_size m (entry heap i) same at.room front,
              none-small k.memory heap.index (size + 20) i wf.valid no_fit fit.listed,
            ))
      ]

  -- The second round of `alloc`, on the heap that has grown.
  overlap_in :
      (m : Memory) (fuel : ℕ)
      → Same k.kernel_directory heap.start_address
          (heap.start_address + grown_length heap (size + 20))
          k.memory
          m
      → (k' : Kernel) × (alloc
            (suc fuel)
            size
            0
            (record k { memory = grown m h (s + d); kheap = some (with_end heap (size + 20)) })
          ≡ ok (h + 12, k'))
  unfolding alloc find_smallest_hole
  overlap_in m fuel same =
      let (split, enough) =
        gain_lem (λ sz k. ok ((0, 0), k)) k heap before s (piece t false ∷ rest) (size + 20) wf
          behind can in
      let (i, run, listed, place, sized) = found_grown m same in
      let (k', ran) =
        take_hole-returns
          (record k { memory = grown m h (s + d); kheap = some (with_end heap (size + 20)) })
          (with_end heap (size + 20)) i h (s + d) size refl wf.valid wf.room wf.compares
          (omega (arith, can.fits, can.top)) listed place sized
          (omega (arith, split, ends, can.page)) (omega (arith, enough)) in
      let n : add32 size 20 ≡ size + 20 = omega (arith, can.word) in
      (
        k',
        simp (
          n,
          the_heap-some
              (record k { memory = grown m h (s + d); kheap = some (with_end heap (size + 20)) })
              (with_end heap (size + 20)) refl,
          run,
          ran,
        ),
      )

  -- On a well-formed heap whose last hole has only blocks behind it, one at least, where no hole has
  -- `size` + 20 bytes, the index has at most 0xffff entries, and the heap, of at least a page and
  -- not at 0, can grow by as many: its bound, a page and more below 2^32, allows it, and the pages
  -- it gains have page tables, which lie apart from the heap and the directory, as the bitset of 32
  -- to 2^20 frames does, alloc without alignment first makes the heap grow, and counts what it gains
  -- at its end to the size of that hole; then it returns the place for data of the hole, and the
  -- bytes it returns, with the footer behind them, reach over the start of the header of the block
  -- behind the hole.
  pub alloc_overlap :
      (fuel : ℕ)
      → (k₁ : Kernel) × (k' : Kernel) × (grow
            (λ sz. kmalloc_with (alloc (suc fuel)) sz 1 true)
            (size + 20)
            k
          ≡ ok (tt, k₁))
        × (get_size k₁.memory h ≡ s + d)
        × (alloc (suc (suc fuel)) size 0 k ≡ ok (h + 12, k'))
        × (h + 12 ≤ h + s)
        × (h + s < h + 12 + size + 8)
  alloc_overlap fuel =
      let kmalloc_ap : KmallocAp = λ sz. kmalloc_with (alloc (suc fuel)) sz 1 true in
      let (m, ran, same) =
        grow_last kmalloc_ap k heap before s (piece t false ∷ rest) (size + 20) wf behind can in
      let (k', ran') = overlap_in m fuel same in
      let (at, _) =
        Tiles-piece k.memory heap.end_address heap.start_address h before (piece s true)
          (piece t false ∷ rest) heap.end_address refl wf.tiled in
      let (j, listed, old, place) = listed_hole k heap before s (piece t false ∷ rest) wf in
      let small = none-small k.memory heap.index (size + 20) j wf.valid no_fit listed in
      let (_, _, _, _, sized) = found_grown m same in
      (
        record k { memory = grown m h (s + d); kheap = some (with_end heap (size + 20)) },
        k',
        ran,
        sized,
        alloc-grows k
              (record k { memory = grown m h (s + d); kheap = some (with_end heap (size + 20)) })
              heap size (suc fuel) wf.is_heap no_fit (omega (arith, can.word)) ran
            ∙ ran',
        omega (arith, at.room),
        omega (arith, small, old),
      )
