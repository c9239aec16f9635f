-- ===== src/KHeap/Filled.antt =====
-- About `alloc` of IcarusOS/kheap.c where the heap has no hole at all.
use cmsi.Base.{ℕ, suc, ◌+◌, ◌-◌, ◌≤◌, ◌<◌, ◌≡◌, inl, inr, refl, sym, ap, ◌∙◌, arith}
use cmsi.Base.{true, none, some, List, [], ◌∷◌, ◌++◌, ◌==◌, Bool-cases, get_or, length-take}
use mathlib.Core.Path.{subst}
use cmsi.Base.Words.{add32}
use cmsi.Base.Outcome.{ok}
use cmsi.Memory.{Memory}
use cmsi.OrderedArray.{OrderedArray}
use cmsi.OrderedArray.Spec.{items, IsValid, insert_before}
use cmsi.OrderedArray.Insert.{insert_ordered_array_lem}
use cmsi.Kernel.{Kernel, Heap}
use cmsi.Paging.{KmallocAp}
use cmsi.KHeap.{alloc, grow, kmalloc_with}
use cmsi.KHeap.Resize.{expand, heap_length}
use cmsi.KHeap.Search.{find_hole_from, header_t_less_than}
use cmsi.KHeap.Expand.{Same, expand_lem}
use cmsi.KHeap.Pieces.{
  Piece, piece, holes, count, Tiles-append, agree-Tiles, total-Tiles, count-append, holes-append,
}
use cmsi.KHeap.Index.{count_of_get_or, count-insert_before}
use cmsi.KHeap.WellFormed.{WellFormed}
use cmsi.KHeap.Alloc.{alloc_lem, Taken}
use cmsi.KHeap.Endmost.{NoHoles, NoHoles-count}
use cmsi.KHeap.Placement.{round_up_lem}
use cmsi.KHeap.Grown.{CanGrow, grown_length, gain, with_end}
use cmsi.KHeap.Extended.{alloc-grows}
use cmsi.KHeap.Fresh.{fresh, fresh_outside, fresh-PieceAt, blocks-Tiles, grow-fresh}

module _ (k : Kernel) (heap : Heap) (ps : List Piece) (n : ℕ) (wf : WellFormed k heap ps)
    (full : NoHoles ps) (can : CanGrow k heap n) where
  no_items : heap.index.size ≡ 0
  no_items = elim (Bool-cases (heap.index.size == 0)) [
    | inl empty ↦ ground arith
    | inr more ↦
        let counted =
          count_of_get_or 0 (items heap.index)
            (ground (arith, wf.valid, length-take heap.index.size heap.index.cells)) in
        absurd (
          omega (
            arith,
            counted,
            wf.indexed (get_or (items heap.index) 0 0),
            NoHoles-count (get_or (items heap.index) 0 0) heap.start_address ps full,
          ))
  ]

  -- The kernel when the space that the heap has gained is a hole.
  abbrev fresh_heap : OrderedArray Memory → Heap
  fresh_heap index = record heap {
    end_address = heap.start_address + grown_length heap n;
    index = index;
  }

  abbrev fresh_kernel : Memory → OrderedArray Memory → Kernel
  fresh_kernel m index = record k {
    memory = fresh m heap.end_address (gain heap n);
    kheap = some (fresh_heap index);
  }

  fresh-WellFormed :
      (m : Memory) (index : OrderedArray Memory)
      → Same k.kernel_directory heap.start_address
          (heap.start_address + grown_length heap n)
          k.memory
          m
      → 20 ≤ n
      → (grown_length heap n ≡ heap.end_address - heap.start_address + gain heap n)
        × (n ≤ gain heap n)
      → IsValid index
      → items index
        ≡ insert_before
            (header_t_less_than (fresh m heap.end_address (gain heap n)))
            heap.end_address
            (items heap.index)
      → index.size < index.max_size
      → index.less_than ≡ some header_t_less_than
      → WellFormed (fresh_kernel m index) (fresh_heap index) (ps ++ piece (gain heap n) true ∷ [])
        × ((b : ℕ)
            → heap.start_address ≤ b
            → b < heap.end_address
            → fresh m heap.end_address (gain heap n) b ≡ k.memory b)
  fresh-WellFormed m index same large (split, enough) valid new room compares =
      let d = gain heap n in
      let h = heap.end_address in
      let top = heap.start_address + grown_length heap n in
      let ends = total-Tiles k.memory h heap.start_address ps h wf.tiled in
      let kept : (b : ℕ) → heap.start_address ≤ b → b < h → fresh m h d b ≡ k.memory b = λ b l u.
        fresh_outside m h d b (omega arith) (omega arith)
        ∙ same.1 b l (omega (arith, split, can.page)) in
      let hole = fresh-PieceAt m top h d (omega arith) (omega (arith, split, can.fits, can.top)) in
      let front =
        agree-Tiles k.memory (fresh m h d) top heap.start_address ps h kept
          (blocks-Tiles k.memory h top heap.start_address h ps full wf.tiled) in
      (
        record {
          is_heap = refl;
          tiled =
              Tiles-append (fresh m h d) top heap.start_address ps (piece d true ∷ []) h top front
                (hole, omega (arith, split, can.page));
          indexed = λ x. ground (
            arith,
            ap (count x) new,
            count-insert_before x (header_t_less_than (fresh m h d)) h (items heap.index),
            wf.indexed x,
            holes-append heap.start_address h ps (piece d true ∷ []) (omega (arith, ends)),
            count-append x (holes heap.start_address ps) (h ∷ []),
          );
          valid = valid;
          room = room;
          compares = compares;
          word = omega (arith, can.fits, can.top);
        },
        kept,
      )

  -- `grow` makes the space that the heap gains into a hole, the only one of the index.
  filled_grows :
      (kmalloc_ap : KmallocAp)
      → 20 ≤ n
      → heap.index.size + 1 < heap.index.max_size
      → (grown_length heap n ≡ heap.end_address - heap.start_address + gain heap n)
        × (n ≤ gain heap n)
      → (m : Memory) × (index : OrderedArray Memory) × (grow kmalloc_ap n k
          ≡ ok (tt, fresh_kernel m index))
        × WellFormed (fresh_kernel m index) (fresh_heap index) (ps ++ piece (gain heap n) true ∷ [])
        × ((b : ℕ)
            → heap.start_address ≤ b
            → b < heap.end_address
            → fresh m heap.end_address (gain heap n) b ≡ k.memory b)
  filled_grows kmalloc_ap large spare (split, enough) =
      let length = heap.end_address - heap.start_address in
      let long : heap_length heap ≡ length = omega (arith, can.page, can.word) in
      let sum : add32 length n ≡ length + n = omega (arith, can.word) in
      let (m, ran, same) =
        expand_lem kmalloc_ap k heap length (length + n) wf.is_heap (omega (arith, can.page))
          (omega (arith, can.some_bytes)) (omega (arith, can.page)) can.fits can.top
          (omega (arith, can.word)) can.tables in
      let (index, inserted, new, valid, larger, same_max, compares) =
        insert_ordered_array_lem (fresh m heap.end_address (gain heap n)) heap.end_address wf.valid
          wf.compares wf.room in
      let (wf₁, kept) =
        fresh-WellFormed m index same large (split, enough) valid new
          (omega (arith, larger, same_max, spare)) compares in
      (
        m,
        index,
        grow-fresh kmalloc_ap k heap n length (heap.start_address + grown_length heap n)
            (gain heap n) m index wf.is_heap long
            (subst
              (λ x.
                expand kmalloc_ap x k
                ≡ ok (tt, record k { memory = m; kheap = some (with_end heap n) }))
              (sym sum) ran)
            no_items (omega (arith, split, can.fits, can.top)) (omega arith)
            (omega (arith, split, can.fits, can.top, can.page))
            (omega (arith, split, can.fits, can.top)) inserted,
        wf₁,
        kept,
      )

-- On a well-formed heap of blocks alone, with place for two holes in its index, of at least a page
-- and not at 0, that can grow by `size` + 20 bytes, with its bound a page and more below 2^32 and
-- page tables for the pages it gains, apart from the heap and the directory, as the bitset of 32 to
-- 2^20 frames is, alloc without alignment returns: the heap grows, and what it gains becomes a hole,
-- with the heap well-formed and the bytes of the blocks as they were; then the block is taken from
-- that hole.
pub alloc_fresh_lem :
    (k : Kernel) (heap : Heap) (ps : List Piece) (size fuel : ℕ)
    → WellFormed k heap ps
    → NoHoles ps
    → 1 < heap.index.max_size
    → CanGrow k heap (size + 20)
    → (addr : ℕ) × (k₁ : Kernel) × (heap₁ : Heap) × (k' : Kernel) × (alloc (suc (suc fuel)) size 0 k
        ≡ ok (addr, k'))
      × WellFormed k₁ heap₁ (ps ++ piece (gain heap (size + 20)) true ∷ [])
      × ((b : ℕ) → heap.start_address ≤ b → b < heap.end_address → k₁.memory b ≡ k.memory b)
      × Taken k₁ heap₁ (ps ++ piece (gain heap (size + 20)) true ∷ []) size k' addr
unfolding find_hole_from
alloc_fresh_lem k heap ps size fuel wf full spare can =
    let kmalloc_ap : KmallocAp = λ sz. kmalloc_with (alloc (suc fuel)) sz 1 true in
    let n = size + 20 in
    let empty = no_items k heap ps n wf full can in
    let (_, above, _) =
      (round_up_lem (heap.end_address - heap.start_address + n) (omega (arith, can.word))).0
        (omega (arith, can.page)) in
    let split : (grown_length heap n ≡ heap.end_address - heap.start_address + gain heap n)
        × (n ≤ gain heap n) =
      omega (arith, above) in
    let (m, index, ran, wf₁, kept) =
      filled_grows k heap ps n wf full can kmalloc_ap (omega arith) (omega (arith, empty, spare))
        split in
    let k₁ = fresh_kernel k heap ps n wf full can m index in
    let heap₁ = fresh_heap k heap ps n wf full can index in
    let no_fit : find_hole_from n 0 k.memory heap.index heap.index.size 0 ≡ ok none =
      rw empty refl in
    let (addr, k', ran', taken) = alloc_lem k₁ heap₁ ps (gain heap n) [] size fuel wf₁ split.1 in
    (
      addr,
      k₁,
      heap₁,
      k',
      alloc-grows k k₁ heap size (suc fuel) wf.is_heap no_fit (omega (arith, can.word, can.page))
            ran
          ∙ ran',
      wf₁,
      kept,
      taken,
    )
