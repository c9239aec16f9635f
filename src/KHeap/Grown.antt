-- ===== src/KHeap/Grown.antt =====
-- About the heap of IcarusOS/kheap.c when `alloc` has made it grow.
use cmsi.Base.{ℕ, ◌+◌, ◌-◌, ◌^◌, ◌≤◌, ◌<◌, ◌≡◌, refl, sym, arith}
use cmsi.Base.{true, some, List, ◌∷◌, ◌++◌}
use mathlib.Core.Path.{subst}
use cmsi.Base.Words.{add32}
use cmsi.Base.Outcome.{ok}
use cmsi.Memory.{Memory, load32}
use cmsi.OrderedArray.{lookup_ordered_array}
use cmsi.OrderedArray.Remove.{lookup_ordered_array_lem}
use cmsi.Kernel.{Kernel, Heap}
use cmsi.Paging.{KmallocAp}
use cmsi.KHeap.{grow}
use cmsi.KHeap.Resize.{expand, heap_length, round_up}
use cmsi.KHeap.Placement.{round_up_lem}
use cmsi.KHeap.Expand.{HasTables, Same, expand_lem}
use cmsi.KHeap.Pieces.{Piece, piece, total, PieceAt, Tiles-piece, agree-PieceAt}
use cmsi.KHeap.WellFormed.{WellFormed}
use cmsi.KHeap.Endmost.{NoHoles}
use cmsi.KHeap.Grow.{endmost_hole, grow-run, grown}

-- The length of a heap that grows for `n` bytes.
abbrev pub grown_length : Heap → (n : ℕ) → ℕ
grown_length heap n = round_up (heap.end_address - heap.start_address + n)

-- What it takes for the heap to grow for `n` bytes: an address for the new end, page tables for the new
-- pages, and an index whose entries have numbers below 0xffff.
pub record CanGrow (k : Kernel) (heap : Heap) (n : ℕ) : Type 0 where
  pub low : 0 < heap.start_address
  pub page : heap.start_address + 0x1000 ≤ heap.end_address
  pub some_bytes : 0 < n
  pub few : heap.index.size ≤ 0xffff
  pub fits : heap.start_address + grown_length heap n ≤ heap.max_address
  pub top : heap.max_address + 0x1000 < 2 ^ 32
  pub word : heap.end_address + n + 0x1000 < 2 ^ 32
  pub tables :
      HasTables k.memory k.kernel_directory k.frames k.nframes heap.start_address heap.end_address
        (heap.start_address + grown_length heap n)

-- By how much it grows.
abbrev pub gain : Heap → (n : ℕ) → ℕ
gain heap n = grown_length heap n - (heap.end_address - heap.start_address)

abbrev pub with_end : Heap → (n : ℕ) → Heap
with_end heap n = record heap { end_address = heap.start_address + grown_length heap n }

module _ (kmalloc_ap : KmallocAp) (k : Kernel) (heap : Heap) (before : List Piece) (s : ℕ)
    (after : List Piece) (n : ℕ) (wf : WellFormed k heap (before ++ piece s true ∷ after))
    (last : NoHoles after) (can : CanGrow k heap n) where
  abbrev pub h : ℕ
  h = heap.start_address + total before

  hole_at : PieceAt k.memory heap.end_address h (piece s true) × (h + s ≤ heap.end_address)
  hole_at =
      Tiles-piece k.memory heap.end_address heap.start_address h before (piece s true) after
        heap.end_address refl wf.tiled

  pub gain_lem :
      (grown_length heap n ≡ heap.end_address - heap.start_address + gain heap n)
      × (n ≤ gain heap n)
  gain_lem =
      let (_, above, _) =
        (round_up_lem (heap.end_address - heap.start_address + n) (omega (arith, can.word))).0
          (omega (arith, can.page)) in
      omega (arith, above)

  -- `grow` adds what the heap has gained to the last hole in the list.
  pub grow_last :
      (m : Memory) × (grow kmalloc_ap n k
        ≡ ok
            (tt, record k { memory = grown m h (s + gain heap n); kheap = some (with_end heap n) }))
      × Same k.kernel_directory heap.start_address
          (heap.start_address + grown_length heap n)
          k.memory
          m
  grow_last =
      let length = heap.end_address - heap.start_address in
      let (at, inside) = hole_at in
      let (split, enough) = gain_lem in
      let (r, endmost, listed, place) = endmost_hole k heap before s after wf last can.low in
      let long : heap_length heap ≡ length = omega (arith, can.page, can.word) in
      let sum : add32 length n ≡ length + n = omega (arith, can.word) in
      let (m, ran, same) =
        expand_lem kmalloc_ap k heap length (length + n) wf.is_heap (omega (arith, can.page))
          (omega (arith, can.some_bytes)) (omega (arith, can.page)) can.fits can.top
          (omega (arith, can.word)) can.tables in
      let found : lookup_ordered_array r heap.index ≡ ok h =
        ground (arith, lookup_ordered_array_lem r wf.valid, listed, place) in
      let sized = load32_agree_in m same.1 at inside in
      (
        m,
        grow-run kmalloc_ap k heap n length (heap.start_address + grown_length heap n) r h s
            (gain heap n) m wf.is_heap long
            (subst
              (λ x.
                expand kmalloc_ap x k
                ≡ ok (tt, record k { memory = m; kheap = some (with_end heap n) }))
              (sym sum) ran)
            endmost (omega (arith, can.few, listed)) found sized
            (omega (arith, split, can.fits, can.top)) at.room
            (omega (arith, split, can.fits, can.top, inside, can.page))
            (omega (arith, split, can.fits, can.top)),
        same,
      )
    where
      load32_agree_in :
          (m : Memory)
          → ((b : ℕ)
              → heap.start_address ≤ b
              → b < heap.start_address + grown_length heap n
              → m b ≡ k.memory b)
          → PieceAt k.memory heap.end_address h (piece s true)
          → h + s ≤ heap.end_address
          → load32 m (h + 8) ≡ s
      load32_agree_in m same at inside =
          let (split, enough) = gain_lem in
          (agree-PieceAt k.memory m heap.end_address h (piece s true)
            (λ b l u. same b (omega arith) (omega (arith, split, inside, can.page))) at).sized
