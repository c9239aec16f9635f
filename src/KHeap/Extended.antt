-- ===== src/KHeap/Extended.antt =====
-- About `alloc` of IcarusOS/kheap.c where no hole fits and the heap ends in a hole.
use cmsi.Base.{ℕ, suc, ◌+◌, ◌^◌, ◌≤◌, ◌<◌, ◌≡◌, inl, inr, refl, sym, ◌∙◌, arith}
use cmsi.Base.{true, none, some, List, [], ◌∷◌, ◌++◌}
use mathlib.Core.Path.{subst}
use cmsi.Base.Words.{add32}
use cmsi.Base.Outcome.{ok}
use cmsi.Memory.{Memory}
use cmsi.Kernel.{Kernel, Heap, the_heap-some}
use cmsi.Paging.{KmallocAp}
use cmsi.KHeap.{alloc, grow, kmalloc_with, find_smallest_hole}
use cmsi.KHeap.Search.{find_hole_from}
use cmsi.KHeap.Expand.{Same}
use cmsi.KHeap.Pieces.{
  Piece, piece, total, HasFoot, Tiles, Tiles-piece, Tiles-append, agree-Tiles, agree-PieceAt,
  total-Tiles, total-append,
}
use cmsi.KHeap.Unify.{count-holes_run}
use cmsi.KHeap.WellFormed.{WellFormed}
use cmsi.KHeap.Alloc.{alloc_lem, Taken}
use cmsi.KHeap.Endmost.{Tiles-front}
use cmsi.KHeap.Grow.{grown, grown_outside, grown-PieceAt}
use cmsi.KHeap.Grown.{CanGrow, grown_length, gain, with_end, gain_lem, grow_last}

top-HasFoot :
    (m : Memory) (top top' a : ℕ) (p : Piece)
    → a + p.size < top
    → HasFoot m top a p
    → HasFoot m top' a p
top-HasFoot m top top' a p below (inl (_, end)) = absurd (omega arith)
top-HasFoot m top top' a p below (inr foot) = inr foot

-- Pieces in front of the end do not depend on where it is.
top-Tiles :
    (m : Memory) (top top' a : ℕ) (ps : List Piece)
    → a + total ps < top
    → Tiles m top a ps (a + total ps)
    → Tiles m top' a ps (a + total ps)
top-Tiles m top top' a [] below t = t
top-Tiles m top top' a (p ∷ ps) below (at, t) =
    let next : a + p.size + total ps ≡ a + total (p ∷ ps) = omega arith in
    (
      record {
        magic = at.magic;
        hole = at.hole;
        sized = at.sized;
        room = at.room;
        foot = top-HasFoot m top top' a p (omega arith) at.foot;
      },
      subst (λ e. Tiles m top' (a + p.size) ps e) next
          (top-Tiles m top top' (a + p.size) ps (omega arith)
            (subst (λ e. Tiles m top (a + p.size) ps e) (sym next) t)),
    )

module _ (k : Kernel) (heap : Heap) (before : List Piece) (s n : ℕ)
    (wf : WellFormed k heap (before ++ piece s true ∷ [])) (can : CanGrow k heap n) where
  abbrev h : ℕ
  h = heap.start_address + total before

  abbrev grown_kernel : Memory → Kernel
  grown_kernel m = record k { memory = grown m h (s + gain heap n); kheap = some (with_end heap n) }

  ends : h + s ≡ heap.end_address
  ends = omega (
    arith,
    total-Tiles k.memory heap.end_address heap.start_address (before ++ piece s true ∷ [])
        heap.end_address wf.tiled,
    total-append before (piece s true ∷ []),
  )

  -- The heap is well-formed when the hole at its end has grown.
  grown-WellFormed :
      (m : Memory)
      → Same k.kernel_directory heap.start_address
          (heap.start_address + grown_length heap n)
          k.memory
          m
      → WellFormed (grown_kernel m) (with_end heap n) (before ++ piece (s + gain heap n) true ∷ [])
        × ((b : ℕ) → heap.start_address ≤ b → b < h → grown m h (s + gain heap n) b ≡ k.memory b)
  grown-WellFormed m same =
      let e = heap.start_address + grown_length heap n in
      let d = gain heap n in
      let (split, enough) = gain_lem (λ sz k. ok ((0, 0), k)) k heap before s [] n wf tt can in
      let (at, inside) =
        Tiles-piece k.memory heap.end_address heap.start_address h before (piece s true) []
          heap.end_address refl wf.tiled in
      let kept : (b : ℕ) → heap.start_address ≤ b → b < h → grown m h (s + d) b ≡ k.memory b =
        λ b l u.
          grown_outside m h (s + d) b (omega (arith, at.room)) (omega arith)
            (omega (arith, at.room))
          ∙ same.1 b l (omega (arith, split, ends, can.page, at.room)) in
      let hole =
        grown-PieceAt m heap.end_address e h s (s + d)
          (agree-PieceAt k.memory m heap.end_address h (piece s true)
            (λ b l u. same.1 b (omega arith) (omega (arith, split, ends, can.page))) at)
          (omega arith) (omega (arith, split, ends, can.page, can.fits, can.top)) in
      let front =
        top-Tiles (grown m h (s + d)) heap.end_address e heap.start_address before
          (omega (arith, ends, at.room))
          (agree-Tiles k.memory (grown m h (s + d)) heap.end_address heap.start_address before h
            kept
            (Tiles-front k.memory heap.end_address heap.start_address before (piece s true ∷ [])
              heap.end_address wf.tiled)) in
      (
        record {
          is_heap = refl;
          tiled =
              Tiles-append (grown m h (s + d)) e heap.start_address before (piece (s + d) true ∷ [])
                h e front (hole, omega (arith, split, ends, can.page));
          indexed = λ x. omega (
            arith,
            wf.indexed x,
            count-holes_run x heap.start_address h before (piece s true ∷ []) [] refl,
            count-holes_run x heap.start_address h before (piece (s + d) true ∷ []) [] refl,
          );
          valid = wf.valid;
          room = wf.room;
          compares = wf.compares;
          word = omega (arith, can.fits, can.top);
        },
        kept,
      )

-- The call of itself behind `grow`.
pub alloc-grows :
    (k k₁ : Kernel) (heap : Heap) (size fuel : ℕ)
    → k.kheap ≡ some heap
    → find_hole_from (size + 20) 0 k.memory heap.index heap.index.size 0 ≡ ok none
    → size + 20 < 2 ^ 32
    → grow (λ sz. kmalloc_with (alloc fuel) sz 1 true) (size + 20) k ≡ ok (tt, k₁)
    → alloc (suc fuel) size 0 k ≡ alloc fuel size 0 k₁
unfolding alloc find_smallest_hole
alloc-grows k k₁ heap size fuel is_heap no_fit word ran =
    let n : add32 size 20 ≡ size + 20 = omega arith in
    simp (n, the_heap-some k heap is_heap, no_fit, ran)

-- On a well-formed heap that ends in a hole, where no hole has `size` + 20 bytes, the index has at
-- most 0xffff entries, and the heap, of at least a page and not at 0, can grow by as many: its
-- bound, a page and more below 2^32, allows it, and the pages it gains have page tables, which lie
-- apart from the heap and the directory, as the bitset of 32 to 2^20 frames does, alloc without
-- alignment returns: the heap grows, and its last hole by as much, well-formed and with the bytes in
-- front of that hole as they were; then the block is taken from the first hole of the index that has
-- the bytes it needs.
pub alloc_grown_lem :
    (k : Kernel) (heap : Heap) (before : List Piece) (s size fuel : ℕ)
    → WellFormed k heap (before ++ piece s true ∷ [])
    → find_hole_from (size + 20) 0 k.memory heap.index heap.index.size 0 ≡ ok none
    → CanGrow k heap (size + 20)
    → (addr : ℕ) × (k₁ : Kernel) × (k' : Kernel) × (alloc (suc (suc fuel)) size 0 k ≡ ok (addr, k'))
      × WellFormed k₁
          (with_end heap (size + 20))
          (before ++ piece (s + gain heap (size + 20)) true ∷ [])
      × ((b : ℕ)
          → heap.start_address ≤ b
          → b < heap.start_address + total before
          → k₁.memory b ≡ k.memory b)
      × Taken k₁
          (with_end heap (size + 20))
          (before ++ piece (s + gain heap (size + 20)) true ∷ [])
          size
          k'
          addr
alloc_grown_lem k heap before s size fuel wf no_fit can =
    let kmalloc_ap : KmallocAp = λ sz. kmalloc_with (alloc (suc fuel)) sz 1 true in
    let (split, enough) = gain_lem kmalloc_ap k heap before s [] (size + 20) wf tt can in
    let (m, ran, same) = grow_last kmalloc_ap k heap before s [] (size + 20) wf tt can in
    let (wf₁, kept) = grown-WellFormed k heap before s (size + 20) wf can m same in
    let k₁ = grown_kernel k heap before s (size + 20) wf can m in
    let (addr, k', ran', taken) =
      alloc_lem k₁ (with_end heap (size + 20)) before (s + gain heap (size + 20)) [] size fuel wf₁
        (omega arith) in
    (
      addr,
      k₁,
      k',
      alloc-grows k k₁ heap size (suc fuel) wf.is_heap no_fit (omega (arith, can.word, can.page))
            ran
          ∙ ran',
      wf₁,
      kept,
      taken,
    )
