-- ===== src/KHeap/Grow.antt =====
-- About the part of `alloc` in IcarusOS/kheap.c that makes the heap grow, where some hole is listed.
use cmsi.Base.{ℕ, ◌+◌, ◌-◌, ◌^◌, ◌≤◌, ◌<◌, ◌≡◌, ◌⊎◌, inl, inr, refl, ◌∙◌, arith}
use cmsi.Base.{true, false, some, List, [], ◌∷◌, ◌++◌, ◌==◌, get_or, length-take}
use cmsi.Base.Words.{add32, sub32}
use cmsi.Base.Outcome.{ok}
use cmsi.Memory.{Memory, load32, store32}
use cmsi.Memory.Access.{load32-store32_self, load32-store32_ne, load8-store32_ne, store32_outside}
use cmsi.OrderedArray.{lookup_ordered_array}
use cmsi.OrderedArray.Spec.{items}
use cmsi.Kernel.{Kernel, Heap, the_heap-some}
use cmsi.Paging.{KmallocAp}
use cmsi.KHeap.{grow}
use cmsi.KHeap.Resize.{expand, heap_length}
use cmsi.KHeap.Search.{endmost_from}
use cmsi.KHeap.Layout.{heap_magic, get_size}
use cmsi.KHeap.Pieces.{Piece, piece, total, holes, count, PieceAt, Tiles}
use cmsi.KHeap.Index.{count_of_get_or, get_or-take}
use cmsi.KHeap.Unify.{count-holes_run}
use cmsi.KHeap.WellFormed.{WellFormed}
use cmsi.KHeap.Alloc.{listed_hole}
use cmsi.KHeap.Carve.{entry}
use cmsi.KHeap.Endmost.{endmost_from-IsEndmost, NoHoles, NoHoles-count, holes-below, Tiles-front}

module _ (k : Kernel) (heap : Heap) (before : List Piece) (s : ℕ) (after : List Piece)
    (wf : WellFormed k heap (before ++ piece s true ∷ after)) (last : NoHoles after) where
  -- An entry of the index is that of the last hole, or one in front of it.
  pub entry_place :
      (i : ℕ)
      → i < heap.index.size
      → (entry heap i ≡ heap.start_address + total before)
        ⊎ (0 < count (entry heap i) (holes heap.start_address before))
  entry_place i listed =
      let h = heap.start_address + total before in
      let at : get_or (items heap.index) i 0 ≡ entry heap i =
        get_or-take heap.index.size i heap.index.cells listed (omega (arith, wf.valid)) in
      let counted =
        count_of_get_or i (items heap.index)
          (omega (arith, listed, wf.valid, length-take heap.index.size heap.index.cells)) in
      ground (
        arith,
        at,
        counted,
        wf.indexed (entry heap i),
        count-holes_run (entry heap i) heap.start_address h before (piece s true ∷ []) after refl,
        NoHoles-count (entry heap i) (h + total (piece s true ∷ [])) after last,
      )

  pub front_pieces :
      Tiles k.memory heap.end_address heap.start_address before (heap.start_address + total before)
  front_pieces =
      Tiles-front k.memory heap.end_address heap.start_address before (piece s true ∷ after)
        heap.end_address wf.tiled

  -- The search for the endmost header finds the last hole.
  pub endmost_hole :
      0 < heap.start_address
      → (r : ℕ) × (endmost_from heap.index heap.index.size 0 0xffff 0 ≡ ok r)
        × (r < heap.index.size)
        × (entry heap r ≡ heap.start_address + total before)
  endmost_hole low =
      let (i, listed, _, place) = listed_hole k heap before s after wf in
      let (r, run, found) =
        endmost_from-IsEndmost heap.index heap.index.size 0 0xffff 0 wf.valid (omega arith) in
      elim found [
        | inl (_, none_there) ↦ absurd (omega (arith, none_there i (omega arith) listed, place))
        | inr (below, _, most) ↦ elim (entry_place r below) [
          | inl here ↦ (r, run, below, here)
          | inr front ↦ absurd (
              omega (
                arith,
                most i (omega arith) listed,
                place,
                holes-below k.memory heap.end_address heap.start_address
                    (heap.start_address + total before) (entry heap r) before front_pieces front,
              ))
        ]
      ]

-- The memory when the header at `h` and its footer are rewritten for the size `t`.
unfoldable pub grown : Memory → (h t : ℕ) → Memory
grown m h t = store32 (store32 (store32 m (h + 8) t) (h + t - 8 + 4) h) (h + t - 8) heap_magic

pub grown_outside :
    (m : Memory) (h t b : ℕ)
    → 20 ≤ t
    → (b < h + 8) ⊎ (h + 12 ≤ b)
    → (b < h + t - 8) ⊎ (h + t ≤ b)
    → grown m h t b ≡ m b
unfolding grown
grown_outside m h t b room o p =
    store32_outside _ (h + t - 8) heap_magic b (omega arith)
    ∙ store32_outside _ (h + t - 8 + 4) h b (omega arith)
    ∙ store32_outside m (h + 8) t b (omega arith)

pub grown-size : (m : Memory) (h t : ℕ) → 20 ≤ t → t < 2 ^ 32 → get_size (grown m h t) h ≡ t
unfolding grown
grown-size m h t room word =
    load32-store32_ne _ (h + t - 8) heap_magic (h + 8) (omega arith)
    ∙ load32-store32_ne _ (h + t - 8 + 4) h (h + 8) (omega arith)
    ∙ load32-store32_self m (h + 8) t word

pub grown-PieceAt :
    (m : Memory) (top top' h s t : ℕ)
    → PieceAt m top h (piece s true)
    → s ≤ t
    → h + t < 2 ^ 32
    → PieceAt (grown m h t) top' h (piece t true)
unfolding grown
grown-PieceAt m top top' h s t at more word = record {
  magic =
      load32-store32_ne _ (h + t - 8) heap_magic h (omega (arith, at.room))
      ∙ load32-store32_ne _ (h + t - 8 + 4) h h (omega (arith, at.room))
      ∙ load32-store32_ne m (h + 8) t h (omega arith)
      ∙ at.magic;
  hole =
      load8-store32_ne _ (h + t - 8) heap_magic (h + 4) (omega (arith, at.room))
      ∙ load8-store32_ne _ (h + t - 8 + 4) h (h + 4) (omega (arith, at.room))
      ∙ load8-store32_ne m (h + 8) t (h + 4) (omega arith)
      ∙ at.hole;
  sized = grown-size m h t (omega (arith, at.room)) (omega arith);
  room = omega (arith, at.room);
  foot = inr (
    load32-store32_self _ (h + t - 8) heap_magic (omega arith),
    load32-store32_ne _ (h + t - 8) heap_magic (h + t - 8 + 4) (omega arith)
        ∙ load32-store32_self _ (h + t - 8 + 4) h (omega arith),
  );
}

-- The run of `grow`, once `expand` has run and a header is found.
pub grow-run :
    (kmalloc_ap : KmallocAp) (k : Kernel) (heap : Heap) (n length e r h s d : ℕ) (m : Memory)
    → k.kheap ≡ some heap
    → heap_length heap ≡ length
    → expand kmalloc_ap (add32 length n) k
      ≡ ok (tt, record k { memory = m; kheap = some (record heap { end_address = e }) })
    → endmost_from heap.index heap.index.size 0 0xffff 0 ≡ ok r
    → r < 0xffff
    → lookup_ordered_array r heap.index ≡ ok h
    → get_size m h ≡ s
    → sub32 e heap.start_address ≡ length + d
    → 20 ≤ s
    → h + s + d < 2 ^ 32
    → length + d < 2 ^ 32
    → grow kmalloc_ap n k
      ≡ ok (
        tt,
        record k { memory = grown m h (s + d); kheap = some (record heap { end_address = e }) },
      )
unfolding grow grown
grow-run kmalloc_ap k heap n length e r h s d m is_heap long ran endmost below found sized new room
      word length_word =
    let no_mark : (r == 0xffff) ≡ false = ground arith in
    let gained : sub32 (length + d) length ≡ d = omega arith in
    let size : add32 s d ≡ s + d = omega arith in
    let self : load32 (store32 m (h + 8) (s + d)) (h + 8) ≡ s + d =
      load32-store32_self m (h + 8) (s + d) (omega arith) in
    let foot : sub32 (add32 h (s + d)) 8 ≡ h + (s + d) - 8 = omega arith in
    let k₁ = record k { memory = m; kheap = some (record heap { end_address = e }) } in
    simp (
      the_heap-some k heap is_heap,
      long,
      ran,
      the_heap-some k₁ (record heap { end_address = e }) refl,
      new,
      endmost,
      no_mark,
      found,
      sized,
      gained,
      size,
      self,
      foot,
    )
