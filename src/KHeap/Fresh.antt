-- ===== src/KHeap/Fresh.antt =====
-- About the part of `alloc` in IcarusOS/kheap.c that makes the heap grow, where no hole is listed.
use cmsi.Base.{ℕ, ◌+◌, ◌-◌, ◌^◌, ◌≤◌, ◌<◌, ◌≡◌, ◌⊎◌, inl, inr, refl, ◌∙◌, arith}
use cmsi.Base.{true, some, List, [], ◌∷◌}
use cmsi.Base.Words.{add32, sub32}
use cmsi.Base.Outcome.{ok}
use cmsi.Memory.{Memory, load32, store32, store8}
use cmsi.Memory.Access.{
  load32-store32_self, load32-store32_ne, load8-store32_ne, load32-store8_ne, load8-store8_self,
  store32_outside, store8_outside,
}
use cmsi.OrderedArray.{OrderedArray, insert_ordered_array}
use cmsi.Kernel.{Kernel, Heap, the_heap-some}
use cmsi.Paging.{KmallocAp}
use cmsi.KHeap.{grow}
use cmsi.KHeap.Resize.{expand, heap_length}
use cmsi.KHeap.Search.{endmost_from}
use cmsi.KHeap.Layout.{heap_magic}
use cmsi.KHeap.Pieces.{Piece, piece, PieceAt, Tiles}
use cmsi.KHeap.Endmost.{NoHoles}

-- The memory when `grow` has written the header and the footer of a hole of `t` bytes at `h`.
unfoldable pub fresh : Memory → (h t : ℕ) → Memory
fresh m h t =
    store32
      (store32 (store8 (store32 (store32 m h heap_magic) (h + 8) t) (h + 4) 1) (h + t - 8)
        heap_magic)
      (h + t - 8 + 4) h

pub fresh_outside : (m : Memory) (h t b : ℕ) → 20 ≤ t → (b < h) ⊎ (h + t ≤ b) → fresh m h t b ≡ m b
unfolding fresh
fresh_outside m h t b room o =
    store32_outside _ (h + t - 8 + 4) h b (omega arith)
    ∙ store32_outside _ (h + t - 8) heap_magic b (omega arith)
    ∙ store8_outside _ (h + 4) 1 b (λ e. omega arith)
    ∙ store32_outside _ (h + 8) t b (omega arith)
    ∙ store32_outside m h heap_magic b (omega arith)

pub fresh-PieceAt :
    (m : Memory) (top h t : ℕ)
    → 20 ≤ t
    → h + t < 2 ^ 32
    → PieceAt (fresh m h t) top h (piece t true)
unfolding fresh
fresh-PieceAt m top h t room word = record {
  magic =
      load32-store32_ne _ (h + t - 8 + 4) h h (omega arith)
      ∙ load32-store32_ne _ (h + t - 8) heap_magic h (omega arith)
      ∙ load32-store8_ne _ (h + 4) 1 h (omega arith)
      ∙ load32-store32_ne _ (h + 8) t h (omega arith)
      ∙ load32-store32_self m h heap_magic (omega arith);
  hole =
      load8-store32_ne _ (h + t - 8 + 4) h (h + 4) (omega arith)
      ∙ load8-store32_ne _ (h + t - 8) heap_magic (h + 4) (omega arith)
      ∙ load8-store8_self _ (h + 4) 1 (omega arith);
  sized =
      load32-store32_ne _ (h + t - 8 + 4) h (h + 8) (omega arith)
      ∙ load32-store32_ne _ (h + t - 8) heap_magic (h + 8) (omega arith)
      ∙ load32-store8_ne _ (h + 4) 1 (h + 8) (omega arith)
      ∙ load32-store32_self _ (h + 8) t (omega arith);
  room = room;
  foot = inr (
    load32-store32_ne _ (h + t - 8 + 4) h (h + t - 8) (omega arith)
        ∙ load32-store32_self _ (h + t - 8) heap_magic (omega arith),
    load32-store32_self _ (h + t - 8 + 4) h (omega arith),
  );
}

-- Every block has its footer, wherever the heap ends.
pub blocks-Tiles :
    (m : Memory) (top top' a e : ℕ) (ps : List Piece)
    → NoHoles ps
    → Tiles m top a ps e
    → Tiles m top' a ps e
blocks-Tiles m top top' a e [] none_there t = t
blocks-Tiles m top top' a e (p ∷ ps) (block, none_there) (at, t) = (
  record {
    magic = at.magic;
    hole = at.hole;
    sized = at.sized;
    room = at.room;
    foot = elim at.foot [ inl (hole, _) ↦ absurd (ground arith) | inr foot ↦ inr foot ];
  },
  blocks-Tiles m top top' (a + p.size) e ps none_there t,
)

-- The run of `grow`, once `expand` has run and no header is listed.
pub grow-fresh :
    (kmalloc_ap : KmallocAp) (k : Kernel) (heap : Heap) (n length e d : ℕ) (m : Memory)
    (index : OrderedArray Memory)
    → k.kheap ≡ some heap
    → heap_length heap ≡ length
    → expand kmalloc_ap (add32 length n) k
      ≡ ok (tt, record k { memory = m; kheap = some (record heap { end_address = e }) })
    → heap.index.size ≡ 0
    → sub32 e heap.start_address ≡ length + d
    → 20 ≤ d
    → heap.end_address + d < 2 ^ 32
    → length + d < 2 ^ 32
    → insert_ordered_array (fresh m heap.end_address d) heap.end_address heap.index ≡ ok index
    → grow kmalloc_ap n k
      ≡ ok (
        tt,
        record k {
          memory = fresh m heap.end_address d;
          kheap = some (record heap { end_address = e; index = index });
        },
      )
unfolding grow fresh endmost_from
grow-fresh kmalloc_ap k heap n length e d m index is_heap long ran empty new room word length_word
      inserted =
    let h = heap.end_address in
    let gained : sub32 (length + d) length ≡ d = omega arith in
    let m₁ = store32 m h heap_magic in
    let self : load32 (store8 (store32 m₁ (h + 8) d) (h + 4) 1) (h + 8) ≡ d =
      load32-store8_ne (store32 m₁ (h + 8) d) (h + 4) 1 (h + 8) (omega arith)
      ∙ load32-store32_self m₁ (h + 8) d (omega arith) in
    let foot : sub32 (add32 h d) 8 ≡ h + d - 8 = omega arith in
    let k₁ = record k { memory = m; kheap = some (record heap { end_address = e }) } in
    simp (
      the_heap-some k heap is_heap,
      long,
      ran,
      the_heap-some k₁ (record heap { end_address = e }) refl,
      new,
      empty,
      gained,
      self,
      foot,
      inserted,
    )
