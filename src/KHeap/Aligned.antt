-- ===== src/KHeap/Aligned.antt =====
-- `alloc` of a block whose data starts on a page: a hole stays in front of the block.
use cmsi.Base.{ℕ, ◌+◌, ◌-◌, ◌%◌, ◌^◌, ◌≤◌, ◌<◌, ◌≡◌, ◌⊎◌, inr, refl, ◌∙◌, arith}
use cmsi.Base.{true, false, some, ◌==◌, ltb}
use cmsi.Base.Words.{add32, sub32, page_base, page_offset}
use cmsi.Base.Outcome.{ok}
use cmsi.Memory.{Memory, load32, store32}
use cmsi.Memory.Access.{
  load32-store32_self, load32-store32_ne, load8-store32_ne, store32_outside, store8_outside,
}
use cmsi.OrderedArray.{lookup_ordered_array}
use cmsi.Kernel.{Kernel, Heap, ◌>>=◌, pure, the_heap-some}
use cmsi.KHeap.{take_hole, place_block, write_remainder}
use cmsi.KHeap.Layout.{heap_magic}
use cmsi.KHeap.Pieces.{piece, PieceAt, write_piece}
use cmsi.KHeap.Take.{write_block-run}
use cmsi.KHeap.Create.{first_hole, first_hole-PieceAt}

-- The memory with the first `gap` bytes of the hole at `h` as a hole of their own.
unfoldable pub front_hole : Memory → (h gap : ℕ) → Memory
front_hole m h gap =
    store32 (store32 (first_hole m h gap) (h + gap - 8) heap_magic) (h + gap - 8 + 4) h

pub front_hole-PieceAt :
    (m : Memory) (top h gap : ℕ)
    → 20 ≤ gap
    → h + gap < 2 ^ 32
    → PieceAt (front_hole m h gap) top h (piece gap true)
unfolding front_hole
front_hole-PieceAt m top h gap room word =
    let at = first_hole-PieceAt m h gap room (omega arith) in
    let m₁ = first_hole m h gap in
    let m₂ = store32 m₁ (h + gap - 8) heap_magic in
    record {
      magic =
          load32-store32_ne m₂ (h + gap - 8 + 4) h h (omega arith)
          ∙ load32-store32_ne m₁ (h + gap - 8) heap_magic h (omega arith)
          ∙ at.magic;
      hole =
          load8-store32_ne m₂ (h + gap - 8 + 4) h (h + 4) (omega arith)
          ∙ load8-store32_ne m₁ (h + gap - 8) heap_magic (h + 4) (omega arith)
          ∙ at.hole;
      sized =
          load32-store32_ne m₂ (h + gap - 8 + 4) h (h + 8) (omega arith)
          ∙ load32-store32_ne m₁ (h + gap - 8) heap_magic (h + 8) (omega arith)
          ∙ at.sized;
      room = room;
      foot = inr (
        load32-store32_ne m₂ (h + gap - 8 + 4) h (h + gap - 8) (omega arith)
            ∙ load32-store32_self m₁ (h + gap - 8) heap_magic (omega arith),
        load32-store32_self m₂ (h + gap - 8 + 4) h (omega arith),
      );
    }

pub front_hole_outside :
    (m : Memory) (h gap b : ℕ) → 20 ≤ gap → (b < h) ⊎ (h + gap ≤ b) → front_hole m h gap b ≡ m b
unfolding front_hole first_hole
front_hole_outside m h gap b room o =
    store32_outside _ (h + gap - 8 + 4) h b (omega arith)
    ∙ store32_outside _ (h + gap - 8) heap_magic b (omega arith)
    ∙ store8_outside _ (h + 4) 1 b (λ e. omega arith)
    ∙ store32_outside _ h heap_magic b (omega arith)
    ∙ store32_outside m (h + 8) gap b (omega arith)

module _ (k : Kernel) (i h s gap : ℕ) (paged : 0x1000 ≤ h) (is_gap : gap + h % 0x1000 + 12 ≡ 0x1000)
    (room : 20 ≤ gap) (fits : gap ≤ s) (word : h + s < 2 ^ 32) where
  place_block-gap :
      place_block 1 i h s k
      ≡ ok ((h + gap, s - gap), record k { memory = front_hole k.memory h gap })
  unfolding place_block front_hole first_hole
  place_block-gap =
      let off_page : (page_base h == 0) ≡ false = ground arith in
      let gap_word : sub32 (sub32 0x1000 (page_offset h)) 12 ≡ gap = omega arith in
      let location : add32 h gap ≡ h + gap = omega arith in
      let foot : sub32 (h + gap) 8 ≡ h + gap - 8 = omega arith in
      let size : load32 (front_hole k.memory h gap) (h + 8) ≡ gap =
        (front_hole-PieceAt k.memory 0 h gap room (omega arith)).sized in
      let left : sub32 s gap ≡ s - gap = omega arith in
      simp (off_page, gap_word, location, foot, size, left)

  -- The kernel when the block of `n` bytes is written behind the gap.
  unfoldable pub with_aligned : (n : ℕ) → Kernel
  with_aligned n = record k {
    memory = write_piece (front_hole k.memory h gap) (h + gap) (piece n false);
  }

  pub take_hole-aligned :
      (heap : Heap) (size : ℕ)
      → k.kheap ≡ some heap
      → lookup_ordered_array i heap.index ≡ ok h
      → load32 k.memory (h + 8) ≡ s
      → size + 20 + gap ≤ s
      → take_hole size 1 i k
        ≡ (write_remainder (h + gap) size (size + 20) (s - gap) >>= (λ _. pure (h + gap + 12)))
            (with_aligned (size + 20))
  unfolding take_hole with_aligned
  take_hole-aligned heap size is_heap found sized enough =
      let n : add32 size 20 ≡ size + 20 = omega arith in
      let left : sub32 s (size + 20) ≡ s - (size + 20) = omega arith in
      let big : ltb (s - (size + 20)) 20 ≡ false = ground arith in
      let result : add32 (h + gap) 12 ≡ h + gap + 12 = omega arith in
      simp (
        the_heap-some k heap is_heap,
        found,
        sized,
        n,
        left,
        big,
        place_block-gap,
        write_block-run (record k { memory = front_hole k.memory h gap }) (h + gap) size (size + 20)
            refl (omega arith),
        result,
      )
