-- ===== src/KHeap/Take.antt =====
-- `alloc` without alignment, at a hole that fits.
use cmsi.Base.{ℕ, ◌+◌, ◌-◌, ◌^◌, ◌≤◌, ◌<◌, ◌≡◌, refl, arith}
use cmsi.Base.{true, false, some, ◌==◌, ltb}
use cmsi.Base.Words.{add32, sub32}
use cmsi.Base.Outcome.{ok}
use cmsi.Memory.{Memory, load32}
use cmsi.OrderedArray.{
  OrderedArray, insert_ordered_array, lookup_ordered_array, remove_ordered_array,
}
use cmsi.Kernel.{Kernel, Heap, pure, ◌>>=◌, the_heap, the_heap-some}
use cmsi.KHeap.{take_hole, place_block, write_block, write_remainder}
use cmsi.KHeap.Pieces.{piece, write_piece}

pub write_block-run :
    (k : Kernel) (pos size new_size : ℕ)
    → new_size ≡ size + 20
    → pos + new_size < 2 ^ 32
    → write_block pos size new_size k
      ≡ ok (tt, record k { memory = write_piece k.memory pos (piece new_size false) })
unfolding write_block write_piece
write_block-run k pos size new_size e word =
    let foot : add32 (add32 pos 12) size ≡ pos + new_size - 8 = omega arith in rw foot

pub write_remainder-none :
    (k : Kernel) (pos size n s : ℕ)
    → n ≡ s
    → s < 2 ^ 32
    → write_remainder pos size n s k ≡ ok (tt, k)
unfolding write_remainder
write_remainder-none k pos size n s e word = let same : sub32 s n ≡ 0 = omega arith in rw same

-- The memory and the index after the remainder is written as a hole.
pub write_remainder-run :
    (k : Kernel) (heap : Heap) (index : OrderedArray Memory) (pos size n s : ℕ)
    → k.kheap ≡ some heap
    → n ≡ size + 20
    → n + 20 ≤ s
    → pos + s ≤ heap.end_address
    → heap.end_address < 2 ^ 32
    → insert_ordered_array
        (write_piece k.memory (pos + n) (piece (s - n) true))
        (pos + n)
        heap.index
      ≡ ok index
    → write_remainder pos size n s k
      ≡ ok (
        tt,
        record k {
          memory = write_piece k.memory (pos + n) (piece (s - n) true);
          kheap = some (record heap { index = index });
        },
      )
unfolding write_remainder write_piece the_heap
write_remainder-run k heap index pos size n s is_heap e fits inside word inserted =
    let left : sub32 s n ≡ s - n = omega arith in
    let some_left : (s - n == 0) ≡ false = ground arith in
    let hole : add32 (add32 (add32 pos 12) size) 8 ≡ pos + n = omega arith in
    let foot : sub32 (sub32 (add32 (pos + n) s) n) 8 ≡ pos + n + (s - n) - 8 = omega arith in
    let foot_inside : ltb (pos + n + (s - n) - 8) heap.end_address ≡ true = ground arith in
    simp (left, some_left, hole, foot, is_heap, foot_inside, inserted)

place_block-run :
    (k : Kernel) (heap : Heap) (index : OrderedArray Memory) (i pos s : ℕ)
    → k.kheap ≡ some heap
    → remove_ordered_array i heap.index ≡ ok index
    → place_block 0 i pos s k
      ≡ ok ((pos, s), record k { kheap = some (record heap { index = index }) })
unfolding place_block
place_block-run k heap index i pos s is_heap removed = simp (the_heap-some k heap is_heap, removed)

-- The run of `take_hole` up to the remainder.
module _ (k : Kernel) (heap : Heap) (index : OrderedArray Memory) (size i pos s : ℕ)
    (is_heap : k.kheap ≡ some heap) (found : lookup_ordered_array i heap.index ≡ ok pos)
    (sized : load32 k.memory (pos + 8) ≡ s) (removed : remove_ordered_array i heap.index ≡ ok index)
    (word : pos + s < 2 ^ 32) where
  -- The kernel when a block of `n` bytes is written at the hole's place.
  unfoldable pub with_block : (n : ℕ) → Kernel
  with_block n = record k {
    memory = write_piece k.memory pos (piece n false);
    kheap = some (record heap { index = index });
  }

  pub take_hole-split :
      size + 40 ≤ s
      → take_hole size 0 i k
        ≡ (write_remainder pos size (size + 20) s >>= (λ _. pure (pos + 12)))
            (with_block (size + 20))
  unfolding take_hole with_block
  take_hole-split fits =
      let n : add32 size 20 ≡ size + 20 = omega arith in
      let left : sub32 s (size + 20) ≡ s - (size + 20) = omega arith in
      let big : ltb (s - (size + 20)) 20 ≡ false = ground arith in
      let result : add32 pos 12 ≡ pos + 12 = omega arith in
      simp (
        the_heap-some k heap is_heap,
        found,
        sized,
        n,
        left,
        big,
        place_block-run k heap index i pos s is_heap removed,
        write_block-run (record k { kheap = some (record heap { index = index }) }) pos size
            (size + 20) refl (omega arith),
        result,
      )

  pub take_hole-small :
      size + 20 ≤ s → s < size + 40 → take_hole size 0 i k ≡ ok (pos + 12, with_block s)
  unfolding take_hole with_block
  take_hole-small fits tight =
      let n : add32 size 20 ≡ size + 20 = omega arith in
      let left : sub32 s (size + 20) ≡ s - (size + 20) = omega arith in
      let small : ltb (s - (size + 20)) 20 ≡ true = ground arith in
      let all : add32 size (s - (size + 20)) ≡ s - 20 = omega arith in
      let result : add32 pos 12 ≡ pos + 12 = omega arith in
      simp (
        the_heap-some k heap is_heap,
        found,
        sized,
        n,
        left,
        small,
        all,
        place_block-run k heap index i pos s is_heap removed,
        write_block-run (record k { kheap = some (record heap { index = index }) }) pos (s - 20) s
            (omega arith) (omega arith),
        write_remainder-none (with_block s) pos (s - 20) s s refl (omega arith),
        result,
      )
