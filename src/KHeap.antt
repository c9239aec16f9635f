-- ===== src/KHeap.antt =====
-- IcarusOS/kheap.c and kheap.h: the kernel heap. A block or a hole lies in memory between a header of
-- 12 bytes (`magic` at 0, `is_hole` at 4, `size` at 8) and a footer of 8 (`magic` at 0, the address of
-- the header at 4); its size counts both. The index of holes is an ordered array, by size. The heap's
-- own words (its `heap_t` and the storage of the index) are not part of the modelled memory.
pub mod Layout
pub mod Search
pub mod Resize
pub mod Release
pub mod Pieces
pub mod Index
pub mod WellFormed
pub mod Take
pub mod Carve
pub mod Alloc
pub mod Unify
pub mod Free
pub mod Freed
pub mod StaleFooter
pub mod Placement
pub mod Create
pub mod Aligned
pub mod AlignedTake
pub mod AlignedAlloc
pub mod RoundTrip
pub mod Held
pub mod Client
pub mod View
pub mod Expand
pub mod Endmost
pub mod Grow
pub mod Grown
pub mod Extended
pub mod Overlap
pub mod Fresh
pub mod Filled
pub mod Samples
mod Tests
mod GrowthTests
use Layout.{heap_magic, heap_index_size, heap_min_size, sizeof_header, sizeof_footer, page_size}
use Layout.{
  put_header, put_magic, put_is_hole, put_size, get_magic, get_is_hole, get_size, put_footer,
}
use Search.{find_hole_from, header_t_less_than, endmost_from, position_from}
use Resize.{expand, heap_length, no_kmalloc_ap}
use cmsi.Base.{ℕ, zero, suc, ◌+◌, ◌-◌, ◌*◌, ◌/◌, ◌%◌, ◌^◌, Bool, true, false, ◌&&◌, not}
use cmsi.Base.{Option, none, some, ltb, leb, ◌==◌, if◌then◌else◌}
use cmsi.Base.Words.{add32, sub32, mul32, page_base, page_offset}
use cmsi.Base.Outcome.{Outcome, ok, stop, out_of_fuel}
use cmsi.Memory.{Memory, load32, load8}
use cmsi.OrderedArray.{
  OrderedArray, insert_ordered_array, lookup_ordered_array, remove_ordered_array,
}
use cmsi.OrderedArray.{place_ordered_array}
use cmsi.Kernel.{
  Kernel, Heap, Cmd, pure, halt, ◌>>=◌, ◌>>◌, lift, get, check, get32, the_heap, set_heap,
}
use cmsi.Paging.{KmallocAp, get_page, alloc_frame, free_frame}
use cmsi.Paging.Entry.{frame}

unfoldable pub find_smallest_hole : (size page_align : ℕ) → Cmd (Option ℕ)
find_smallest_hole size page_align = do
  k ← get
  heap ← the_heap
  lift (find_hole_from size page_align k.memory heap.index heap.index.size 0)

-- The part of `alloc` that runs when no hole fits, up to the recursive call: the heap grows, and the
-- new space goes to the endmost hole, or becomes a hole of its own.
unfoldable pub grow : KmallocAp → (new_size : ℕ) → Cmd (Unit {0})
grow kmalloc_ap new_size = do
  heap ← the_heap
  let old_length = heap_length heap
  let old_end_address = heap.end_address
  expand kmalloc_ap (add32 old_length new_size)
  heap ← the_heap
  let new_length = heap_length heap
  idx ← lift (endmost_from heap.index heap.index.size 0 0xffff 0)
  if idx == 0xffff
      then (do
        let header = old_end_address
        put_magic header
        put_size header (sub32 new_length old_length)
        put_is_hole header 1
        size ← get32 (header + 8)
        put_footer (sub32 (add32 old_end_address size) sizeof_footer) header
        k ← get
        index ← lift (insert_ordered_array k.memory header heap.index)
        set_heap (record heap { index = index }))
      else do
        header ← lift (lookup_ordered_array idx heap.index)
        size ← get32 (header + 8)
        put_size header (add32 size (sub32 new_length old_length))
        size ← get32 (header + 8)
        let footer = sub32 (add32 header size) sizeof_footer
        put_header footer header
        put_magic footer

-- The block's place in the hole, and what is left of the hole for it: behind a new hole in front if
-- the data must start on a page. Else the hole leaves the index.
unfoldable pub place_block : (page_align iterator pos hole_size : ℕ) → Cmd (ℕ × ℕ)
place_block page_align iterator pos hole_size =
    if not (page_align == 0) && not (page_base pos == 0)
    then (do
      let gap = sub32 (sub32 0x1000 (page_offset pos)) sizeof_header
      let new_location = add32 pos gap
      put_size pos gap
      put_magic pos
      put_is_hole pos 1
      put_footer (sub32 new_location sizeof_footer) pos
      size ← get32 (pos + 8)
      pure (new_location, sub32 hole_size size))
    else do
      heap ← the_heap
      index ← lift (remove_ordered_array iterator heap.index)
      set_heap (record heap { index = index })
      pure (pos, hole_size)

-- The header and footer of the allocated block.
unfoldable pub write_block : (pos size new_size : ℕ) → Cmd (Unit {0})
write_block pos size new_size = do
  put_magic pos
  put_is_hole pos 0
  put_size pos new_size
  put_footer (add32 (add32 pos sizeof_header) size) pos

-- The hole behind the block, if there is space left.
unfoldable pub write_remainder : (pos size new_size hole_size : ℕ) → Cmd (Unit {0})
write_remainder pos size new_size hole_size = if sub32 hole_size new_size == 0 then pure tt else do
  let hole = add32 (add32 (add32 pos sizeof_header) size) sizeof_footer
  put_magic hole
  put_is_hole hole 1
  put_size hole (sub32 hole_size new_size)
  let footer = sub32 (sub32 (add32 hole hole_size) new_size) sizeof_footer
  heap ← the_heap
  if ltb footer heap.end_address then put_footer footer hole else pure tt
  k ← get
  index ← lift (insert_ordered_array k.memory hole heap.index)
  set_heap (record heap { index = index })

-- The part of `alloc` that runs when hole `iterator` of the index fits: a remainder too small for a
-- hole goes to the block.
unfoldable pub take_hole : (size page_align iterator : ℕ) → Cmd ℕ
take_hole size page_align iterator = do
  heap ← the_heap
  pos ← lift (lookup_ordered_array iterator heap.index)
  hole_size ← get32 (pos + 8)
  let new_size = add32 size (sizeof_header + sizeof_footer)
  let small = ltb (sub32 hole_size new_size) (sizeof_header + sizeof_footer)
  let size = if small then add32 size (sub32 hole_size new_size) else size
  let new_size = if small then hole_size else new_size
  (pos, hole_size) ← place_block page_align iterator pos hole_size
  write_block pos size new_size
  write_remainder pos size new_size hole_size
  pure (add32 pos sizeof_header)

-- Where `kmalloc_int` places the next piece while there is no heap: at the placement address, moved to
-- the next page boundary if the piece is to be aligned and the address is not below the first page.
unfoldable pub placement_of : (align placement_address : ℕ) → ℕ
placement_of align placement_address =
    if align == 1 && not (page_base placement_address == 0)
    then add32 (page_base placement_address) 0x1000
    else placement_address

-- `kmalloc_int`, over the allocator that it calls when there is a heap. The physical address is 0 if
-- the caller gave no pointer for it.
unfoldable pub kmalloc_with : (ℕ → ℕ → Cmd ℕ) → (sz align : ℕ) → (phys : Bool) → Cmd (ℕ × ℕ)
kmalloc_with alloc sz align phys = do
  k ← get
  elim (k.kheap) [
    | none ↦ do
      let placed = placement_of align k.placement_address
      (λ k. ok (tt, record k { placement_address = add32 placed sz }))
      pure (placed, if phys then placed else 0)
    | some _ ↦ do
      addr ← alloc sz (align % 2 ^ 8)
      k ← get
      if phys
          then (do
            page ← get_page no_kmalloc_ap addr 0 k.kernel_directory
            w ← get32 page
            pure (addr, add32 (mul32 (frame w) 0x1000) (page_offset addr)))
          else pure (addr, 0)
  ]

-- `alloc`, with fuel for its calls of itself: the one behind `grow`, and those of `get_page` through
-- `kmalloc_ap` while the heap grows.
unfoldable pub alloc : (fuel size page_align : ℕ) → Cmd ℕ
alloc zero size page_align = halt out_of_fuel
alloc (suc fuel) size page_align = do
  let new_size = add32 size (sizeof_header + sizeof_footer)
  found ← find_smallest_hole new_size page_align
  elim found [
    | some iterator ↦ take_hole size page_align iterator
    | none ↦ do
      grow (λ sz. kmalloc_with (alloc fuel) sz 1 true) new_size
      alloc fuel size page_align
  ]

-- `kmalloc_int` and its four callers, with the fuel of `alloc`.
abbrev pub kmalloc_int : (fuel sz align : ℕ) → (phys : Bool) → Cmd (ℕ × ℕ)
kmalloc_int fuel sz align phys = kmalloc_with (alloc fuel) sz align phys

unfoldable pub kmalloc_a : (fuel sz : ℕ) → Cmd ℕ
kmalloc_a fuel sz = do (addr, _) ← kmalloc_int fuel sz 1 false; pure addr

unfoldable pub kmalloc_p : (fuel sz : ℕ) → Cmd (ℕ × ℕ)
kmalloc_p fuel sz = kmalloc_int fuel sz 0 true

unfoldable pub kmalloc_ap : (fuel sz : ℕ) → Cmd (ℕ × ℕ)
kmalloc_ap fuel sz = kmalloc_int fuel sz 1 true

unfoldable pub kmalloc : (fuel sz : ℕ) → Cmd ℕ
kmalloc fuel sz = do (addr, _) ← kmalloc_int fuel sz 0 false; pure addr

-- `create_heap`: the index at `start`, and behind it one hole up to `end_addr`. Its own `heap_t` comes
-- from `kmalloc`; the result is what that holds.
unfoldable pub create_heap : (fuel start end_addr max_addr supervisor readonly : ℕ) → Cmd Heap
create_heap fuel start end_addr max_addr supervisor readonly = do
  _ ← kmalloc fuel 36
  check (start % 0x1000 == 0)
  check (end_addr % 0x1000 == 0)
  let index = place_ordered_array start heap_index_size (some header_t_less_than)
  let start = add32 start (4 * heap_index_size)
  let start = if page_base start == 0 then start else add32 (page_base start) 0x1000
  let hole = start
  put_size hole (sub32 end_addr start)
  put_magic hole
  put_is_hole hole 1
  k ← get
  index ← lift (insert_ordered_array k.memory hole index)
  pure (record {
    index = index;
    start_address = start;
    end_address = end_addr;
    max_address = max_addr;
    supervisor = supervisor;
    readonly = readonly;
  })
