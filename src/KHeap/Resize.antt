-- ===== src/KHeap/Resize.antt =====
-- `expand` and `contract` of IcarusOS/kheap.c: the heap's end moves, and its pages gain or lose frames.
use cmsi.Base.{ℕ, zero, suc, ◌+◌, ◌/◌, ◌%◌, ◌*◌, ltb, leb, ◌==◌, if◌then◌else◌}
use cmsi.Base.Words.{add32, sub32, page_base}
use cmsi.Base.Outcome.{out_of_fuel}
use cmsi.Kernel.{Heap, Cmd, pure, halt, ◌>>=◌, ◌>>◌, get, check, the_heap, set_heap}
use cmsi.Paging.{KmallocAp, get_page, alloc_frame, free_frame}
use cmsi.KHeap.Layout.{heap_min_size, page_size}

-- heap->end_address - heap->start_address
abbrev pub heap_length : Heap → ℕ
heap_length h = sub32 h.end_address h.start_address

-- The nearest following page boundary, as `expand` takes it: a whole page is added to a size that is
-- already on one.
unfoldable pub round_up : ℕ → ℕ
round_up new_size = if page_base new_size == 0 then new_size else add32 (page_base new_size) 0x1000

-- The loop of `expand`: `while (i < new_size)`.
unfoldable pub expand_loop : KmallocAp → (fuel new_size i : ℕ) → Cmd (Unit {0})
expand_loop kmalloc_ap zero new_size i = halt out_of_fuel
expand_loop kmalloc_ap (suc n) new_size i =
    if ltb i new_size
    then (do
      k ← get
      heap ← the_heap
      page ← get_page kmalloc_ap (add32 heap.start_address i) 1 k.kernel_directory
      alloc_frame page (if heap.supervisor == 0 then 0 else 1) (if heap.readonly == 0 then 1 else 0)
      expand_loop kmalloc_ap n new_size (add32 i page_size))
    else pure tt

unfoldable pub expand : KmallocAp → (new_size : ℕ) → Cmd (Unit {0})
expand kmalloc_ap new_size = do
  heap ← the_heap
  check (ltb (heap_length heap) new_size)
  let new_size = round_up new_size
  check (leb (add32 heap.start_address new_size) heap.max_address)
  expand_loop kmalloc_ap (new_size / page_size + 1) new_size (heap_length heap)
  heap ← the_heap
  set_heap (record heap { end_address = add32 heap.start_address new_size })

-- The size that `contract` settles on: its rounding keeps bit 12 alone, and the minimum holds.
unfoldable pub contract_size : ℕ → ℕ
contract_size new_size =
    let rounded =
      if new_size / 0x1000 % 2 == 0
      then new_size
      else add32 (new_size / 0x1000 % 2 * 0x1000) 0x1000 in
    if ltb rounded heap_min_size then heap_min_size else rounded

-- `get_page` with `make` 0 calls no allocator.
abbrev pub no_kmalloc_ap : KmallocAp
no_kmalloc_ap sz = halt out_of_fuel

-- The loop of `contract`: `while (new_size < i)`.
unfoldable pub contract_loop : (fuel new_size i : ℕ) → Cmd (Unit {0})
contract_loop zero new_size i = halt out_of_fuel
contract_loop (suc n) new_size i =
    if ltb new_size i
    then (do
      k ← get
      heap ← the_heap
      page ← get_page no_kmalloc_ap (add32 heap.start_address i) 0 k.kernel_directory
      free_frame page
      contract_loop n new_size (sub32 i page_size))
    else pure tt

unfoldable pub contract : (new_size : ℕ) → Cmd ℕ
contract new_size = do
  heap ← the_heap
  check (ltb new_size (heap_length heap))
  let new_size = contract_size new_size
  let i = sub32 (heap_length heap) page_size
  contract_loop (i / page_size + 1) new_size i
  heap ← the_heap
  set_heap (record heap { end_address = add32 heap.start_address new_size })
  pure new_size
