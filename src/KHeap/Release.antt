-- ===== src/KHeap/Release.antt =====
-- `free` and `kfree` of IcarusOS/kheap.c.
use cmsi.Base.{ℕ, ◌+◌, Bool, true, false, ◌&&◌, not, ltb, ◌==◌, if◌then◌else◌}
use cmsi.Base.Words.{add32, sub32}
use cmsi.OrderedArray.{insert_ordered_array, remove_ordered_array}
use cmsi.Kernel.{Cmd, pure, ◌>>=◌, ◌>>◌, lift, get, check, get32, the_heap, set_heap}
use cmsi.KHeap.Layout.{heap_magic, sizeof_header, sizeof_footer, get_magic, get_is_hole, get_size}
use cmsi.KHeap.Layout.{get_header, put_magic, put_is_hole, put_size, put_header}
use cmsi.KHeap.Search.{position_from}
use cmsi.KHeap.Resize.{heap_length, contract}

-- If a footer of a hole ends where the header begins, the hole takes the block over: its header, and
-- whether the block must still go to the index.
unfoldable pub unify_left : (header footer : ℕ) → Cmd (ℕ × Bool)
unify_left header footer = do
  k ← get
  let test_footer = sub32 header sizeof_footer
  let named = get_header k.memory test_footer
  let left = (get_magic k.memory test_footer == heap_magic) && (get_is_hole k.memory named == 1)
  if not left then pure (header, true) else do
    cache_size ← get32 (header + 8)
    put_header footer named
    size ← get32 (named + 8)
    put_size named (add32 size cache_size)
    pure (named, false)

-- `remove_ordered_array`, at the index of the header, which must be there.
unfoldable pub drop_header : (header : ℕ) → Cmd (Unit {0})
drop_header header = do
  heap ← the_heap
  iterator ← lift (position_from heap.index header heap.index.size 0)
  check (ltb iterator heap.index.size)
  index ← lift (remove_ordered_array iterator heap.index)
  set_heap (record heap { index = index })

-- If a hole begins behind the footer, it becomes part of this one and leaves the index. The result is
-- the footer, which may be the hole's.
unfoldable pub unify_right : (header footer : ℕ) → Cmd ℕ
unify_right header footer = do
  k ← get
  let test_header = add32 footer sizeof_footer
  let right =
      (get_magic k.memory test_header == heap_magic) && not (get_is_hole k.memory test_header == 0)
  if not right then pure footer else do
    size ← get32 (header + 8)
    test_size ← get32 (test_header + 8)
    put_size header (add32 size test_size)
    test_size ← get32 (test_header + 8)
    drop_header test_header
    pure (sub32 (add32 test_header test_size) sizeof_footer)

-- If the hole ends the heap, the heap contracts to where the hole starts, and the hole to what is left
-- of it. A hole that vanishes leaves the index, if the header sought is in it: the code looks for
-- `test_header`.
unfoldable pub give_back : (header footer test_header : ℕ) → Cmd (Unit {0})
give_back header footer test_header = do
  heap ← the_heap
  if not (add32 footer sizeof_footer == heap.end_address) then pure tt else do
    let old_length = heap_length heap
    new_length ← contract (sub32 header heap.start_address)
    size ← get32 (header + 8)
    if not (sub32 size (sub32 old_length new_length) == 0)
        then (do
          put_size header (sub32 size (sub32 old_length new_length))
          size ← get32 (header + 8)
          let footer = sub32 (add32 header size) sizeof_footer
          put_magic footer
          put_header footer header)
        else do
          heap ← the_heap
          iterator ← lift (position_from heap.index test_header heap.index.size 0)
          if not (ltb iterator heap.index.size) then pure tt else do
            index ← lift (remove_ordered_array iterator heap.index)
            set_heap (record heap { index = index })

unfoldable pub add_to_index : (header : ℕ) → Cmd (Unit {0})
add_to_index header = do
  k ← get
  heap ← the_heap
  index ← lift (insert_ordered_array k.memory header heap.index)
  set_heap (record heap { index = index })

unfoldable pub free : (p : ℕ) → Cmd (Unit {0})
free p = if p == 0 then pure tt else do
  k ← get
  let header = sub32 p sizeof_header
  let footer = sub32 (add32 header (get_size k.memory header)) sizeof_footer
  check (get_magic k.memory header == heap_magic)
  check (get_magic k.memory footer == heap_magic)
  put_is_hole header 1
  (header, do_add) ← unify_left header footer
  let test_header = add32 footer sizeof_footer
  footer ← unify_right header footer
  give_back header footer test_header
  if do_add then add_to_index header else pure tt

abbrev pub kfree : (p : ℕ) → Cmd (Unit {0})
kfree p = free p
