-- ===== src/KHeap/Search.antt =====
-- How kheap.c looks through the index of holes: for one that fits, for the endmost one and for a given
-- header. A comparison of the index is `header_t_less_than`.
use cmsi.Base.{ℕ, zero, suc, ◌+◌, ◌-◌, ◌%◌, ◌^◌, Bool, Option, none, some, ltb, leb, ◌==◌}
use cmsi.Base.{if◌then◌else◌}
use cmsi.Base.Words.{add32, sub32, page_base}
use cmsi.Base.Outcome.{Outcome, ok, stop, ◌>>=◌}
use cmsi.Memory.{Memory}
use cmsi.OrderedArray.{OrderedArray, lookup_ordered_array}
use cmsi.KHeap.Layout.{page_size, sizeof_header, get_size}

-- a >= b, of two int32_t by their bit patterns
abbrev pub sge32 : ℕ → ℕ → Bool
sge32 a b = leb ((b + 2 ^ 31) % 2 ^ 32) ((a + 2 ^ 31) % 2 ^ 32)

-- The space that a hole loses when its block must start on a page.
unfoldable pub align_offset : (location : ℕ) → ℕ
align_offset location =
    if page_base (add32 location sizeof_header) == 0
    then 0
    else page_size - add32 location sizeof_header % page_size

-- Does a hole of this size at this place take `size` bytes?
unfoldable pub hole_fits : (size page_align location hole_size : ℕ) → Bool
unfolding align_offset
hole_fits size page_align location hole_size =
    if ltb 0 page_align
    then sge32 (sub32 hole_size (align_offset location)) size
    else leb size hole_size

-- The loop of `find_smallest_hole`, with the rounds left; `none` is its -1.
unfoldable pub find_hole_from :
    (size page_align : ℕ)
    → Memory
    → OrderedArray Memory
    → (rounds iterator : ℕ) → Outcome (Option ℕ)
find_hole_from size page_align m index zero iterator = ok none
find_hole_from size page_align m index (suc n) iterator =
    let next = find_hole_from size page_align m index n (iterator + 1) in
    elim (lookup_ordered_array iterator index) [
      | stop s ↦ stop s
      | ok header ↦
          if hole_fits size page_align header (get_size m header) then ok (some iterator) else next
    ]

unfoldable pub header_t_less_than : Memory → ℕ → ℕ → Bool
header_t_less_than m a b = ltb (get_size m a) (get_size m b)

-- The loop of `alloc` that finds the endmost header, with the rounds left: the index of the one of
-- highest address, or the `idx` given when none is above `value`.
unfoldable pub endmost_from : OrderedArray Memory → (rounds iterator idx value : ℕ) → Outcome ℕ
endmost_from index zero iterator idx value = ok idx
endmost_from index (suc n) iterator idx value = do
  tmp ← lookup_ordered_array iterator index
  endmost_from index n (iterator + 1) (if ltb value tmp then iterator else idx)
      (if ltb value tmp then tmp else value)

-- The loop of `free` that looks for a header in the index: where it is, or the index's size.
unfoldable pub position_from : OrderedArray Memory → (header rounds iterator : ℕ) → Outcome ℕ
position_from index header zero iterator = ok iterator
position_from index header (suc n) iterator =
    let next = position_from index header n (iterator + 1) in
    do x ← lookup_ordered_array iterator index; if x == header then ok iterator else next
