-- ===== src/OrderedArray.antt =====
-- IcarusOS/ordered_array.c and ordered_array.h. The words that the pointer `array` leads to are the
-- list `cells`; an access outside them stops the run. A comparison may read memory, so it takes the
-- state `W` of the world at the time of the call.
pub mod Spec
pub mod Insert
pub mod Remove
mod Tests
use cmsi.Base.{ℕ, zero, suc, ◌+◌, ◌-◌, Bool, Option, none, some, List}
use cmsi.Base.{ltb, ◌==◌, if◌then◌else◌, length, get_or, set, replicate}
use cmsi.Base.Words.{add32, sub32, mul32}
use cmsi.Base.Outcome.{Outcome, ok, stop, out_of_bounds, assertion_failed, ◌>>=◌, ◌>>◌, assert}

-- lessthan_predicate_t
abbrev pub LessThan : Type 0 → Type 0
LessThan W = W → ℕ → ℕ → Bool

-- ordered_array_t
pub record OrderedArray (W : Type 0) : Type 0 where
  pub array : ℕ
  pub cells : List ℕ
  pub size : ℕ
  pub max_size : ℕ
  pub less_than : Option (LessThan W)

-- array[i]
unfoldable pub read : List ℕ → ℕ → Outcome ℕ
read cells i = if ltb i (length cells) then ok (get_or cells i 0) else stop out_of_bounds

-- array[i] = v
unfoldable pub write : List ℕ → ℕ → ℕ → Outcome (List ℕ)
write cells i v = if ltb i (length cells) then ok (set cells i v) else stop out_of_bounds

unfoldable pub standard_lessthan_predicate : (W : Type 0) → LessThan W
standard_lessthan_predicate W w a b = ltb a b

-- The storage is zeroed before it is used, whatever it held.
unfoldable pub place_ordered_array : {W : Type 0} → ℕ → ℕ → Option (LessThan W) → OrderedArray W
place_ordered_array addr max_size less_than = record {
  array = addr;
  cells = replicate max_size 0;
  size = 0;
  max_size = max_size;
  less_than = less_than;
}

-- The allocator `kmalloc` is that of kheap.c, over its state `S`.
unfoldable pub create_ordered_array :
    {W S : Type 0}
    → (ℕ → S → Outcome (ℕ × S))
    → ℕ
    → Option (LessThan W)
    → S
    → Outcome (OrderedArray W × S)
unfolding place_ordered_array
create_ordered_array kmalloc max_size less_than s = do
  (addr, s') ← kmalloc (mul32 max_size 4) s
  ok (place_ordered_array addr max_size less_than, s')

-- The first loop of `insert_ordered_array`, with the rounds left: up to the first cell that is not
-- less than the item.
skip_less : (ℕ → ℕ → Bool) → ℕ → List ℕ → (rounds iterator : ℕ) → Outcome ℕ
skip_less less item cells zero iterator = ok iterator
skip_less less item cells (suc n) iterator =
    let next = skip_less less item cells n (iterator + 1) in
    do x ← read cells iterator; if less x item then next else ok iterator

-- The second loop: each cell moves up by one.
shift_up : (rounds iterator tmp : ℕ) → List ℕ → Outcome (List ℕ)
shift_up zero iterator tmp cells = ok cells
shift_up (suc n) iterator tmp cells = do
  tmp2 ← read cells (iterator + 1)
  cells' ← write cells (iterator + 1) tmp
  shift_up n (iterator + 1) tmp2 cells'

-- What follows the first loop.
place_item : ℕ → ℕ → ℕ → List ℕ → Outcome (List ℕ)
unfolding shift_up
place_item item size iterator cells = if iterator == size then write cells size item else do
  tmp ← read cells iterator
  cells' ← write cells iterator item
  shift_up (size - iterator) iterator tmp cells'

insert_with : {W : Type 0} → ℕ → (ℕ → ℕ → Bool) → OrderedArray W → Outcome (OrderedArray W)
unfolding skip_less place_item
insert_with item less a = do
  iterator ← skip_less less item a.cells a.size 0
  cells' ← place_item item a.size iterator a.cells
  ok (record a { cells = cells'; size = add32 a.size 1 })

-- A null comparison fails the assertion.
unfoldable pub insert_ordered_array :
    {W : Type 0} → W → ℕ → OrderedArray W → Outcome (OrderedArray W)
unfolding insert_with
insert_ordered_array w item a = elim (a.less_than) [
  | none ↦ stop assertion_failed
  | some less ↦ insert_with item (less w) a
]

unfoldable pub lookup_ordered_array : {W : Type 0} → ℕ → OrderedArray W → Outcome ℕ
unfolding read
lookup_ordered_array i a = assert (ltb i a.size) >> read a.cells i

-- The loop of `remove_ordered_array`: each cell from `i` on takes the one behind it.
shift_down : (rounds i : ℕ) → List ℕ → Outcome (List ℕ)
shift_down zero i cells = ok cells
shift_down (suc n) i cells = do
  x ← read cells (i + 1)
  cells' ← write cells i x
  shift_down n (i + 1) cells'

unfoldable pub remove_ordered_array : {W : Type 0} → ℕ → OrderedArray W → Outcome (OrderedArray W)
unfolding shift_down
remove_ordered_array i a = do
  cells' ← shift_down (a.size - i) i a.cells
  ok (record a { cells = cells'; size = sub32 a.size 1 })
