-- ===== src/OrderedArray/Tests.antt =====
-- Runs of the ordered array, and its theorems at concrete arrays.
use cmsi.Base.{◌+◌, ◌≡◌, refl, arith, none, some, [], ◌∷◌}
use cmsi.Base.{ltb}
use cmsi.Base.Outcome.{ok, stop, out_of_bounds, assertion_failed, ◌>>=◌}
use cmsi.OrderedArray.{
  OrderedArray, place_ordered_array, insert_ordered_array, LessThan, read, write,
}
use cmsi.OrderedArray.{remove_ordered_array, lookup_ordered_array}
use cmsi.OrderedArray.Spec.{items, IsValid, insert_before, remove_at}
use cmsi.OrderedArray.Insert.{insert_ordered_array_lem}
use cmsi.OrderedArray.Remove.{remove_ordered_array_lem, remove_ordered_array_full}
use cmsi.OrderedArray.Remove.{lookup_ordered_array_lem}

abbrev less : LessThan (Unit {0})
less w a b = ltb a b

abbrev empty : OrderedArray (Unit {0})
unfolding place_ordered_array
empty = place_ordered_array 0x1000 4 (some less)

abbrev three : OrderedArray (Unit {0})
three = record {
  array = 0x1000;
  cells = 2 ∷ 5 ∷ 9 ∷ 0 ∷ [];
  size = 3;
  max_size = 4;
  less_than = some less;
}

abbrev full : OrderedArray (Unit {0})
full = record three { cells = 2 ∷ 5 ∷ 7 ∷ 9 ∷ []; size = 4 }

three-IsValid : IsValid three
three-IsValid = omega arith

insert_keeps_order : insert_ordered_array tt 7 three ≡ ok full
unfolding insert_ordered_array read write
insert_keeps_order = refl

three_from_empty :
    (do
      a ← insert_ordered_array tt 9 empty
      b ← insert_ordered_array tt 2 a
      insert_ordered_array tt 5 b)
    ≡ ok three
unfolding insert_ordered_array place_ordered_array read write
three_from_empty = refl

insert_full : insert_ordered_array tt 1 full ≡ stop out_of_bounds
unfolding insert_ordered_array read write
insert_full = refl

insert_without_comparison :
    insert_ordered_array tt 1 (record three { less_than = none }) ≡ stop assertion_failed
unfolding insert_ordered_array
insert_without_comparison = refl

insert_ordered_array_example :
    (a' : OrderedArray (Unit {0})) × (insert_ordered_array tt 7 three ≡ ok a')
    × (items a' ≡ insert_before ltb 7 (2 ∷ 5 ∷ 9 ∷ []))
    × IsValid a'
    × (a'.size ≡ 4)
    × (a'.max_size ≡ 4)
    × (a'.less_than ≡ some less)
insert_ordered_array_example = insert_ordered_array_lem tt 7 three-IsValid refl (omega arith)

remove_ordered_array_example :
    (a' : OrderedArray (Unit {0})) × (remove_ordered_array 1 three ≡ ok a')
    × (items a' ≡ remove_at 1 (2 ∷ 5 ∷ 9 ∷ []))
    × IsValid a'
    × (a'.size + 1 ≡ 3)
    × (a'.max_size ≡ 4)
    × (a'.less_than ≡ some less)
remove_ordered_array_example = remove_ordered_array_lem 1 three-IsValid (omega arith) (omega arith)

remove_ordered_array_full_example : remove_ordered_array 1 full ≡ stop out_of_bounds
remove_ordered_array_full_example = remove_ordered_array_full 1 (omega arith) (omega arith) refl

lookup_ordered_array_example : lookup_ordered_array 2 three ≡ ok 9
lookup_ordered_array_example = lookup_ordered_array_lem 2 three-IsValid
