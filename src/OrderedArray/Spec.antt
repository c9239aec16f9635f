-- ===== src/OrderedArray/Spec.antt =====
-- What an ordered array stands for, and its operations on plain lists.
use cmsi.Base.{
  ℕ, zero, suc, ◌≤◌, ◌^◌, ◌<◌, ◌≡◌, Bool, false, List, [], ◌∷◌, if◌then◌else◌, length, take,
}
use cmsi.OrderedArray.{OrderedArray}

-- The items in use, in order.
abbrev pub items : {W : Type 0} → OrderedArray W → List ℕ
items a = take a.size a.cells

-- The storage holds `max_size` cells, and the items fit in it.
pub record IsValid {W : Type 0} (a : OrderedArray W) : Type 0 where
  pub storage : length a.cells ≡ a.max_size
  pub fits : a.size ≤ a.max_size
  pub word : a.max_size < 2 ^ 32

-- The item goes in front of the first one that is not less than it.
unfoldable pub insert_before : (ℕ → ℕ → Bool) → ℕ → List ℕ → List ℕ
insert_before less item [] = item ∷ []
insert_before less item (x ∷ xs) =
    if less x item then x ∷ insert_before less item xs else item ∷ x ∷ xs

unfoldable pub remove_at : ℕ → List ℕ → List ℕ
remove_at i [] = []
remove_at zero (x ∷ xs) = xs
remove_at (suc i) (x ∷ xs) = x ∷ remove_at i xs

-- No item is less than the one in front of it.
abbrev pub IsSorted : (ℕ → ℕ → Bool) → List ℕ → Type 0
IsSorted less [] = Unit
IsSorted less (x ∷ []) = Unit
IsSorted less (x ∷ y ∷ xs) = (less y x ≡ false) × IsSorted less (y ∷ xs)
