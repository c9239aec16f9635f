-- ===== src/KHeap/Index.antt =====
-- The index of holes as a multiset: what its operations do to the number of times an address is in it.
use cmsi.Base.{ℕ, zero, suc, ◌≤◌, ◌<◌, ◌≡◌, refl, arith, Bool, List, [], ◌∷◌}
use cmsi.Base.{◌==◌, length, get_or, take, Bool-cases}
use cmsi.OrderedArray.Spec.{insert_before, remove_at}
use cmsi.KHeap.Pieces.{count}
use cmsi.Base.{inl}
use cmsi.Base.{inr}

module _ (x : ℕ) where
  pub count-insert_before :
      (less : ℕ → ℕ → Bool) (item : ℕ) (ys : List ℕ)
      → count x (insert_before less item ys) ≡ count x (item ∷ ys)
  unfolding insert_before
  count-insert_before less item [] = refl
  count-insert_before less item (y ∷ ys) = ground (arith, count-insert_before less item ys)

  pub count-remove_at :
      (i : ℕ) (ys : List ℕ) → i < length ys → count x (get_or ys i 0 ∷ remove_at i ys) ≡ count x ys
  unfolding remove_at
  count-remove_at i [] h = absurd (omega arith)
  count-remove_at zero (y ∷ ys) h = refl
  count-remove_at (suc i) (y ∷ ys) h = omega (arith, count-remove_at i ys (omega arith))

-- What stands in the list is counted.
pub count_of_get_or : (i : ℕ) (ys : List ℕ) → i < length ys → 0 < count (get_or ys i 0) ys
count_of_get_or i [] h = absurd (omega arith)
count_of_get_or zero (y ∷ ys) h = ground arith
count_of_get_or (suc i) (y ∷ ys) h = omega (arith, count_of_get_or i ys (omega arith))

pub get_or-take :
    (n i : ℕ) (ys : List ℕ) → i < n → n ≤ length ys → get_or (take n ys) i 0 ≡ get_or ys i 0
get_or-take zero i ys h k = absurd (omega arith)
get_or-take (suc n) i [] h k = absurd (omega arith)
get_or-take (suc n) zero (y ∷ ys) h k = refl
get_or-take (suc n) (suc i) (y ∷ ys) h k = get_or-take n i ys (omega arith) (omega arith)

-- What is counted stands somewhere in the list.
pub index_of_count :
    (x : ℕ) (ys : List ℕ) → 0 < count x ys → (i : ℕ) × (i < length ys) × (get_or ys i 0 ≡ x)
index_of_count x [] h = absurd (omega arith)
index_of_count x (y ∷ ys) h = elim (Bool-cases (y == x)) [
  | inl here ↦ (0, omega arith, ground arith)
  | inr there ↦
      let (i, below, e) = index_of_count x ys (ground arith) in (suc i, omega (arith, below), e)
]
