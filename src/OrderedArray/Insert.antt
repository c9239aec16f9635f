-- ===== src/OrderedArray/Insert.antt =====
-- `insert_ordered_array` puts the item in front of the first one that is not less than it.
use cmsi.Base.{ℕ, zero, suc, ◌+◌, ◌-◌, ◌≤◌, ◌<◌, ◌^◌, ◌≡◌, refl, ap, ◌∙◌, sym, arith}
use cmsi.Base.{Bool, true, false, some, List, [], ◌∷◌, ◌++◌}
use cmsi.Base.{ltb, ◌==◌, if◌then◌else◌, length, take, length-append}
use cmsi.Base.{get_or-append, set-append}
use cmsi.Base.{lt→ltb}
use mathlib.Core.Path.{subst}
use mathlib.Core.List.{append_assoc}
use cmsi.Base.Words.{add32}
use cmsi.Base.Outcome.{ok, ok-injective}
use cmsi.OrderedArray.{OrderedArray, read, write, skip_less, shift_up, place_item, insert_with}
use cmsi.OrderedArray.{insert_ordered_array}
use cmsi.OrderedArray.Spec.{items, IsValid, insert_before, IsSorted}

-- A cell behind a prefix lies inside the storage.
in_storage : (pre : List ℕ) (y : ℕ) (ys : List ℕ) → ltb (length pre) (length (pre ++ y ∷ ys)) ≡ true
in_storage pre y ys = lt→ltb _ _ (omega (arith, length-append pre (y ∷ ys)))

-- Reading and writing the first cell behind a prefix.
pub read-append :
    (pre : List ℕ) (y : ℕ) (ys : List ℕ) (i : ℕ) → i ≡ length pre → read (pre ++ y ∷ ys) i ≡ ok y
unfolding read
read-append pre y ys i e = rw (e, in_storage pre y ys, get_or-append pre y 0 ys)

pub write-append :
    (pre : List ℕ) (y v : ℕ) (ys : List ℕ) (i : ℕ)
    → i ≡ length pre
    → write (pre ++ y ∷ ys) i v ≡ ok (pre ++ v ∷ ys)
unfolding write
write-append pre y v ys i e = rw (e, in_storage pre y ys, set-append pre y v ys)

-- One more cell in the prefix.
pub snoc_append : (pre : List ℕ) (x : ℕ) (ys : List ℕ) → pre ++ x ∷ ys ≡ (pre ++ x ∷ []) ++ ys
snoc_append pre x ys = sym (append_assoc pre (x ∷ []) ys)

pub length-snoc : (pre : List ℕ) (x : ℕ) → length (pre ++ x ∷ []) ≡ length pre + 1
length-snoc pre x = omega (arith, length-append pre (x ∷ []))

-- The `n` cells from here on move up by one, and `tmp` takes the first place.
push_in : ℕ → ℕ → List ℕ → List ℕ
push_in zero tmp ys = ys
push_in (suc n) tmp [] = []
push_in (suc n) tmp (y ∷ ys) = tmp ∷ push_in n y ys

shift_up-append :
    (n iterator tmp : ℕ) (pre ys : List ℕ)
    → iterator + 1 ≡ length pre
    → n ≤ length ys
    → shift_up n iterator tmp (pre ++ ys) ≡ ok (pre ++ push_in n tmp ys)
unfolding shift_up push_in
shift_up-append zero iterator tmp pre ys e h = refl
shift_up-append (suc n) iterator tmp pre [] e h = absurd (omega arith)
shift_up-append (suc n) iterator tmp pre (y ∷ ys) e h = rw (
  read-append pre y ys (iterator + 1) e,
  write-append pre y tmp ys (iterator + 1) e,
  snoc_append pre tmp ys,
  shift_up-append n (iterator + 1) y (pre ++ tmp ∷ []) ys (omega (arith, length-snoc pre tmp))
      (omega arith),
  ← snoc_append pre tmp (push_in n y ys),
)

take-push_in :
    (n tmp : ℕ) (ys : List ℕ) → n ≤ length ys → take n (push_in n tmp ys) ≡ take n (tmp ∷ ys)
unfolding push_in
take-push_in zero tmp ys h = refl
take-push_in (suc n) tmp [] h = absurd (omega arith)
take-push_in (suc n) tmp (y ∷ ys) h = ap (λ t. tmp ∷ t) (take-push_in n y ys (omega arith))

length-push_in : (n tmp : ℕ) (ys : List ℕ) → n ≤ length ys → length (push_in n tmp ys) ≡ length ys
unfolding push_in
length-push_in zero tmp ys h = refl
length-push_in (suc n) tmp [] h = absurd (omega arith)
length-push_in (suc n) tmp (y ∷ ys) h = ap suc (length-push_in n y ys (omega arith))

-- The end of the items: the item takes the first cell behind them.
place_item_end :
    (item iterator size : ℕ) (pre : List ℕ) (y : ℕ) (ys : List ℕ)
    → iterator ≡ length pre
    → size ≡ length pre
    → place_item item size iterator (pre ++ y ∷ ys) ≡ ok (pre ++ item ∷ ys)
unfolding place_item
place_item_end item iterator size pre y ys e e' = ground (arith, write-append pre y item ys size e')

-- In front of another item: this one and those behind it move up.
place_item_middle :
    (item n iterator size : ℕ) (pre : List ℕ) (y : ℕ) (ys : List ℕ)
    → iterator ≡ length pre
    → size ≡ length pre + suc n
    → suc n ≤ length ys
    → place_item item size iterator (pre ++ y ∷ ys) ≡ ok (pre ++ item ∷ push_in (suc n) y ys)
unfolding place_item
place_item_middle item n iterator size pre y ys e e' h =
    let left : size - iterator ≡ suc n = omega arith in
    let open_test : (iterator == size) ≡ false = ground arith in
    rw (
      open_test,
      read-append pre y ys iterator e,
      write-append pre y item ys iterator e,
      left,
      snoc_append pre item ys,
      shift_up-append (suc n) iterator y (pre ++ item ∷ []) ys (omega (arith, length-snoc pre item))
          h,
      ← snoc_append pre item (push_in (suc n) y ys),
    )

module _ (less : ℕ → ℕ → Bool) (item : ℕ) where
  -- How many of the first `n` cells the first loop passes.
  rank : ℕ → List ℕ → ℕ
  rank zero ys = 0
  rank (suc n) [] = 0
  rank (suc n) (y ∷ ys) = if less y item then suc (rank n ys) else 0

  -- The cells after the insertion among the first `n`.
  inserted : ℕ → List ℕ → List ℕ
  unfolding push_in
  inserted n [] = []
  inserted zero (y ∷ ys) = item ∷ ys
  inserted (suc n) (y ∷ ys) = if less y item then y ∷ inserted n ys else item ∷ push_in (suc n) y ys

  skip_less-rank :
      (n iterator : ℕ) (pre ys : List ℕ)
      → iterator ≡ length pre
      → n ≤ length ys
      → skip_less less item (pre ++ ys) n iterator ≡ ok (iterator + rank n ys)
  unfolding skip_less rank
  skip_less-rank zero iterator pre ys e h = ap ok (omega arith)
  skip_less-rank (suc n) iterator pre [] e h = absurd (omega arith)
  skip_less-rank (suc n) iterator pre (y ∷ ys) e h =
      let ih =
        skip_less-rank n (iterator + 1) (pre ++ y ∷ []) ys (omega (arith, length-snoc pre y))
          (omega arith) in
      ground (arith, read-append pre y ys iterator e, snoc_append pre y ys, ih)

  place_item-inserted :
      (n iterator size : ℕ) (pre ys : List ℕ)
      → iterator ≡ length pre + rank n ys
      → size ≡ length pre + n
      → n < length ys
      → place_item item size iterator (pre ++ ys) ≡ ok (pre ++ inserted n ys)
  unfolding rank inserted
  place_item-inserted n iterator size pre [] e e' h = absurd (omega arith)
  place_item-inserted zero iterator size pre (y ∷ ys) e e' h =
      place_item_end item iterator size pre y ys (omega arith) (omega arith)
  place_item-inserted (suc n) iterator size pre (y ∷ ys) e e' h = ground (
    arith,
    snoc_append pre y ys,
    snoc_append pre y (inserted n ys),
    length-snoc pre y,
    place_item-inserted n iterator size (pre ++ y ∷ []) ys,
    place_item_middle item n iterator size pre y ys,
  )

  take-inserted :
      (n : ℕ) (ys : List ℕ)
      → n < length ys
      → take (suc n) (inserted n ys) ≡ insert_before less item (take n ys)
  unfolding inserted insert_before
  take-inserted n [] h = absurd (omega arith)
  take-inserted zero (y ∷ ys) h = refl
  take-inserted (suc n) (y ∷ ys) h = ground (arith, take-inserted n ys, take-push_in (suc n) y ys)

  length-inserted : (n : ℕ) (ys : List ℕ) → n < length ys → length (inserted n ys) ≡ length ys
  unfolding inserted
  length-inserted n [] h = refl
  length-inserted zero (y ∷ ys) h = refl
  length-inserted (suc n) (y ∷ ys) h =
      ground (arith, length-inserted n ys, length-push_in (suc n) y ys)

  -- The whole insertion, over the parts of the array.
  insert_with-inserted :
      {W : Type 0} (a : OrderedArray W)
      → a.size < length a.cells
      → length a.cells < 2 ^ 32
      → insert_with item less a
        ≡ ok (record a { cells = inserted a.size a.cells; size = suc a.size })
  unfolding insert_with
  insert_with-inserted a h k =
      let no_wrap : add32 a.size 1 ≡ suc a.size = omega arith in
      rw (
        skip_less-rank a.size 0 [] a.cells refl (omega arith),
        place_item-inserted a.size (0 + rank a.size a.cells) a.size [] a.cells refl (omega arith) h,
        no_wrap,
      )

insert_ordered_array-some :
    {W : Type 0} (w : W) (item : ℕ) (a : OrderedArray W) (less : W → ℕ → ℕ → Bool)
    → a.less_than ≡ some less
    → insert_ordered_array w item a ≡ insert_with item (less w) a
unfolding insert_ordered_array
insert_ordered_array-some w item a less e = ground arith

module _ {W : Type 0} {a : OrderedArray W} {less : W → ℕ → ℕ → Bool} where
  -- With room for one more item, `insert_ordered_array` returns a valid array of the same capacity
  -- and comparison, whose items are those of before with the new one in front of the first that is
  -- not less than it.
  pub insert_ordered_array_lem :
      (w : W) (item : ℕ)
      → IsValid a
      → a.less_than ≡ some less
      → a.size < a.max_size
      → (a' : OrderedArray W) × (insert_ordered_array w item a ≡ ok a')
        × (items a' ≡ insert_before (less w) item (items a))
        × IsValid a'
        × (a'.size ≡ a.size + 1)
        × (a'.max_size ≡ a.max_size)
        × (a'.less_than ≡ some less)
  insert_ordered_array_lem w item v e room = (
    record a { cells = inserted (less w) item a.size a.cells; size = suc a.size },
    insert_ordered_array-some w item a less e
        ∙ insert_with-inserted (less w) item a (omega arith) (omega arith),
    take-inserted (less w) item a.size a.cells (omega arith),
    omega (arith, length-inserted (less w) item a.size a.cells (omega arith)),
    omega arith,
    refl,
    e,
  )

-- `insert_before` keeps a sorted list sorted, for a comparison that never holds both ways.
insert_before-IsSorted :
    (less : ℕ → ℕ → Bool) (item : ℕ) (xs : List ℕ)
    → ((x y : ℕ) → less x y ≡ true → less y x ≡ false)
    → IsSorted less xs
    → IsSorted less (insert_before less item xs)
unfolding insert_before
insert_before-IsSorted less item [] asym s = tt
insert_before-IsSorted less item (x ∷ []) asym s = ground (arith, asym x item)
insert_before-IsSorted less item (x ∷ y ∷ xs) asym s =
    ground (arith, asym x item, insert_before-IsSorted less item (y ∷ xs) asym s.1)

module _ {W : Type 0} {a a' : OrderedArray W} {less : W → ℕ → ℕ → Bool} where
  -- With room for one more item, `insert_ordered_array` keeps the items in the order of a comparison
  -- that never holds both ways.
  pub insert_ordered_array-IsSorted :
      (w : W) (item : ℕ)
      → IsValid a
      → a.less_than ≡ some less
      → a.size < a.max_size
      → ((x y : ℕ) → less w x y ≡ true → less w y x ≡ false)
      → IsSorted (less w) (items a)
      → insert_ordered_array w item a ≡ ok a'
      → IsSorted (less w) (items a')
  insert_ordered_array-IsSorted w item v e room asym s h =
      let (b, run, new, _, _, _, _) = insert_ordered_array_lem w item v e room in
      let same : b ≡ a' = ok-injective (sym run ∙ h) in
      subst (λ t. IsSorted (less w) (items t)) same
        (rw new (insert_before-IsSorted (less w) item (items a) asym s))
