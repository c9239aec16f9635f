-- ===== src/OrderedArray/Remove.antt =====
-- `lookup_ordered_array` and `remove_ordered_array`.
use cmsi.Base.{ℕ, zero, suc, ◌+◌, ◌-◌, ◌≤◌, ◌<◌, ◌≡◌, refl, ap, ◌∙◌, sym, arith}
use cmsi.Base.{List, [], ◌∷◌, ◌++◌}
use cmsi.Base.{ltb, if◌then◌else◌, length, get_or, take}
use cmsi.Base.Words.{sub32}
use cmsi.Base.Outcome.{ok, stop, assertion_failed}
use cmsi.OrderedArray.{OrderedArray, read, shift_down}
use cmsi.OrderedArray.{lookup_ordered_array, remove_ordered_array}
use cmsi.OrderedArray.Spec.{items, IsValid, remove_at}
use cmsi.OrderedArray.Insert.{read-append, write-append, snoc_append, length-snoc}
use cmsi.Base.Outcome.{out_of_bounds}

-- The `n` cells from here on take the value of the next one.
pull_out : ℕ → List ℕ → List ℕ
pull_out zero ys = ys
pull_out (suc n) [] = []
pull_out (suc n) (x ∷ []) = x ∷ []
pull_out (suc n) (x ∷ y ∷ ys) = y ∷ pull_out n (y ∷ ys)

read-append_second :
    (pre : List ℕ) (x y : ℕ) (ys : List ℕ) (i : ℕ)
    → i ≡ length pre + 1
    → read (pre ++ x ∷ y ∷ ys) i ≡ ok y
read-append_second pre x y ys i e =
    rw (snoc_append pre x (y ∷ ys))
      (read-append (pre ++ x ∷ []) y ys i (omega (arith, length-snoc pre x)))

shift_down-append :
    (n i : ℕ) (pre ys : List ℕ)
    → i ≡ length pre
    → n < length ys
    → shift_down n i (pre ++ ys) ≡ ok (pre ++ pull_out n ys)
unfolding shift_down pull_out
shift_down-append zero i pre ys e h = refl
shift_down-append (suc n) i pre [] e h = absurd (omega arith)
shift_down-append (suc n) i pre (x ∷ []) e h = absurd (omega arith)
shift_down-append (suc n) i pre (x ∷ y ∷ ys) e h = rw (
  read-append_second pre x y ys (i + 1) (omega arith),
  write-append pre x y (y ∷ ys) i e,
  snoc_append pre y (y ∷ ys),
  shift_down-append n (i + 1) (pre ++ y ∷ []) (y ∷ ys) (omega (arith, length-snoc pre y))
      (omega arith),
  ← snoc_append pre y (pull_out n (y ∷ ys)),
)

-- The cells after `n` rounds from index `i` on.
removed : ℕ → ℕ → List ℕ → List ℕ
unfolding pull_out
removed zero n ys = pull_out n ys
removed (suc i) n [] = []
removed (suc i) n (y ∷ ys) = y ∷ removed i n ys

shift_down-removed :
    (i n j : ℕ) (pre ys : List ℕ)
    → j ≡ length pre + i
    → i + n < length ys
    → shift_down n j (pre ++ ys) ≡ ok (pre ++ removed i n ys)
unfolding removed
shift_down-removed zero n j pre ys e h = shift_down-append n j pre ys (omega arith) (omega arith)
shift_down-removed (suc i) n j pre [] e h = absurd (omega arith)
shift_down-removed (suc i) n j pre (y ∷ ys) e h = rw (
  snoc_append pre y ys,
  shift_down-removed i n j (pre ++ y ∷ []) ys (omega (arith, length-snoc pre y)) (omega arith),
  ← snoc_append pre y (removed i n ys),
)

take-pull_out :
    (n k x : ℕ) (ys : List ℕ) → n ≤ k → k ≤ length ys → take n (pull_out k (x ∷ ys)) ≡ take n ys
unfolding pull_out
take-pull_out zero k x ys h h' = refl
take-pull_out (suc n) zero x ys h h' = absurd (omega arith)
take-pull_out (suc n) (suc k) x [] h h' = absurd (omega arith)
take-pull_out (suc n) (suc k) x (y ∷ ys) h h' =
    ap (λ t. y ∷ t) (take-pull_out n k y ys (omega arith) (omega arith))

take-removed :
    (i n m : ℕ) (ys : List ℕ)
    → suc m ≡ i + n
    → 0 < n
    → suc m < length ys
    → take m (removed i n ys) ≡ remove_at i (take (suc m) ys)
unfolding removed remove_at
take-removed zero n m [] e p h = absurd (omega arith)
take-removed zero n m (y ∷ ys) e p h = take-pull_out m n y ys (omega arith) (omega arith)
take-removed (suc i) n zero ys e p h = absurd (omega arith)
take-removed (suc i) n (suc m) [] e p h = absurd (omega arith)
take-removed (suc i) n (suc m) (y ∷ ys) e p h =
    ap (λ t. y ∷ t) (take-removed i n m ys (omega arith) p (omega arith))

length-pull_out : (n : ℕ) (ys : List ℕ) → length (pull_out n ys) ≡ length ys
unfolding pull_out
length-pull_out zero ys = refl
length-pull_out (suc n) [] = refl
length-pull_out (suc n) (x ∷ []) = refl
length-pull_out (suc n) (x ∷ y ∷ ys) = ap suc (length-pull_out n (y ∷ ys))

length-removed : (i n : ℕ) (ys : List ℕ) → length (removed i n ys) ≡ length ys
unfolding removed
length-removed zero n ys = length-pull_out n ys
length-removed (suc i) n [] = refl
length-removed (suc i) n (y ∷ ys) = ap suc (length-removed i n ys)

read_past_end :
    (pre ys : List ℕ) (i : ℕ) → i ≡ length (pre ++ ys) → read (pre ++ ys) i ≡ stop out_of_bounds
unfolding read
read_past_end pre ys i e = ground arith

shift_down_full :
    (n i : ℕ) (pre ys : List ℕ)
    → i ≡ length pre
    → 0 < n
    → n ≡ length ys
    → shift_down n i (pre ++ ys) ≡ stop out_of_bounds
unfolding shift_down
shift_down_full zero i pre ys e p h = absurd (omega arith)
shift_down_full (suc n) i pre [] e p h = absurd (omega arith)
shift_down_full (suc n) i pre (x ∷ []) e p h =
    rw (read_past_end pre (x ∷ []) (i + 1) (omega (arith, length-snoc pre x)))
shift_down_full (suc n) i pre (x ∷ y ∷ ys) e p h = rw (
  read-append_second pre x y ys (i + 1) (omega arith),
  write-append pre x y (y ∷ ys) i e,
  snoc_append pre y (y ∷ ys),
  shift_down_full n (i + 1) (pre ++ y ∷ []) (y ∷ ys) (omega (arith, length-snoc pre y))
      (omega arith) (omega arith),
)

shift_down_full_at :
    (i n j : ℕ) (pre ys : List ℕ)
    → j ≡ length pre + i
    → 0 < n
    → i + n ≡ length ys
    → shift_down n j (pre ++ ys) ≡ stop out_of_bounds
shift_down_full_at zero n j pre ys e p h = shift_down_full n j pre ys (omega arith) p (omega arith)
shift_down_full_at (suc i) n j pre [] e p h = absurd (omega arith)
shift_down_full_at (suc i) n j pre (y ∷ ys) e p h =
    rw (snoc_append pre y ys) (
      shift_down_full_at i n j (pre ++ y ∷ []) ys (omega (arith, length-snoc pre y)) p
        (omega arith))

module _ {W : Type 0} {a : OrderedArray W} where
  -- At an index in use of an array that is not full, `remove_ordered_array` returns a valid array of
  -- the same capacity and comparison, whose items are those of before less the one at the index.
  pub remove_ordered_array_lem :
      (i : ℕ)
      → IsValid a
      → i < a.size
      → a.size < a.max_size
      → (a' : OrderedArray W) × (remove_ordered_array i a ≡ ok a')
        × (items a' ≡ remove_at i (items a))
        × IsValid a'
        × (a'.size + 1 ≡ a.size)
        × (a'.max_size ≡ a.max_size)
        × (a'.less_than ≡ a.less_than)
  unfolding remove_ordered_array
  remove_ordered_array_lem i v inside room =
      let down : sub32 a.size 1 ≡ a.size - 1 = omega arith in
      let up : a.size ≡ suc (a.size - 1) = omega arith in
      (
        record a { cells = removed i (a.size - i) a.cells; size = a.size - 1 },
        rw (shift_down-removed i (a.size - i) i [] a.cells (omega arith) (omega arith), down),
        take-removed i (a.size - i) (a.size - 1) a.cells (omega arith) (omega arith) (omega arith)
            ∙ ap (λ n. remove_at i (take n a.cells)) (sym up),
        omega (arith, length-removed i (a.size - i) a.cells),
        omega arith,
        refl,
        refl,
      )

  -- An index in use gives its item; any other fails the assertion.
  pub lookup_ordered_array_lem :
      (i : ℕ)
      → IsValid a
      → lookup_ordered_array i a
        ≡ (if ltb i a.size then ok (get_or a.cells i 0) else stop assertion_failed)
  unfolding lookup_ordered_array read
  lookup_ordered_array_lem i v = ground arith

  -- On a full array `remove_ordered_array` reads the cell behind its storage, whatever index in use
  -- it is given.
  pub remove_ordered_array_full :
      (i : ℕ)
      → IsValid a
      → i < a.size
      → a.size ≡ a.max_size
      → remove_ordered_array i a ≡ stop out_of_bounds
  unfolding remove_ordered_array
  remove_ordered_array_full i v inside full =
      rw (shift_down_full_at i (a.size - i) i [] a.cells (omega arith) (omega arith) (omega arith))
