-- ===== src/KHeap/RoundTrip.antt =====
-- A block that is allocated and freed again.
use cmsi.Base.{ℕ, suc, ◌+◌, ◌≤◌, ◌<◌, ◌≡◌, inl, inr, refl, ap, sym, ◌∙◌, arith}
use cmsi.Base.{true, false, some, List, [], ◌∷◌, ◌++◌, ltb, Bool-cases}
use mathlib.Core.Path.{subst}
use mathlib.Core.List.{append_assoc}
use cmsi.Base.Words.{add32}
use cmsi.Base.Outcome.{ok}
use cmsi.Memory.{Memory}
use cmsi.Kernel.{Kernel, Heap, the_heap-some}
use cmsi.KHeap.{alloc, find_smallest_hole}
use cmsi.KHeap.Release.{free}
use cmsi.KHeap.Pieces.{Piece, piece, total, total-append}
use cmsi.KHeap.WellFormed.{WellFormed}
use cmsi.KHeap.Carve.{entry, take_hole_whole, hole_piece}
use cmsi.KHeap.Alloc.{FirstFit, find_hole_from_lem}
use cmsi.KHeap.Freed.{free_lem, released}

-- There is one first fit.
FirstFit-unique :
    (m : Memory) (cells : List ℕ) (size n i j : ℕ)
    → FirstFit m cells 0 size n i
    → FirstFit m cells 0 size n j
    → i ≡ j
FirstFit-unique m cells size n i j p q = elim (Bool-cases (ltb i j)) [
  | inl before ↦ absurd (omega (arith, p.fits, q.first i (omega arith) (ground arith)))
  | inr not_before ↦ elim (Bool-cases (ltb j i)) [
    | inl after ↦ absurd (omega (arith, q.fits, p.first j (omega arith) (ground arith)))
    | inr not_after ↦ ground arith
  ]
]

-- On a well-formed heap whose first fit for `size` + 20 bytes lies between two blocks and has less
-- than 20 bytes more, alloc without alignment returns an address, and free of that address returns
-- the heap to a well-formed one of the same pieces as before.
pub alloc-free :
    (k : Kernel) (heap : Heap) (before : List Piece) (q : Piece) (s : ℕ) (r : Piece)
    (after : List Piece) (i size fuel : ℕ)
    → WellFormed k heap (before ++ q ∷ piece s true ∷ r ∷ after)
    → FirstFit k.memory heap.index.cells 0 heap.index.size (size + 20) i
    → entry heap i ≡ heap.start_address + total before + q.size
    → size + 20 ≤ s
    → s < size + 40
    → q.is_hole ≡ false
    → r.is_hole ≡ false
    → (addr : ℕ) × (k' : Kernel) × (k'' : Kernel) × (heap'' : Heap) × (alloc (suc fuel) size 0 k
        ≡ ok (addr, k'))
      × (free addr k' ≡ ok (tt, k''))
      × WellFormed k'' heap'' (before ++ q ∷ piece s true ∷ r ∷ after)
unfolding alloc find_smallest_hole released
alloc-free k heap before q s r after i size fuel wf fit place fits tight front behind =
    let regroup = append_assoc before (q ∷ []) (piece s true ∷ r ∷ after) in
    let wf₁ = subst (λ ps. WellFormed k heap ps) (sym regroup) wf in
    let place₁ : entry heap i ≡ heap.start_address + total (before ++ (q ∷ [])) =
      omega (arith, place, total-append before (q ∷ [])) in
    let (_, inside) =
      hole_piece k heap (before ++ (q ∷ [])) s (r ∷ after) i wf₁ fit.listed place₁ in
    let (j, found, fit') =
      find_hole_from_lem k.memory heap.index (size + 20) wf.valid heap.index.size 0 i (omega arith)
        (omega arith) fit.listed fit.fits in
    let same = FirstFit-unique k.memory heap.index.cells heap.index.size (size + 20) j i fit' fit in
    let found_i = found ∙ ap (λ (x : ℕ). ok (some x)) same in
    let (k', heap', taken, wf₂, _, start, end, smaller, capacity, _) =
      take_hole_whole k heap (before ++ (q ∷ [])) s (r ∷ after) i wf₁ fit.listed place₁ size fits
        tight in
    let wf₃ =
      subst (λ ps. WellFormed k' heap' ps)
        (append_assoc before (q ∷ []) (piece s false ∷ r ∷ after)) wf₂ in
    let (k'', heap'', freed, wf₄, _, _, _) =
      free_lem k' heap' before q s r after wf₃ (omega (arith, wf.room, smaller, capacity)) behind in
    let address : heap'.start_address + total before + q.size + 12 ≡ entry heap i + 12 =
      omega (arith, place, start) in
    let n : add32 size 20 ≡ size + 20 = omega (arith, wf.word, inside) in
    let whole : released q s ≡ q ∷ piece s true ∷ [] = rw front refl in
    (
      entry heap i + 12,
      k',
      k'',
      heap'',
      simp (n, the_heap-some k heap wf.is_heap, found_i, taken),
      subst (λ a. free a k' ≡ ok (tt, k'')) address freed,
      subst (λ ps. WellFormed k'' heap'' (before ++ (ps ++ r ∷ after))) whole wf₄,
    )
