-- ===== src/KHeap/Alloc.antt =====
-- `alloc` of a request without alignment, when some hole takes it.
use cmsi.Base.{ℕ, zero, suc, ◌+◌, ◌-◌, ◌≤◌, ◌<◌, ◌≡◌, refl, ◌⊎◌, inl, inr, ap, sym, ◌∙◌, arith}
use cmsi.Base.{true, false, some, List, [], ◌∷◌, ◌++◌, ◌==◌, if◌then◌else◌, ltb, leb}
use cmsi.Base.{Bool-cases, get_or, length-take}
use mathlib.Core.Path.{subst}
use cmsi.Base.Words.{add32}
use cmsi.Base.Outcome.{ok}
use cmsi.Memory.{Memory}
use cmsi.OrderedArray.{OrderedArray, lookup_ordered_array}
use cmsi.OrderedArray.Spec.{items, IsValid}
use cmsi.OrderedArray.Remove.{lookup_ordered_array_lem}
use cmsi.Kernel.{Kernel, Heap, the_heap-some}
use cmsi.KHeap.{alloc, find_smallest_hole}
use cmsi.KHeap.Search.{find_hole_from, hole_fits}
use cmsi.KHeap.Layout.{get_size}
use cmsi.KHeap.Index.{count_of_get_or, get_or-take, index_of_count}
use cmsi.KHeap.Pieces.{Piece, piece, total, holes, count-append, holes-append}
use cmsi.KHeap.Pieces.{count-HoleIn, Tiles-piece}
use cmsi.KHeap.WellFormed.{WellFormed, carve}
use cmsi.KHeap.Carve.{entry, take_hole_whole, take_hole_divided}
use cmsi.KHeap.{take_hole}

-- Entry `i` is the first of the index, from entry `from` on, whose hole has at least `n` bytes.
pub record FirstFit (m : Memory) (cells : List ℕ) (from size n i : ℕ) : Type 0 where
  pub listed : i < size
  pub fits : n ≤ get_size m (get_or cells i 0)
  pub from_there : from ≤ i
  pub first : (j : ℕ) → from ≤ j → j < i → get_size m (get_or cells j 0) < n

find_hole_from-step :
    (m : Memory) (index : OrderedArray Memory) (n rounds iterator : ℕ)
    → IsValid index
    → iterator < index.size
    → find_hole_from n 0 m index (suc rounds) iterator ≡ (
        if leb n (get_size m (get_or index.cells iterator 0))
        then ok (some iterator)
        else find_hole_from n 0 m index rounds (iterator + 1))
unfolding find_hole_from hole_fits
find_hole_from-step m index n rounds iterator valid below =
    let found : lookup_ordered_array iterator index ≡ ok (get_or index.cells iterator 0) =
      ground (arith, lookup_ordered_array_lem iterator valid) in
    cc

pub find_hole_from_lem :
    (m : Memory) (index : OrderedArray Memory) (n : ℕ)
    → IsValid index
    → (rounds iterator last : ℕ) → rounds + iterator ≡ index.size
    → iterator ≤ last
    → last < index.size
    → n ≤ get_size m (get_or index.cells last 0)
    → (i : ℕ) × (find_hole_from n 0 m index rounds iterator ≡ ok (some i))
      × FirstFit m index.cells iterator index.size n i
unfolding find_hole_from
find_hole_from_lem m index n valid zero iterator last e l u fit = absurd (omega arith)
find_hole_from_lem m index n valid (suc r) iterator last e l u fit =
    let step = find_hole_from-step m index n r iterator valid (omega arith) in
    elim (Bool-cases (leb n (get_size m (get_or index.cells iterator 0)))) [
      | inl takes ↦ (
        iterator,
        ground arith,
        record {
          listed = omega arith;
          fits = ground arith;
          from_there = omega arith;
          first = λ j p q. absurd (omega arith);
        },
      )
      | inr small ↦
          let past : iterator < last = ground arith in
          let (i, run, fit') =
            find_hole_from_lem m index n valid r (iterator + 1) last (omega arith) (omega arith) u
              fit in
          (
            i,
            ground (arith, run),
            record {
              listed = fit'.listed;
              fits = fit'.fits;
              from_there = omega (arith, fit'.from_there);
              first = λ j p q. elim (Bool-cases (j == iterator)) [
                | inl same ↦ ground arith
                | inr other ↦ fit'.first j (ground arith) q
              ];
            },
          )
    ]

-- What `alloc` leaves of a hole of the pieces `ps`: `before` and `after` are the pieces around it.
pub record Taken (k : Kernel) (heap : Heap) (ps : List Piece) (size : ℕ) (k' : Kernel) (addr : ℕ)
    : Type 0 where
  pub before : List Piece
  pub hole_size : ℕ
  pub after : List Piece
  pub index : ℕ
  pub heap_after : Heap
  pub parts : ps ≡ before ++ piece hole_size true ∷ after
  pub first_fit : FirstFit k.memory heap.index.cells 0 heap.index.size (size + 20) index
  pub place : entry heap index ≡ heap.start_address + total before
  pub enough : size + 20 ≤ hole_size
  pub data_address : addr ≡ heap.start_address + total before + 12
  pub well_formed : WellFormed k' heap_after (before ++ (carve hole_size (size + 20) ++ after))
  pub outside :
      (b : ℕ)
      → (b < entry heap index) ⊎ (entry heap index + hole_size ≤ b)
      → k'.memory b ≡ k.memory b
  pub same_start : heap_after.start_address ≡ heap.start_address
  pub same_end : heap_after.end_address ≡ heap.end_address
  pub others : k' ≡ record k { memory = k'.memory; kheap = k'.kheap }

-- The hole at entry `i` of the index is taken.
take_hole-Taken :
    (k : Kernel) (heap : Heap) (ps : List Piece) (size i : ℕ)
    → WellFormed k heap ps
    → FirstFit k.memory heap.index.cells 0 heap.index.size (size + 20) i
    → (addr : ℕ) × (k' : Kernel) × (take_hole size 0 i k ≡ ok (addr, k'))
      × Taken k heap ps size k' addr
unfolding carve
take_hole-Taken k heap ps size i wf fit =
    let at : get_or (items heap.index) i 0 ≡ entry heap i =
      get_or-take heap.index.size i heap.index.cells fit.listed (omega (arith, wf.valid)) in
    let counted =
      count_of_get_or i (items heap.index)
        (omega (arith, fit.listed, wf.valid, length-take heap.index.size heap.index.cells)) in
    let hole =
      count-HoleIn heap.start_address (entry heap i) ps
        (ground (arith, at, counted, wf.indexed (entry heap i))) in
    let s = hole.size in
    let wf' : WellFormed k heap (hole.before ++ piece s true ∷ hole.after) =
      subst (λ x. WellFormed k heap x) hole.parts wf in
    let (there, _) =
      Tiles-piece k.memory heap.end_address heap.start_address (entry heap i) hole.before
        (piece s true) hole.after heap.end_address hole.place wf'.tiled in
    elim (Bool-cases (ltb (s - (size + 20)) 20)) [
      | inl small ↦
          let carved : piece s false ∷ [] ≡ carve s (size + 20) = ground arith in
          let (k', heap', run, after, outside, start, end, _, _, others) =
            take_hole_whole k heap hole.before s hole.after i wf' fit.listed hole.place size
              (omega (arith, fit.fits, there.sized)) (ground arith) in
          (
            entry heap i + 12,
            k',
            run,
            record {
              before = hole.before;
              hole_size = s;
              after = hole.after;
              index = i;
              heap_after = heap';
              parts = hole.parts;
              first_fit = fit;
              place = hole.place;
              enough = omega (arith, fit.fits, there.sized);
              data_address = omega (arith, hole.place);
              well_formed =
                  subst (λ x. WellFormed k' heap' (hole.before ++ (x ++ hole.after))) carved after;
              outside = outside;
              same_start = start;
              same_end = end;
              others = others;
            },
          )
      | inr large ↦
          let carved : piece (size + 20) false ∷ piece (s - (size + 20)) true ∷ []
              ≡ carve s (size + 20) =
            ground arith in
          let (k', heap', run, after, outside, start, end, others) =
            take_hole_divided k heap hole.before s hole.after i wf' fit.listed hole.place size
              (ground arith) in
          (
            entry heap i + 12,
            k',
            run,
            record {
              before = hole.before;
              hole_size = s;
              after = hole.after;
              index = i;
              heap_after = heap';
              parts = hole.parts;
              first_fit = fit;
              place = hole.place;
              enough = omega (arith, fit.fits, there.sized);
              data_address = omega (arith, hole.place);
              well_formed =
                  subst (λ x. WellFormed k' heap' (hole.before ++ (x ++ hole.after))) carved after;
              outside = outside;
              same_start = start;
              same_end = end;
              others = others;
            },
          )
    ]

-- A hole among the pieces has an entry in the index.
pub listed_hole :
    (k : Kernel) (heap : Heap) (before : List Piece) (s : ℕ) (after : List Piece)
    → WellFormed k heap (before ++ piece s true ∷ after)
    → (i : ℕ) × (i < heap.index.size)
      × (get_size k.memory (entry heap i) ≡ s)
      × (entry heap i ≡ heap.start_address + total before)
listed_hole k heap before s after wf =
    let h = heap.start_address + total before in
    let (at, _) =
      Tiles-piece k.memory heap.end_address heap.start_address h before (piece s true) after
        heap.end_address refl wf.tiled in
    let short = length-take heap.index.size heap.index.cells in
    let (i, below, e) = index_of_count h (items heap.index) (
      ground (
        arith,
        wf.indexed h,
        holes-append heap.start_address h before (piece s true ∷ after) refl,
        count-append h (holes heap.start_address before) (h ∷ holes (h + s) after),
      )) in
    let there : i < heap.index.size = omega (arith, below, short, wf.valid) in
    let same : entry heap i ≡ h =
      sym (get_or-take heap.index.size i heap.index.cells there (omega (arith, wf.valid))) ∙ e in
    (i, there, ap (get_size k.memory) same ∙ at.sized, same)

-- On a well-formed heap with a hole of at least `size` + 20 bytes, alloc without alignment returns:
-- it takes the first hole of the index that has as many, which becomes the block, with a smaller
-- hole behind it unless less than 20 bytes are left; the heap is well-formed with these pieces, and
-- no byte outside the hole changes.
pub alloc_lem :
    (k : Kernel) (heap : Heap) (before : List Piece) (s : ℕ) (after : List Piece) (size fuel : ℕ)
    → WellFormed k heap (before ++ piece s true ∷ after)
    → size + 20 ≤ s
    → (addr : ℕ) × (k' : Kernel) × (alloc (suc fuel) size 0 k ≡ ok (addr, k'))
      × Taken k heap (before ++ piece s true ∷ after) size k' addr
unfolding alloc find_smallest_hole
alloc_lem k heap before s after size fuel wf room =
    let (last, listed, sized, _) = listed_hole k heap before s after wf in
    let (i, found, fit) =
      find_hole_from_lem k.memory heap.index (size + 20) wf.valid heap.index.size 0 last
        (omega arith) (omega arith) listed (omega (arith, sized)) in
    let (addr, k', run, taken) =
      take_hole-Taken k heap (before ++ piece s true ∷ after) size i wf fit in
    let (_, inside) =
      Tiles-piece k.memory heap.end_address heap.start_address (heap.start_address + total before)
        before (piece s true) after heap.end_address refl wf.tiled in
    let n : add32 size 20 ≡ size + 20 = omega (arith, inside, wf.word) in
    (addr, k', simp (n, the_heap-some k heap wf.is_heap, found, run), taken)
