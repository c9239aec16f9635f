-- ===== src/KHeap/StaleFooter.antt =====
-- `free` of a block with a hole behind it: the hole's footer keeps naming the hole's old header.
use cmsi.Base.{ℕ, zero, suc, ◌+◌, ◌-◌, ◌≤◌, ◌<◌, ◌≡◌, refl, inl, inr, ap, sym, ◌∙◌, arith}
use cmsi.Base.{true, false, some, List, [], ◌∷◌, ◌++◌, ◌==◌, if◌then◌else◌, ltb, Bool-cases}
use cmsi.Base.{get_or, length-take}
use cmsi.Base.Words.{add32, sub32}
use cmsi.Base.Outcome.{ok}
use cmsi.Memory.{Memory, load32, store32}
use cmsi.Memory.Access.{load32-store32_ne, load32-store32_self, load8-store32_ne}
use cmsi.OrderedArray.{OrderedArray, insert_ordered_array, lookup_ordered_array}
use cmsi.OrderedArray.Spec.{items, IsValid}
use cmsi.OrderedArray.Insert.{insert_ordered_array_lem}
use cmsi.OrderedArray.Remove.{lookup_ordered_array_lem, remove_ordered_array_lem}
use cmsi.Kernel.{Kernel, Heap, the_heap-some}
use cmsi.KHeap.Layout.{get_header, get_is_hole, get_size}
use cmsi.KHeap.Release.{free, unify_right, drop_header, give_back, add_to_index}
use cmsi.KHeap.Search.{position_from}
use cmsi.KHeap.Index.{index_of_count, get_or-take}
use cmsi.KHeap.Pieces.{Piece, piece, total, count, PieceAt, agree-PieceAt, HasFoot}
use cmsi.KHeap.WellFormed.{WellFormed}
use cmsi.KHeap.Unify.{count-holes_run, unify_left-block}
use cmsi.KHeap.Free.{block_foot, three, marked, marked_front, marked_block, same_behind}
use cmsi.Kernel.{the_heap}

position_from-step :
    (index : OrderedArray Memory) (x rounds iterator : ℕ)
    → IsValid index
    → iterator < index.size
    → position_from index x (suc rounds) iterator ≡ (
        if get_or index.cells iterator 0 == x
        then ok iterator
        else position_from index x rounds (iterator + 1))
unfolding position_from
position_from-step index x rounds iterator valid below =
    let found : lookup_ordered_array iterator index ≡ ok (get_or index.cells iterator 0) =
      ground (arith, lookup_ordered_array_lem iterator valid) in
    cc

position_from_lem :
    (index : OrderedArray Memory) (x : ℕ)
    → IsValid index
    → (rounds iterator last : ℕ) → rounds + iterator ≡ index.size
    → iterator ≤ last
    → last < index.size
    → get_or index.cells last 0 ≡ x
    → (i : ℕ) × (position_from index x rounds iterator ≡ ok i)
      × (i < index.size)
      × (get_or index.cells i 0 ≡ x)
unfolding position_from
position_from_lem index x valid zero iterator last e l u there = absurd (omega arith)
position_from_lem index x valid (suc r) iterator last e l u there =
    let step = position_from-step index x r iterator valid (omega arith) in
    elim (Bool-cases (get_or index.cells iterator 0 == x)) [
      | inl here ↦ (iterator, ground arith, omega arith, ground arith)
      | inr other ↦
          let past : iterator < last = ground arith in
          let (i, run, below, found) =
            position_from_lem index x valid r (iterator + 1) last (omega arith) (omega arith) u
              there in
          (i, ground (arith, run), below, found)
    ]

-- A header that the index counts is dropped from it.
drop_header-run :
    (k : Kernel) (heap : Heap) (h : ℕ)
    → k.kheap ≡ some heap
    → IsValid heap.index
    → heap.index.size < heap.index.max_size
    → 0 < count h (items heap.index)
    → (index : OrderedArray Memory) × (drop_header h k
        ≡ ok (tt, record k { kheap = some (record heap { index = index }) }))
      × IsValid index
      × (index.size + 1 ≡ heap.index.size)
      × (index.max_size ≡ heap.index.max_size)
      × (index.less_than ≡ heap.index.less_than)
unfolding drop_header
drop_header-run k heap h is_heap valid room counted =
    let (last, below, e) = index_of_count h (items heap.index) counted in
    let listed : last < heap.index.size =
      omega (arith, below, length-take heap.index.size heap.index.cells) in
    let at : get_or heap.index.cells last 0 ≡ h =
      sym (get_or-take heap.index.size last heap.index.cells listed (omega (arith, valid))) ∙ e in
    let (i, found, inside, _) =
      position_from_lem heap.index h valid heap.index.size 0 last (omega arith) (omega arith) listed
        at in
    let (index, removed, left, valid', smaller, same_max, same_less) =
      remove_ordered_array_lem i valid inside room in
    let checked : ltb i heap.index.size ≡ true = ground arith in
    (
      index,
      simp (the_heap-some k heap is_heap, found, checked, removed),
      valid',
      smaller,
      same_max,
      same_less,
    )

-- The footer of a piece that does not end the heap names the piece's header.
own_footer :
    (m : Memory) (top a : ℕ) (p : Piece)
    → a + p.size < top
    → HasFoot m top a p
    → get_header m (a + p.size - 8) ≡ a
own_footer m top a p below (inl (hole, end)) = absurd (omega arith)
own_footer m top a p below (inr (magic, named)) = named

module _ (k : Kernel) (heap : Heap) (before : List Piece) (q : Piece) (s : ℕ) (r : Piece)
    (after : List Piece) (wf : WellFormed k heap (before ++ q ∷ piece s false ∷ r ∷ after))
    (in_front : q.is_hole ≡ false) (behind : r.is_hole ≡ true)
    (inside : heap.start_address + total before + q.size + s + r.size < heap.end_address) where
  abbrev here : ℕ
  here = heap.start_address + total before + q.size

  abbrev after_mark : Memory
  after_mark = marked k heap before q s r after wf

  abbrev merged : Memory
  merged = store32 after_mark (here + 8) (s + r.size)

  right_piece : PieceAt after_mark heap.end_address (here + s) r
  right_piece =
      let (_, _, at₃, _) = three k heap before q s r after wf in
      agree-PieceAt k.memory after_mark heap.end_address (here + s) r
        (same_behind k heap before q s r after wf) at₃

  -- The header of the hole behind the block is in the index.
  right_counted : 0 < count (here + s) (items heap.index)
  right_counted = ground (
    arith,
    wf.indexed (here + s),
    count-holes_run (here + s) heap.start_address (heap.start_address + total before) before
        (q ∷ piece s false ∷ r ∷ []) after refl,
  )

  unify_right-run :
      (index : OrderedArray Memory)
      → drop_header (here + s) (record k { memory = merged })
        ≡ ok (tt, record k { memory = merged; kheap = some (record heap { index = index }) })
      → unify_right here (here + s - 8) (record k { memory = after_mark })
        ≡ ok (
          here + s + r.size - 8,
          record k { memory = merged; kheap = some (record heap { index = index }) },
        )
  unfolding unify_right
  unify_right-run index dropped =
      let at₂ = marked_block k heap before q s r after wf in
      let test : add32 (here + s - 8) 8 ≡ here + s = omega (arith, wf.word, at₂.room) in
      let sum : add32 s r.size ≡ s + r.size = omega (arith, wf.word) in
      let again : load32 merged (here + s + 8) ≡ r.size =
        load32-store32_ne after_mark (here + 8) (s + r.size) (here + s + 8)
          (omega (arith, at₂.room))
        ∙ right_piece.sized in
      let end : sub32 (add32 (here + s) r.size) 8 ≡ here + s + r.size - 8 =
        omega (arith, wf.word, right_piece.room) in
      simp (
        test, right_piece.magic, right_piece.hole, behind, at₂.sized, right_piece.sized, sum, again,
        dropped, end,
      )

  free-run_merged :
      (index index' : OrderedArray Memory)
      → drop_header (here + s) (record k { memory = merged })
        ≡ ok (tt, record k { memory = merged; kheap = some (record heap { index = index }) })
      → insert_ordered_array merged here index ≡ ok index'
      → free (here + 12) k
        ≡ ok (tt, record k { memory = merged; kheap = some (record heap { index = index' }) })
  unfolding free give_back add_to_index the_heap
  free-run_merged index index' dropped inserted =
      let (at, at₂, at₃, _) = three k heap before q s r after wf in
      let (foot, _) = block_foot k.memory heap.end_address here s at₂.foot in
      let header : sub32 (here + 12) 12 ≡ here = omega (arith, wf.word) in
      let footer : sub32 (add32 here s) 8 ≡ here + s - 8 = omega (arith, wf.word, at₂.room) in
      let given : (here + 12 == 0) ≡ false = ground arith in
      let next : add32 (here + s + r.size - 8) 8 ≡ here + s + r.size =
        omega (arith, wf.word, at₃.room) in
      let more : (here + s + r.size == heap.end_address) ≡ false = ground arith in
      let left =
        unify_left-block (record k { memory = after_mark }) heap.end_address
          (heap.start_address + total before) here (here + s - 8) q
          (marked_front k heap before q s r after wf) refl (omega arith) wf.word in_front in
      simp (
        given,
        header,
        at₂.sized,
        footer,
        at₂.magic,
        foot,
        left,
        unify_right-run index dropped,
        next,
        more,
        inserted,
      )

  -- On a well-formed heap, free of a block that lies between a block and a hole that does not end
  -- the heap returns with the block and the hole in one piece, whose footer still names the header
  -- that the hole had: the piece lacks the footer of a hole.
  pub free_stale_footer :
      (k' : Kernel) × (free (here + 12) k ≡ ok (tt, k'))
      × (get_is_hole k'.memory here ≡ 1)
      × (get_size k'.memory here ≡ s + r.size)
      × (get_header k'.memory (here + s + r.size - 8) ≡ here + s)
      × ¬ PieceAt k'.memory heap.end_address here (piece (s + r.size) true)
  free_stale_footer =
      let at₂ = marked_block k heap before q s r after wf in
      let (index, dropped, valid, smaller, same_max, same_less) =
        drop_header-run (record k { memory = merged }) heap (here + s) wf.is_heap wf.valid wf.room
          right_counted in
      let (index', inserted, _, _, _, _, _) =
        insert_ordered_array_lem merged here valid (same_less ∙ wf.compares)
          (omega (arith, wf.room)) in
      let footed_at : get_header after_mark (here + s + r.size - 8) ≡ here + s =
        own_footer after_mark heap.end_address (here + s) r inside right_piece.foot in
      let named : get_header merged (here + s + r.size - 8) ≡ here + s =
        load32-store32_ne after_mark (here + 8) (s + r.size) (here + s + r.size - 8 + 4)
          (omega (arith, at₂.room, right_piece.room))
        ∙ footed_at in
      (
        record k { memory = merged; kheap = some (record heap { index = index' }) },
        free-run_merged index index' dropped inserted,
        load8-store32_ne after_mark (here + 8) (s + r.size) (here + 4) (omega arith) ∙ at₂.hole,
        load32-store32_self after_mark (here + 8) (s + r.size) (omega (arith, wf.word)),
        named,
        λ at.
            let own =
              own_footer merged heap.end_address here (piece (s + r.size) true) (omega arith)
                at.foot in
            let same : here + (s + r.size) - 8 ≡ here + s + r.size - 8 = omega arith in
            let twice : here ≡ here + s = sym own ∙ ap (get_header merged) same ∙ named in
            omega (arith, at₂.room),
      )
