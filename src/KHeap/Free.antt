-- ===== src/KHeap/Free.antt =====
-- `free` of a block that lies between other pieces, with no hole behind it.
use cmsi.Base.{ℕ, ◌+◌, ◌-◌, ◌≤◌, ◌<◌, ◌≡◌, refl, inl, inr, ap, ◌∙◌, arith, ◌⊎◌}
use cmsi.Base.{true, false, some, List, [], ◌∷◌, ◌++◌, ◌==◌}
use cmsi.Base.Words.{add32, sub32}
use cmsi.Base.Outcome.{ok}
use cmsi.Memory.{Memory, store32, store8}
use cmsi.Memory.Access.{load32-store32_ne, load32-store8_ne, load8-store8_self, load8-store32_ne}
use cmsi.Memory.Access.{load32-store32_self, store32_outside, store8_outside}
use cmsi.OrderedArray.{OrderedArray, insert_ordered_array}
use cmsi.OrderedArray.Spec.{items}
use cmsi.OrderedArray.Insert.{insert_ordered_array_lem}
use cmsi.Kernel.{Kernel, Heap, the_heap-some}
use cmsi.KHeap.Layout.{heap_magic, get_magic, get_header, get_is_hole, get_size}
use cmsi.KHeap.Release.{free, give_back, add_to_index}
use cmsi.KHeap.Search.{header_t_less_than}
use cmsi.KHeap.Index.{count-insert_before}
use cmsi.KHeap.Pieces.{Piece, piece, total, count, PieceAt, agree-PieceAt, HasFoot}
use cmsi.KHeap.WellFormed.{WellFormed}
use cmsi.KHeap.Unify.{
  Tiles-three, Tiles-rewrite, count-holes_run, unify_left-block, unify_left-hole,
}
use cmsi.KHeap.Unify.{unify_right-block}

-- The footer of a block.
pub block_foot :
    (m : Memory) (top a s : ℕ)
    → HasFoot m top a (piece s false)
    → (get_magic m (a + s - 8) ≡ heap_magic) × (get_header m (a + s - 8) ≡ a)
block_foot m top a s (inl (hole, end)) = absurd cc
block_foot m top a s (inr foot) = foot

module _ (k : Kernel) (heap : Heap) (before : List Piece) (q : Piece) (s : ℕ) (r : Piece)
    (after : List Piece) (wf : WellFormed k heap (before ++ q ∷ piece s false ∷ r ∷ after)) where
  -- Where the piece in front of the block begins.
  abbrev pub front : ℕ
  front = heap.start_address + total before

  abbrev pub block : ℕ
  block = front + q.size

  pub three :
      PieceAt k.memory heap.end_address front q
      × PieceAt k.memory heap.end_address block (piece s false)
      × PieceAt k.memory heap.end_address (block + s) r
      × (block + s + r.size ≤ heap.end_address)
  three =
      Tiles-three k.memory heap.end_address heap.start_address front before q (piece s false) r
        after heap.end_address refl wf.tiled

  -- The memory with the block marked as a hole.
  abbrev pub marked : Memory
  marked = store8 k.memory (block + 4) 1

  same_front : (b : ℕ) → front ≤ b → b < block → marked b ≡ k.memory b
  same_front b l u = store8_outside k.memory (block + 4) 1 b (λ e. omega arith)

  pub same_behind : (b : ℕ) → block + s ≤ b → b < block + s + r.size → marked b ≡ k.memory b
  same_behind b l u =
      let (_, at₂, _, _) = three in
      store8_outside k.memory (block + 4) 1 b (λ e. omega (arith, at₂.room))

  -- The run of `free` if a block is in front.
  free-run_block :
      (index : OrderedArray Memory)
      → q.is_hole ≡ false
      → r.is_hole ≡ false
      → insert_ordered_array marked block heap.index ≡ ok index
      → free (block + 12) k
        ≡ ok (tt, record k { memory = marked; kheap = some (record heap { index = index }) })
  unfolding free give_back add_to_index
  free-run_block index in_front behind inserted =
      let (at, at₂, at₃, inside) = three in
      let (foot, _) = block_foot k.memory heap.end_address block s at₂.foot in
      let header : sub32 (block + 12) 12 ≡ block = omega (arith, wf.word) in
      let footer : sub32 (add32 block s) 8 ≡ block + s - 8 = omega (arith, wf.word, at₂.room) in
      let given : (block + 12 == 0) ≡ false = ground arith in
      let next : add32 (block + s - 8) 8 ≡ block + s = omega (arith, wf.word, at₂.room) in
      let more : (block + s == heap.end_address) ≡ false = ground (arith, at₃.room) in
      let marked_kernel = record k { memory = marked } in
      let left =
        unify_left-block marked_kernel heap.end_address front block (block + s - 8) q
          (agree-PieceAt k.memory marked heap.end_address front q same_front at) refl
          (omega (arith, at₂.room)) wf.word in_front in
      let right =
        unify_right-block marked_kernel heap.end_address block (block + s - 8) (block + s) r
          (omega (arith, at₂.room))
          (agree-PieceAt k.memory marked heap.end_address (block + s) r same_behind at₃)
          (omega (arith, wf.word)) behind in
      simp (
        given,
        header,
        at₂.sized,
        footer,
        at₂.magic,
        foot,
        left,
        next,
        right,
        the_heap-some marked_kernel heap wf.is_heap,
        next,
        more,
        inserted,
      )

  -- The memory with the block in the hole in front of it.
  abbrev pub joined : Memory
  joined = store32 (store32 marked (block + s - 8 + 4) front) (front + 8) (q.size + s)

  -- The run of `free` if a hole is in front.
  free-run_hole :
      q.is_hole ≡ true
      → r.is_hole ≡ false
      → free (block + 12) k ≡ ok (tt, record k { memory = joined })
  unfolding free give_back add_to_index
  free-run_hole in_front behind =
      let (at, at₂, at₃, inside) = three in
      let (foot, _) = block_foot k.memory heap.end_address block s at₂.foot in
      let header : sub32 (block + 12) 12 ≡ block = omega (arith, wf.word) in
      let footer : sub32 (add32 block s) 8 ≡ block + s - 8 = omega (arith, wf.word, at₂.room) in
      let given : (block + 12 == 0) ≡ false = ground arith in
      let next : add32 (block + s - 8) 8 ≡ block + s = omega (arith, wf.word, at₂.room) in
      let more : (block + s == heap.end_address) ≡ false = ground (arith, at₃.room) in
      let marked_kernel = record k { memory = marked } in
      let joined_kernel = record k { memory = joined } in
      let size : get_size marked block ≡ s =
        load32-store8_ne k.memory (block + 4) 1 (block + 8) (omega arith) ∙ at₂.sized in
      let left =
        unify_left-hole marked_kernel heap.end_address front block (block + s - 8) q
          (agree-PieceAt k.memory marked heap.end_address front q same_front at) refl
          (omega (arith, at₂.room)) wf.word s in_front size (omega (arith, wf.word))
          (omega (arith, at₂.room)) in
      let right =
        unify_right-block joined_kernel heap.end_address front (block + s - 8) (block + s) r
          (omega (arith, at₂.room))
          (agree-PieceAt k.memory joined heap.end_address (block + s) r
            (λ b l u.
              store32_outside _ (front + 8) (q.size + s) b (omega (arith, at.room, at₂.room))
              ∙ store32_outside _ (block + s - 8 + 4) front b (omega (arith, at₂.room))
              ∙ same_behind b l u)
            at₃)
          (omega (arith, wf.word)) behind in
      simp (
        given,
        header,
        at₂.sized,
        footer,
        at₂.magic,
        foot,
        left,
        next,
        right,
        the_heap-some joined_kernel heap wf.is_heap,
        more,
      )

  pub marked_front : PieceAt marked heap.end_address front q
  marked_front =
      let (at, _, _, _) = three in
      agree-PieceAt k.memory marked heap.end_address front q same_front at

  marked_foot :
      (get_magic marked (block + s - 8) ≡ heap_magic) × (get_header marked (block + s - 8) ≡ block)
  marked_foot =
      let (_, at₂, _, _) = three in
      let (foot, named) = block_foot k.memory heap.end_address block s at₂.foot in
      (
        load32-store8_ne k.memory (block + 4) 1 (block + s - 8) (omega (arith, at₂.room)) ∙ foot,
        load32-store8_ne k.memory (block + 4) 1 (block + s - 8 + 4) (omega (arith, at₂.room))
            ∙ named,
      )

  pub marked_block : PieceAt marked heap.end_address block (piece s true)
  marked_block =
      let (_, at₂, _, _) = three in
      record {
        magic = load32-store8_ne k.memory (block + 4) 1 block (omega arith) ∙ at₂.magic;
        hole = load8-store8_self k.memory (block + 4) 1 (omega arith);
        sized = load32-store8_ne k.memory (block + 4) 1 (block + 8) (omega arith) ∙ at₂.sized;
        room = at₂.room;
        foot = inr marked_foot;
      }

  joined_hole : q.is_hole ≡ true → PieceAt joined heap.end_address front (piece (q.size + s) true)
  joined_hole in_front =
      let (at, at₂, _, inside) = three in
      let (foot, _) = marked_foot in
      let m₁ = store32 marked (block + s - 8 + 4) front in
      let size = q.size + s in
      let flagged : get_is_hole marked front ≡ 1 = marked_front.hole ∙ ground arith in
      let end : front + size - 8 ≡ block + s - 8 = omega arith in
      record {
        magic =
            load32-store32_ne m₁ (front + 8) size front (omega arith)
            ∙ load32-store32_ne marked (block + s - 8 + 4) front front
                (omega (arith, at.room, at₂.room))
            ∙ marked_front.magic;
        hole =
            load8-store32_ne m₁ (front + 8) size (front + 4) (omega arith)
            ∙ load8-store32_ne marked (block + s - 8 + 4) front (front + 4)
                (omega (arith, at.room, at₂.room))
            ∙ flagged;
        sized = load32-store32_self m₁ (front + 8) size (omega (arith, wf.word, inside));
        room = omega (arith, at.room);
        foot = inr (
          ap (get_magic joined) end
              ∙ load32-store32_ne m₁ (front + 8) size (block + s - 8)
                  (omega (arith, at.room, at₂.room))
              ∙ load32-store32_ne marked (block + s - 8 + 4) front (block + s - 8) (omega arith)
              ∙ foot,
          ap (get_header joined) end
              ∙ load32-store32_ne m₁ (front + 8) size (block + s - 8 + 4)
                  (omega (arith, at.room, at₂.room))
              ∙ load32-store32_self marked (block + s - 8 + 4) front
                  (omega (arith, wf.word, inside)),
        );
      }

  -- Writes from `front` to the end of the block leave the other bytes.
  pub marked_outside : (b : ℕ) → (b < front) ⊎ (block + s ≤ b) → marked b ≡ k.memory b
  marked_outside b o =
      let (_, at₂, _, _) = three in
      store8_outside k.memory (block + 4) 1 b (λ e. omega (arith, at₂.room))

  pub joined_outside : (b : ℕ) → (b < front) ⊎ (block + s ≤ b) → joined b ≡ k.memory b
  joined_outside b o =
      let (at, at₂, _, _) = three in
      store32_outside _ (front + 8) (q.size + s) b (omega (arith, at.room, at₂.room))
      ∙ store32_outside _ (block + s - 8 + 4) front b (omega (arith, at₂.room))
      ∙ marked_outside b o

  pub free_block_lem :
      heap.index.size + 1 < heap.index.max_size
      → q.is_hole ≡ false
      → r.is_hole ≡ false
      → (k' : Kernel) × (heap' : Heap) × (free (block + 12) k ≡ ok (tt, k'))
        × WellFormed k' heap' (before ++ (q ∷ piece s true ∷ r ∷ after))
        × ((b : ℕ) → (b < block) ⊎ (block + s ≤ b) → k'.memory b ≡ k.memory b)
        × (heap'.start_address ≡ heap.start_address)
        × (heap'.end_address ≡ heap.end_address)
  free_block_lem room in_front behind =
      let (index, inserted, new, valid, larger, same_max, same_less) =
        insert_ordered_array_lem marked block wf.valid wf.compares (omega arith) in
      (
        record k { memory = marked; kheap = some (record heap { index = index }) },
        record heap { index = index },
        free-run_block index in_front behind inserted,
        record {
          is_heap = refl;
          tiled =
              Tiles-rewrite k.memory marked heap.end_address heap.start_address front before
                (q ∷ piece s false ∷ []) (q ∷ piece s true ∷ []) (r ∷ after) heap.end_address refl
                (λ b o. marked_outside b (omega arith)) (marked_front, (marked_block, omega arith))
                wf.tiled;
          indexed = λ x. ground (
            arith,
            ap (count x) new,
            count-insert_before x (header_t_less_than marked) block (items heap.index),
            wf.indexed x,
            count-holes_run x heap.start_address front before (q ∷ piece s false ∷ []) (r ∷ after)
                refl,
            count-holes_run x heap.start_address front before (q ∷ piece s true ∷ []) (r ∷ after)
                refl,
          );
          valid = valid;
          room = omega arith;
          compares = same_less;
          word = wf.word;
        },
        (λ b o.
            let (_, at₂, _, _) = three in
            store8_outside k.memory (block + 4) 1 b (λ e. omega (arith, at₂.room))),
        refl,
        refl,
      )

  pub free_hole_lem :
      q.is_hole ≡ true
      → r.is_hole ≡ false
      → (free (block + 12) k ≡ ok (tt, record k { memory = joined }))
        × WellFormed
            (record k { memory = joined })
            heap
            (before ++ (piece (q.size + s) true ∷ r ∷ after))
  free_hole_lem in_front behind = (
    free-run_hole in_front behind,
    record {
      is_heap = wf.is_heap;
      tiled =
          Tiles-rewrite k.memory joined heap.end_address heap.start_address front before
            (q ∷ piece s false ∷ []) (piece (q.size + s) true ∷ []) (r ∷ after) heap.end_address
            refl (λ b o. joined_outside b (omega arith)) (joined_hole in_front, omega arith)
            wf.tiled;
      indexed = λ x. ground (
        arith,
        wf.indexed x,
        count-holes_run x heap.start_address front before (q ∷ piece s false ∷ []) (r ∷ after) refl,
        count-holes_run x heap.start_address front before (piece (q.size + s) true ∷ []) (r ∷ after)
            refl,
      );
      valid = wf.valid;
      room = wf.room;
      compares = wf.compares;
      word = wf.word;
    },
  )
