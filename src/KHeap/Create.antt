-- ===== src/KHeap/Create.antt =====
-- About `create_heap` of IcarusOS/kheap.c.
use cmsi.Base.{ℕ, ◌+◌, ◌-◌, ◌*◌, ◌%◌, ◌^◌, ◌≤◌, ◌<◌, ◌≡◌, inl, refl, ap, ◌∙◌, arith}
use cmsi.Base.{true, false, some, none, [], ◌∷◌, ◌==◌, length-replicate}
use mathlib.Core.Path.{subst}
use cmsi.KHeap.Index.{count-insert_before}
use cmsi.KHeap.Pieces.{count}
use cmsi.Base.Words.{add32, sub32, page_base}
use cmsi.Base.Outcome.{ok}
use cmsi.Memory.{Memory, store32, store8}
use cmsi.Memory.Access.{load32-store32_self, load32-store32_ne, load32-store8_ne, load8-store8_self}
use cmsi.OrderedArray.{OrderedArray, LessThan, place_ordered_array, insert_ordered_array}
use cmsi.OrderedArray.Spec.{items, IsValid}
use cmsi.OrderedArray.Insert.{insert_ordered_array_lem}
use cmsi.Kernel.{Kernel, Heap}
use cmsi.KHeap.{create_heap, kmalloc, kmalloc_with, placement_of}
use cmsi.KHeap.Search.{header_t_less_than}
use cmsi.KHeap.Layout.{heap_magic}
use cmsi.KHeap.Pieces.{piece, PieceAt}
use cmsi.KHeap.WellFormed.{WellFormed}

place_ordered_array-IsValid :
    (addr n : ℕ) (less : LessThan Memory)
    → n < 2 ^ 32
    → IsValid (place_ordered_array addr n (some less))
      × (items (place_ordered_array addr n (some less)) ≡ [])
      × ((place_ordered_array addr n (some less)).size ≡ 0)
      × ((place_ordered_array addr n (some less)).max_size ≡ n)
      × ((place_ordered_array addr n (some less)).less_than ≡ some less)
unfolding place_ordered_array
place_ordered_array-IsValid addr n less h = (
  record { storage = length-replicate n 0; fits = omega arith; word = h },
  refl,
  refl,
  refl,
  refl,
)

-- The memory with the header of the first hole.
unfoldable pub first_hole : Memory → (h s : ℕ) → Memory
first_hole m h s = store8 (store32 (store32 m (h + 8) s) h heap_magic) (h + 4) 1

pub first_hole-PieceAt :
    (m : Memory) (h s : ℕ)
    → 20 ≤ s
    → s < 2 ^ 32
    → PieceAt (first_hole m h s) (h + s) h (piece s true)
unfolding first_hole
first_hole-PieceAt m h s room word = record {
  magic =
      load32-store8_ne _ (h + 4) 1 h (omega arith)
      ∙ load32-store32_self _ h heap_magic (omega arith);
  hole = load8-store8_self _ (h + 4) 1 (omega arith);
  sized =
      load32-store8_ne _ (h + 4) 1 (h + 8) (omega arith)
      ∙ load32-store32_ne _ h heap_magic (h + 8) (omega arith)
      ∙ load32-store32_self m (h + 8) s word;
  room = room;
  foot = inl (refl, refl);
}

create_heap-run :
    (k : Kernel) (fuel start end_addr max_addr supervisor readonly : ℕ)
    (index : OrderedArray Memory)
    → k.kheap ≡ none
    → start % 0x1000 ≡ 0
    → end_addr % 0x1000 ≡ 0
    → start + 0x8_1000 ≤ end_addr
    → end_addr < 2 ^ 32
    → insert_ordered_array
        (first_hole k.memory (start + 0x8_1000) (end_addr - (start + 0x8_1000)))
        (start + 0x8_1000)
        (place_ordered_array start 0x2_0000 (some header_t_less_than))
      ≡ ok index
    → create_heap fuel start end_addr max_addr supervisor readonly k
      ≡ ok (
        record {
          index = index;
          start_address = start + 0x8_1000;
          end_address = end_addr;
          max_address = max_addr;
          supervisor = supervisor;
          readonly = readonly;
        },
        record k {
          memory = first_hole k.memory (start + 0x8_1000) (end_addr - (start + 0x8_1000));
          placement_address = add32 (placement_of 0 k.placement_address) 36;
        },
      )
unfolding create_heap kmalloc kmalloc_with first_hole
create_heap-run k fuel start end_addr max_addr supervisor readonly index early a b fits word
      inserted =
    let aligned : (start % 0x1000 == 0) ≡ true = ground arith in
    let aligned_end : (end_addr % 0x1000 == 0) ≡ true = ground arith in
    let behind : add32 start (4 * 0x2_0000) ≡ start + 0x8_0000 = omega arith in
    let above : (page_base (start + 0x8_0000) == 0) ≡ false = ground arith in
    let moved : add32 (page_base (start + 0x8_0000)) 0x1000 ≡ start + 0x8_1000 = omega arith in
    let size : sub32 end_addr (start + 0x8_1000) ≡ end_addr - (start + 0x8_1000) = omega arith in
    simp (early, aligned, aligned_end, behind, above, moved, size, inserted)

-- Without a heap, and with bounds on pages below 2^32 that leave room for the index, a page more and
-- some bytes, `create_heap` returns a well-formed heap that is one hole, from a page behind the
-- index up to the end.
pub create_heap_lem :
    (k : Kernel) (fuel start end_addr max_addr supervisor readonly : ℕ)
    → k.kheap ≡ none
    → start % 0x1000 ≡ 0
    → end_addr % 0x1000 ≡ 0
    → start + 0x8_1000 < end_addr
    → end_addr < 2 ^ 32
    → (heap : Heap) × (k' : Kernel) × (create_heap fuel start end_addr max_addr supervisor readonly
          k
        ≡ ok (heap, k'))
      × WellFormed
          (record k' { kheap = some heap })
          heap
          (piece (end_addr - (start + 0x8_1000)) true ∷ [])
      × (heap.start_address ≡ start + 0x8_1000)
      × (heap.end_address ≡ end_addr)
      × (heap.max_address ≡ max_addr)
create_heap_lem k fuel start end_addr max_addr supervisor readonly early a b fits word =
    let h = start + 0x8_1000 in
    let s = end_addr - h in
    let (valid, none_yet, empty, capacity, less) =
      place_ordered_array-IsValid start 0x2_0000 header_t_less_than (omega arith) in
    let m = first_hole k.memory h s in
    let (index, inserted, new, valid', larger, same_max, same_less) =
      insert_ordered_array_lem m h valid less (omega (arith, empty, capacity)) in
    let end : h + s ≡ end_addr = omega arith in
    (
      _,
      _,
      create_heap-run k fuel start end_addr max_addr supervisor readonly index early a b
          (omega arith) word inserted,
      record {
        is_heap = refl;
        tiled = (
          subst (λ e. PieceAt m e h (piece s true)) end
              (first_hole-PieceAt k.memory h s (omega arith) (omega arith)),
          end,
        );
        indexed = λ x. ground (
          arith,
          ap (count x) new,
          count-insert_before x (header_t_less_than m) h
              (items (place_ordered_array start 0x2_0000 (some header_t_less_than))),
          ap (count x) none_yet,
        );
        valid = valid';
        room = omega (arith, larger, empty, capacity, same_max);
        compares = same_less;
        word = word;
      },
      refl,
      refl,
      refl,
    )
