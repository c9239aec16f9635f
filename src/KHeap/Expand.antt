-- ===== src/KHeap/Expand.antt =====
-- About `expand` of IcarusOS/kheap.c, where the new pages have page tables.
use cmsi.Base.{
  ℕ, zero, suc, ◌+◌, ◌-◌, ◌*◌, ◌/◌, ◌^◌, ◌≤◌, ◌<◌, ◌≡◌, ◌≢◌, ◌⊎◌, inl, inr, refl, sym, ◌∙◌, arith,
}
use cmsi.Base.{true, some, ltb, leb, ◌==◌, if◌then◌else◌, Bool-cases}
use mathlib.Core.Path.{subst}
use cmsi.Base.Words.{add32, sub32}
use cmsi.Base.Outcome.{ok}
use cmsi.Memory.{Memory, load32}
use cmsi.Memory.Access.{load32_agree}
use cmsi.Kernel.{Kernel, Heap, the_heap-some}
use cmsi.Paging.{KmallocAp, get_page, page_pointer}
use cmsi.Paging.GetPage.{table_index, get_page-found}
use cmsi.Paging.Outside.{alloc_frame_outside}
use cmsi.KHeap.Resize.{expand, expand_loop, round_up, heap_length}
use cmsi.KHeap.Placement.{round_up_lem}

-- `n` bytes from `p` on lie outside the tables of the directory at `dir`, and outside the addresses from
-- `lo` up to `hi`.
abbrev pub Outside : (dir lo hi p n : ℕ) → Type 0
Outside dir lo hi p n = ((p + n ≤ dir) ⊎ (dir + 0x1000 ≤ p)) × ((p + n ≤ lo) ⊎ (hi ≤ p))

-- The pages from `lo` up to `hi` have page tables, and these and the bitset of frames lie apart from the
-- directory and from the addresses from `start` up to `hi`.
pub record HasTables (m : Memory) (dir frames nframes start lo hi : ℕ) : Type 0 where
  pub some_frames : 32 ≤ nframes
  pub most_frames : nframes ≤ 2 ^ 20
  pub bitset : Outside dir start hi frames (4 * (nframes / 32))
  pub table : (a : ℕ) → lo ≤ a → a < hi → load32 m (dir + 4 * table_index a) ≢ 0
  pub away :
      (a : ℕ)
      → lo ≤ a
      → a < hi
      → Outside dir start hi (page_pointer (load32 m (dir + 4 * table_index a)) (a / 0x1000)) 4

-- The bytes of the directory and of the addresses from `start` up to `hi` are the same.
abbrev pub Same : (dir start hi : ℕ) → (m m' : Memory) → Type 0
Same dir start hi m m' =
    ((b : ℕ) → dir ≤ b → b < dir + 0x1000 → m' b ≡ m b)
    × ((b : ℕ) → start ≤ b → b < hi → m' b ≡ m b)

Same-HasTables :
    (m m' : Memory) (dir frames nframes start lo lo' hi : ℕ)
    → hi ≤ 2 ^ 32
    → lo ≤ lo'
    → Same dir start hi m m'
    → HasTables m dir frames nframes start lo hi
    → HasTables m' dir frames nframes start lo' hi
Same-HasTables m m' dir frames nframes start lo lo' hi word later (same, _) t = record {
  some_frames = t.some_frames;
  most_frames = t.most_frames;
  bitset = t.bitset;
  table = λ a l u. subst (λ (x : ℕ). x ≢ 0) (entry a u) (t.table a (omega arith) u);
  away = λ a l u.
      subst (λ (x : ℕ). Outside dir start hi (page_pointer x (a / 0x1000)) 4) (entry a u)
        (t.away a (omega arith) u);
}
  where
    entry :
        (a : ℕ) → a < hi → load32 m (dir + 4 * table_index a) ≡ load32 m' (dir + 4 * table_index a)
    entry a u =
        load32_agree m m' (dir + 4 * table_index a)
          (λ b l v. sym (same b (omega arith) (omega arith)))

expand_loop_lem :
    (kmalloc_ap : KmallocAp) (fuel n new_size i : ℕ) (k : Kernel) (heap : Heap)
    → n < fuel
    → new_size ≤ i + 0x1000 * n
    → heap.start_address + new_size < 2 ^ 32
    → new_size + 0x1000 < 2 ^ 32
    → k.kheap ≡ some heap
    → HasTables k.memory k.kernel_directory k.frames k.nframes heap.start_address
        (heap.start_address + i)
        (heap.start_address + new_size)
    → (m' : Memory) × (expand_loop kmalloc_ap fuel new_size i k ≡ ok (tt, record k { memory = m' }))
      × Same k.kernel_directory heap.start_address (heap.start_address + new_size) k.memory m'
unfolding expand_loop
expand_loop_lem kmalloc_ap zero n new_size i k heap enough far word step is_heap t =
    absurd (omega arith)
expand_loop_lem kmalloc_ap (suc f) n new_size i k heap enough far word step is_heap t =
    elim (Bool-cases (ltb i new_size)) [
      | inr done ↦ (k.memory, rw done refl, ((λ b l u. refl), (λ b l u. refl)))
      | inl more ↦
          let a = heap.start_address + i in
          let below : i < new_size = ground arith in
          let page =
            page_pointer (load32 k.memory (k.kernel_directory + 4 * table_index a)) (a / 0x1000) in
          let at : add32 heap.start_address i ≡ a = omega arith in
          let got : get_page kmalloc_ap (add32 heap.start_address i) 1 k.kernel_directory k
              ≡ ok (page, k) =
            subst (λ x. get_page kmalloc_ap x 1 k.kernel_directory k ≡ ok (page, k)) (sym at)
              (get_page-found kmalloc_ap a 1 k.kernel_directory k
                (load32 k.memory (k.kernel_directory + 4 * table_index a)) refl
                (t.table a (omega arith) (omega arith))) in
          let (m₁, mapped, outside) =
            alloc_frame_outside k page (if heap.supervisor == 0 then 0 else 1)
              (if heap.readonly == 0 then 1 else 0) t.some_frames t.most_frames in
          let away = t.away a (omega arith) (omega arith) in
          let same₁ : Same k.kernel_directory heap.start_address (heap.start_address + new_size)
              k.memory m₁ =
            (
              (λ b l u. outside b (omega (arith, away, l, u)) (omega (arith, t.bitset, l, u))),
              (λ b l u. outside b (omega (arith, away, l, u)) (omega (arith, t.bitset, l, u))),
            ) in
          let next : add32 i 0x1000 ≡ i + 0x1000 = omega arith in
          let k₁ = record k { memory = m₁ } in
          let (m', ran, same) =
            expand_loop_lem kmalloc_ap f (n - 1) new_size (i + 0x1000) k₁ heap (omega arith)
              (omega arith) word step is_heap
              (Same-HasTables k.memory m₁ k.kernel_directory k.frames k.nframes heap.start_address a
                (heap.start_address + (i + 0x1000)) (heap.start_address + new_size) (omega arith)
                (omega arith) same₁ t) in
          (
            m',
            rw more (
                simp (
                  the_heap-some k heap is_heap,
                  got,
                  mapped,
                  subst
                      (λ x.
                        expand_loop kmalloc_ap f new_size x k₁ ≡ ok (tt, record k { memory = m' }))
                      (sym next) ran,
                )),
            ((λ b l u. same.0 b l u ∙ same₁.0 b l u), (λ b l u. same.1 b l u ∙ same₁.1 b l u)),
          )
    ]

expand-run :
    (kmalloc_ap : KmallocAp) (k : Kernel) (heap : Heap) (length new_size r : ℕ) (m' : Memory)
    → k.kheap ≡ some heap
    → heap_length heap ≡ length
    → length < new_size
    → round_up new_size ≡ r
    → heap.start_address + r ≤ heap.max_address
    → heap.start_address + r < 2 ^ 32
    → expand_loop kmalloc_ap (r / 0x1000 + 1) r length k ≡ ok (tt, record k { memory = m' })
    → expand kmalloc_ap new_size k
      ≡ ok (
        tt,
        record k {
          memory = m';
          kheap = some (record heap { end_address = heap.start_address + r });
        },
      )
unfolding expand
expand-run kmalloc_ap k heap length new_size r m' is_heap old grows rounded fits word ran =
    let check₁ : ltb length new_size ≡ true = ground arith in
    let new : add32 heap.start_address r ≡ heap.start_address + r = omega arith in
    let check₂ : leb (heap.start_address + r) heap.max_address ≡ true = ground arith in
    simp (
      the_heap-some k heap is_heap,
      old,
      check₁,
      rounded,
      new,
      check₂,
      ran,
      the_heap-some (record k { memory = m' }) heap is_heap,
    )

-- What `expand` does where the new pages have page tables and the heap may grow to the rounded size.
pub expand_lem :
    (kmalloc_ap : KmallocAp) (k : Kernel) (heap : Heap) (length new_size : ℕ)
    → k.kheap ≡ some heap
    → heap.start_address + length ≡ heap.end_address
    → length < new_size
    → 0x1000 ≤ new_size
    → heap.start_address + round_up new_size ≤ heap.max_address
    → heap.max_address + 0x1000 < 2 ^ 32
    → new_size + 0x1000 < 2 ^ 32
    → HasTables k.memory k.kernel_directory k.frames k.nframes heap.start_address heap.end_address
        (heap.start_address + round_up new_size)
    → (m' : Memory) × (expand kmalloc_ap new_size k
        ≡ ok (
          tt,
          record k {
            memory = m';
            kheap = some (record heap { end_address = heap.start_address + round_up new_size });
          },
        ))
      × Same k.kernel_directory heap.start_address
          (heap.start_address + round_up new_size)
          k.memory
          m'
expand_lem kmalloc_ap k heap length new_size is_heap end grows large fits top word t =
    let R = round_up new_size in
    let (paged, above, near) = (round_up_lem new_size word).0 large in
    let old : sub32 heap.end_address heap.start_address ≡ length = omega arith in
    let (m', ran, same) =
      expand_loop_lem kmalloc_ap (R / 0x1000 + 1) (R / 0x1000) R length k heap (omega arith)
        (omega arith) (omega arith) (omega arith) is_heap
        (subst
          (λ x.
            HasTables k.memory k.kernel_directory k.frames k.nframes heap.start_address x
              (heap.start_address + R))
          (sym end) t) in
    (
      m',
      expand-run kmalloc_ap k heap length new_size R m' is_heap old grows refl fits (omega arith)
          ran,
      same,
    )
