-- ===== src/Task/Pages.antt =====
-- About the first loop of `move_stack` in IcarusOS/task.c, where the new stack's pages have page tables.
use cmsi.Base.{ℕ, zero, suc, ◌+◌, ◌*◌, ◌/◌, ◌^◌, ◌≤◌, ◌<◌, ◌≡◌, ◌≢◌, ◌⊎◌, refl, sym, ◌∙◌, arith}
use cmsi.Base.{true, false, leb}
use mathlib.Core.Path.{subst}
use cmsi.Base.Words.{sub32}
use cmsi.Base.Outcome.{ok}
use cmsi.Memory.{Memory, load32}
use cmsi.Memory.Access.{load32_agree}
use cmsi.Kernel.{Kernel}
use cmsi.Paging.{KmallocAp, get_page, page_pointer}
use cmsi.Paging.GetPage.{table_index, get_page-found}
use cmsi.Paging.Outside.{alloc_frame_outside}
use cmsi.Task.{stack_pages}

-- `n` bytes from `p` on lie outside the tables of the directory, and outside the addresses from `lo` up
-- to `hi`.
abbrev pub Clear : (dir lo hi p n : ℕ) → Type 0
Clear dir lo hi p n = ((p + n ≤ dir) ⊎ (dir + 0x1000 ≤ p)) × ((p + n ≤ lo) ⊎ (hi ≤ p))

-- The pages from `bottom` up to `top` have page tables, which lie apart from the directory and from the
-- addresses from `lo` up to `hi`, as the bitset of frames does.
pub record StackTables (m : Memory) (dir frames nframes lo hi bottom top : ℕ) : Type 0 where
  pub some_frames : 32 ≤ nframes
  pub most_frames : nframes ≤ 2 ^ 20
  pub bitset : Clear dir lo hi frames (4 * (nframes / 32))
  pub table : (a : ℕ) → bottom ≤ a → a ≤ top → load32 m (dir + 4 * table_index a) ≢ 0
  pub away :
      (a : ℕ)
      → bottom ≤ a
      → a ≤ top
      → Clear dir lo hi (page_pointer (load32 m (dir + 4 * table_index a)) (a / 0x1000)) 4

-- The bytes of the directory and of the addresses from `lo` up to `hi` are the same.
abbrev pub SameStack : (dir lo hi : ℕ) → (m m' : Memory) → Type 0
SameStack dir lo hi m m' =
    ((b : ℕ) → dir ≤ b → b < dir + 0x1000 → m' b ≡ m b) × ((b : ℕ) → lo ≤ b → b < hi → m' b ≡ m b)

SameStack-StackTables :
    (m m' : Memory) (dir frames nframes lo hi bottom top top' : ℕ)
    → top < 2 ^ 32
    → top' ≤ top
    → SameStack dir lo hi m m'
    → StackTables m dir frames nframes lo hi bottom top
    → StackTables m' dir frames nframes lo hi bottom top'
SameStack-StackTables m m' dir frames nframes lo hi bottom top top' word lower (same, _) t =
    record {
      some_frames = t.some_frames;
      most_frames = t.most_frames;
      bitset = t.bitset;
      table = λ a l u. subst (λ (x : ℕ). x ≢ 0) (entry a (omega arith)) (t.table a l (omega arith));
      away = λ a l u.
          subst (λ (x : ℕ). Clear dir lo hi (page_pointer x (a / 0x1000)) 4) (entry a (omega arith))
            (t.away a l (omega arith));
    }
  where
    entry :
        (a : ℕ) → a ≤ top → load32 m (dir + 4 * table_index a) ≡ load32 m' (dir + 4 * table_index a)
    entry a u =
        load32_agree m m' (dir + 4 * table_index a)
          (λ b l v. sym (same b (omega arith) (omega arith)))

stack_pages-end :
    (kmalloc_ap : KmallocAp) (fuel bottom i : ℕ) (k : Kernel)
    → i < bottom
    → stack_pages kmalloc_ap (suc fuel) bottom i k ≡ ok (tt, k)
unfolding stack_pages
stack_pages-end kmalloc_ap fuel bottom i k below =
    let done : leb bottom i ≡ false = ground arith in rw done refl

-- The byte at `b` is neither in the bitset of frames nor in the page of an address from `bottom` up to
-- `top`.
abbrev pub Beside : Memory → (dir frames nframes bottom top b : ℕ) → Type 0
Beside m dir frames nframes bottom top b =
    ((b < frames) ⊎ (frames + 4 * (nframes / 32) ≤ b))
    × ((a : ℕ)
        → bottom ≤ a
        → a ≤ top
        → (b < page_pointer (load32 m (dir + 4 * table_index a)) (a / 0x1000))
          ⊎ (page_pointer (load32 m (dir + 4 * table_index a)) (a / 0x1000) + 4 ≤ b))

SameStack-Beside :
    (m m' : Memory) (dir frames nframes lo hi bottom top top' b : ℕ)
    → top < 2 ^ 32
    → top' ≤ top
    → SameStack dir lo hi m m'
    → Beside m dir frames nframes bottom top b
    → Beside m' dir frames nframes bottom top' b
SameStack-Beside m m' dir frames nframes lo hi bottom top top' b word lower (same, _)
      (bits, pages) =
    (
      bits,
      λ a l u.
          subst
            (λ (x : ℕ). (b < page_pointer x (a / 0x1000)) ⊎ (page_pointer x (a / 0x1000) + 4 ≤ b))
            (load32_agree m m' (dir + 4 * table_index a)
              (λ c p q. sym (same c (omega arith) (omega arith))))
            (pages a l (omega arith)),
    )

-- A round of the loop.
stack_pages-step :
    (kmalloc_ap : KmallocAp) (fuel bottom a lo hi top : ℕ) (k : Kernel)
    → bottom ≤ a
    → a ≤ top
    → top < 2 ^ 32
    → StackTables k.memory k.current_directory k.frames k.nframes lo hi bottom top
    → (m₁ : Memory) × (stack_pages kmalloc_ap (suc fuel) bottom a k
        ≡ stack_pages kmalloc_ap fuel bottom (sub32 a 0x1000) (record k { memory = m₁ }))
      × SameStack k.current_directory lo hi k.memory m₁
      × ((b : ℕ)
          → Beside k.memory k.current_directory k.frames k.nframes bottom top b
          → m₁ b ≡ k.memory b)
unfolding stack_pages
stack_pages-step kmalloc_ap fuel bottom a lo hi top k above below word t =
    let more : leb bottom a ≡ true = ground arith in
    let page =
      page_pointer (load32 k.memory (k.current_directory + 4 * table_index a)) (a / 0x1000) in
    let got : get_page kmalloc_ap a 1 k.current_directory k ≡ ok (page, k) =
      get_page-found kmalloc_ap a 1 k.current_directory k
        (load32 k.memory (k.current_directory + 4 * table_index a)) refl (t.table a above below) in
    let (m₁, mapped, outside) = alloc_frame_outside k page 0 1 t.some_frames t.most_frames in
    let away = t.away a above below in
    (
      m₁,
      rw more (simp (got, mapped)),
      (
        (λ b l u. outside b (omega (arith, away, l, u)) (omega (arith, t.bitset, l, u))),
        (λ b l u. outside b (omega (arith, away, l, u)) (omega (arith, t.bitset, l, u))),
      ),
      (λ b (bits, pages). outside b (pages a above below) bits),
    )

-- With more fuel than pages, the loop returns and leaves the directory and the old stack alone.
pub stack_pages_lem :
    (kmalloc_ap : KmallocAp) (fuel n bottom lo hi : ℕ) (k : Kernel)
    → n + 1 < fuel
    → 0x1000 ≤ bottom
    → bottom + 0x1000 * n < 2 ^ 32
    → StackTables k.memory k.current_directory k.frames k.nframes lo hi bottom (bottom + 0x1000 * n)
    → (m' : Memory) × (stack_pages kmalloc_ap fuel bottom (bottom + 0x1000 * n) k
        ≡ ok (tt, record k { memory = m' }))
      × SameStack k.current_directory lo hi k.memory m'
      × ((b : ℕ)
          → Beside k.memory k.current_directory k.frames k.nframes bottom (bottom + 0x1000 * n) b
          → m' b ≡ k.memory b)
stack_pages_lem kmalloc_ap zero n bottom lo hi k enough low word t = absurd (omega arith)
stack_pages_lem kmalloc_ap (suc zero) n bottom lo hi k enough low word t = absurd (omega arith)
stack_pages_lem kmalloc_ap (suc (suc f)) zero bottom lo hi k enough low word t =
    let a = bottom + 0x1000 * zero in
    let (m₁, step, same, beside) =
      stack_pages-step kmalloc_ap (suc f) bottom a lo hi a k (omega arith) (omega arith) word t in
    (
      m₁,
      step
          ∙ stack_pages-end kmalloc_ap f bottom (sub32 a 0x1000) (record k { memory = m₁ })
              (omega arith),
      same,
      beside,
    )
stack_pages_lem kmalloc_ap (suc (suc f)) (suc n) bottom lo hi k enough low word t =
    let a = bottom + 0x1000 * suc n in
    let (m₁, step, same₁, beside₁) =
      stack_pages-step kmalloc_ap (suc f) bottom a lo hi a k (omega arith) (omega arith) word t in
    let next : sub32 a 0x1000 ≡ bottom + 0x1000 * n = omega arith in
    let (m', ran, same, beside) =
      stack_pages_lem kmalloc_ap (suc f) n bottom lo hi (record k { memory = m₁ }) (omega arith) low
        (omega arith)
        (SameStack-StackTables k.memory m₁ k.current_directory k.frames k.nframes lo hi bottom a
          (bottom + 0x1000 * n) word (omega arith) same₁ t) in
    (
      m',
      step
          ∙ subst
              (λ x.
                stack_pages kmalloc_ap (suc f) bottom x (record k { memory = m₁ })
                ≡ ok (tt, record k { memory = m' }))
              (sym next) ran,
      ((λ b l u. same.0 b l u ∙ same₁.0 b l u), (λ b l u. same.1 b l u ∙ same₁.1 b l u)),
      (λ b o.
          beside b (
            SameStack-Beside k.memory m₁ k.current_directory k.frames k.nframes lo hi bottom a
              (bottom + 0x1000 * n) b word (omega arith) same₁ o)
          ∙ beside₁ b o),
    )
