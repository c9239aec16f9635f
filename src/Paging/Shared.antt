-- ===== src/Paging/Shared.antt =====
-- About `clone_directory` of IcarusOS/paging.c, where the source is the kernel's directory.
use cmsi.Base.{
  ℕ, zero, suc, ◌+◌, ◌*◌, ◌^◌, ◌≤◌, ◌<◌, ◌≡◌, ◌≢◌, ◌⊎◌, inl, inr, refl, sym, ap, ◌∙◌, arith,
}
use cmsi.Base.{true, false, ◌==◌, if◌then◌else◌, Bool-cases}
use mathlib.Core.Path.{subst}
use cmsi.Base.Words.{add32, sub32}
use cmsi.Base.Outcome.{ok}
use cmsi.Memory.{Memory, load32, store32, memset}
use cmsi.Memory.Access.{
  load32_agree, load32-lt, load32-store32_self, load32-store32_ne, store32_outside,
}
use cmsi.Memory.Blocks.{memset_lem, load32-memset_zero}
use cmsi.Kernel.{Kernel}
use cmsi.Paging.{KmallocAp}
use cmsi.Paging.Clone.{clone_entry, clone_entries, clone_directory}

module _ (kmalloc_ap : KmallocAp) (src dir : ℕ)
    (apart : (src + 0x2004 ≤ dir) ⊎ (dir + 0x2004 ≤ src)) where
  -- The memory when entry `i` has been cloned.
  shared : Memory → (i : ℕ) → Memory
  shared m i =
      if load32 m (src + 4 * i) == 0
      then m
      else store32 (store32 m (dir + 4 * i) (load32 m (src + 4 * i))) (dir + 0x1000 + 4 * i)
          (load32 m (src + 0x1000 + 4 * i))

  clone_entry-shared :
      (i : ℕ) (k : Kernel)
      → i < 1024
      → k.kernel_directory ≡ src
      → clone_entry kmalloc_ap i src dir k ≡ ok (tt, record k { memory = shared k.memory i })
  unfolding clone_entry shared
  clone_entry-shared i k h here = elim (Bool-cases (load32 k.memory (src + 4 * i) == 0)) [
    | inl empty ↦ rw empty refl
    | inr table ↦
        let word = load32 k.memory (src + 4 * i) in
        let self : (word == word) ≡ true = ground arith in
        let kernel : (load32 k.memory (k.kernel_directory + 4 * i) == word) ≡ true =
          ap (λ (x : ℕ). load32 k.memory (x + 4 * i) == word) here ∙ self in
        let physical : load32 (store32 k.memory (dir + 4 * i) word) (src + 0x1000 + 4 * i)
            ≡ load32 k.memory (src + 0x1000 + 4 * i) =
          load32-store32_ne k.memory (dir + 4 * i) word (src + 0x1000 + 4 * i) (omega arith) in
        simp (table, kernel, physical)
  ]

  shared_outside :
      (m : Memory) (i b : ℕ)
      → (b < dir + 4 * i) ⊎ (dir + 4 * i + 4 ≤ b)
      → (b < dir + 0x1000 + 4 * i) ⊎ (dir + 0x1000 + 4 * i + 4 ≤ b)
      → shared m i b ≡ m b
  unfolding shared
  shared_outside m i b p q = elim (Bool-cases (load32 m (src + 4 * i) == 0)) [
    | inl empty ↦ rw empty refl
    | inr table ↦
        rw table
          (store32_outside _ (dir + 0x1000 + 4 * i) _ b q ∙ store32_outside m (dir + 4 * i) _ b p)
  ]

  shared-table :
      (m : Memory) (i : ℕ)
      → i < 1024
      → load32 m (dir + 4 * i) ≡ 0
      → load32 (shared m i) (dir + 4 * i) ≡ load32 m (src + 4 * i)
  unfolding shared
  shared-table m i h blank = elim (Bool-cases (load32 m (src + 4 * i) == 0)) [
    | inl empty ↦ rw empty (ground (arith, blank, empty))
    | inr table ↦ rw table (
        load32-store32_ne _ (dir + 0x1000 + 4 * i) _ (dir + 4 * i) (omega arith)
        ∙ load32-store32_self m (dir + 4 * i) _ (load32-lt m (src + 4 * i)))
  ]

  shared-physical :
      (m : Memory) (i : ℕ)
      → load32 m (src + 4 * i) ≢ 0
      → load32 (shared m i) (dir + 0x1000 + 4 * i) ≡ load32 m (src + 0x1000 + 4 * i)
  unfolding shared
  shared-physical m i table =
      let some_table : (load32 m (src + 4 * i) == 0) ≡ false = ground arith in
      rw some_table
        (load32-store32_self _ (dir + 0x1000 + 4 * i) _ (load32-lt m (src + 0x1000 + 4 * i)))

  shared_away :
      (m : Memory) (i a : ℕ)
      → (a + 4 ≤ dir + 4 * i) ⊎ (dir + 4 * i + 4 ≤ a)
      → (a + 4 ≤ dir + 0x1000 + 4 * i) ⊎ (dir + 0x1000 + 4 * i + 4 ≤ a)
      → load32 (shared m i) a ≡ load32 m a
  shared_away m i a p q =
      load32_agree (shared m i) m a (λ b l u. shared_outside m i b (omega arith) (omega arith))

  -- The entries from `i` on, blank in the copy before.
  clone_entries-shared :
      (n i : ℕ) (k : Kernel)
      → i + n ≤ 1024
      → k.kernel_directory ≡ src
      → ((j : ℕ) → i ≤ j → j < 1024 → load32 k.memory (dir + 4 * j) ≡ 0)
      → (m' : Memory) × (clone_entries kmalloc_ap n i src dir k ≡ ok (tt, record k { memory = m' }))
        × ((j : ℕ) → i ≤ j → j < i + n → load32 m' (dir + 4 * j) ≡ load32 k.memory (src + 4 * j))
        × ((j : ℕ)
            → i ≤ j
            → j < i + n
            → load32 k.memory (src + 4 * j) ≢ 0
            → load32 m' (dir + 0x1000 + 4 * j) ≡ load32 k.memory (src + 0x1000 + 4 * j))
        × ((b : ℕ)
            → (b < dir + 4 * i) ⊎ (dir + 4 * (i + n) ≤ b)
            → (b < dir + 0x1000 + 4 * i) ⊎ (dir + 0x1000 + 4 * (i + n) ≤ b)
            → m' b ≡ k.memory b)
  unfolding clone_entries
  clone_entries-shared zero i k h here blank = (
    k.memory,
    refl,
    (λ j l u. absurd (omega arith)),
    (λ j l u table. absurd (omega arith)),
    (λ b p q. refl),
  )
  clone_entries-shared (suc n) i k h here blank =
      let m = shared k.memory i in
      let k₁ = record k { memory = m } in
      let (m', ran, tables, physical, outside) =
        clone_entries-shared n (i + 1) k₁ (omega arith) here (λ j l u.
          shared_away k.memory i (dir + 4 * j) (omega arith) (omega arith)
          ∙ blank j (omega arith) u) in
      (
        m',
        simp (clone_entry-shared i k (omega arith) here, ran),
        (λ j l u. elim (Bool-cases (j == i)) [
          | inl e ↦
              let same : j ≡ i = ground arith in
              subst (λ x. load32 m' (dir + 4 * x) ≡ load32 k.memory (src + 4 * x)) (sym same)
                (load32_agree m' m (dir + 4 * i) (λ b p q. outside b (omega arith) (omega arith))
                  ∙ shared-table k.memory i (omega arith) (blank i (omega arith) (omega arith)))
          | inr e ↦
              let later : i + 1 ≤ j = ground arith in
              tables j later (omega arith)
              ∙ shared_away k.memory i (src + 4 * j) (omega arith) (omega arith)
        ]),
        (λ j l u table. elim (Bool-cases (j == i)) [
          | inl e ↦
              let same : j ≡ i = ground arith in
              let table_i = subst (λ (x : ℕ). load32 k.memory (src + 4 * x) ≢ 0) same table in
              subst (λ x. load32 m' (dir + 0x1000 + 4 * x) ≡ load32 k.memory (src + 0x1000 + 4 * x))
                (sym same)
                (load32_agree m' m (dir + 0x1000 + 4 * i)
                    (λ b p q. outside b (omega arith) (omega arith))
                  ∙ shared-physical k.memory i table_i)
          | inr e ↦
              let later : i + 1 ≤ j = ground arith in
              let away = shared_away k.memory i (src + 4 * j) (omega arith) (omega arith) in
              physical j later (omega arith) (λ z. table (sym away ∙ z))
              ∙ shared_away k.memory i (src + 0x1000 + 4 * j) (omega arith) (omega arith)
        ]),
        (λ b p q.
            outside b (omega arith) (omega arith)
            ∙ shared_outside k.memory i b (omega arith) (omega arith)),
      )

  -- Of the kernel's own directory, where `kmalloc_ap` gives a place apart from it, `clone_directory`
  -- makes one with the same tables, and the same physical address for each table there is; the copy
  -- names the physical address of its own list of them, and no byte outside it changes but by
  -- `kmalloc_ap`.
  pub clone_directory_lem :
      (k k₁ : Kernel) (phys : ℕ)
      → kmalloc_ap 0x2004 k ≡ ok ((dir, phys), k₁)
      → k₁.kernel_directory ≡ src
      → dir + 0x2004 < 2 ^ 32
      → (k' : Kernel) × (clone_directory kmalloc_ap src k ≡ ok (dir, k'))
        × ((j : ℕ) → j < 1024 → load32 k'.memory (dir + 4 * j) ≡ load32 k₁.memory (src + 4 * j))
        × ((j : ℕ)
            → j < 1024
            → load32 k₁.memory (src + 4 * j) ≢ 0
            → load32 k'.memory (dir + 0x1000 + 4 * j) ≡ load32 k₁.memory (src + 0x1000 + 4 * j))
        × (load32 k'.memory (dir + 0x2000) ≡ add32 phys 0x1000)
        × ((b : ℕ) → (b < dir) ⊎ (dir + 0x2004 ≤ b) → k'.memory b ≡ k₁.memory b)
  unfolding clone_directory
  clone_directory_lem k k₁ phys given here word =
      let blank = memset k₁.memory dir 0 0x2004 in
      let m = store32 blank (dir + 0x2000) (add32 phys 0x1000) in
      let offset : sub32 (add32 dir 0x1000) dir ≡ 0x1000 = omega arith in
      let cleared : (b : ℕ) → (b < dir) ⊎ (dir + 0x2004 ≤ b) → m b ≡ k₁.memory b = λ b o.
        store32_outside blank (dir + 0x2000) (add32 phys 0x1000) b (omega arith)
        ∙ memset_lem k₁.memory dir 0 0x2004 b
        ∙ ground arith in
      let source : (a : ℕ) → (src ≤ a) × (a + 4 ≤ src + 0x2004) → load32 m a ≡ load32 k₁.memory a =
        λ a o. load32_agree m k₁.memory a (λ b l u. cleared b (omega arith)) in
      let (m', ran, tables, physical, outside) =
        clone_entries-shared 1024 0 (record k₁ { memory = m }) (omega arith) here
          (λ j l u.
            load32-store32_ne blank (dir + 0x2000) (add32 phys 0x1000) (dir + 4 * j) (omega arith)
            ∙ load32-memset_zero k₁.memory dir 0x2004 (dir + 4 * j) (omega arith) (omega arith)) in
      (
        record k₁ { memory = m' },
        simp (given, offset, ran),
        (λ j h. tables j (omega arith) h ∙ source (src + 4 * j) (omega arith)),
        (λ j h table.
            physical j (omega arith) h (λ z. table (sym (source (src + 4 * j) (omega arith)) ∙ z))
            ∙ source (src + 0x1000 + 4 * j) (omega arith)),
        load32_agree m' m (dir + 0x2000) (λ b l u. outside b (omega arith) (omega arith))
            ∙ load32-store32_self blank (dir + 0x2000) (add32 phys 0x1000) (omega arith),
        (λ b o. outside b (omega arith) (omega arith) ∙ cleared b o),
      )
