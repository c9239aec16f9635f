-- ===== src/Startup/Tables.antt =====
-- The page tables of the kernel heap, from the first loop of `initialize_paging` in IcarusOS/paging.c.
use cmsi.Base.{
  ℕ, zero, suc, ◌+◌, ◌*◌, ◌/◌, ◌%◌, ◌^◌, ◌≤◌, ◌<◌, ◌≡◌, ◌≢◌, ◌⊎◌, refl, sym, arith, ◌∙◌, ap,
}
use cmsi.Base.Words.{add32}
use cmsi.Base.Outcome.{ok}
use mathlib.Core.Path.{subst}
use cmsi.Memory.{load32}
use cmsi.Kernel.{Kernel}
use cmsi.Paging.{KmallocAp, get_page, page_pointer}
use cmsi.Paging.GetPage.{table_index, get_page-found, get_page-made}
use cmsi.Startup.{map_tables}

-- Where the table of the pages is there, the loop changes nothing.
map_tables-found :
    (kmalloc_ap : KmallocAp) (n j t : ℕ) (k : Kernel) (table : ℕ)
    → t < 1024
    → n + j ≤ 1024
    → load32 k.memory (k.kernel_directory + 4 * t) ≡ table
    → table ≢ 0
    → map_tables kmalloc_ap n ((0x40_0000 * t + 0x1000 * j) % 2 ^ 32) k ≡ ok (tt, k)
unfolding map_tables
map_tables-found kmalloc_ap zero j t k table h fits e some_table = refl
map_tables-found kmalloc_ap (suc n) j t k table h fits e some_table =
    let i = (0x40_0000 * t + 0x1000 * j) % 2 ^ 32 in
    let index : table_index i ≡ t = omega arith in
    let there : load32 k.memory (k.kernel_directory + 4 * table_index i) ≡ table =
      ap (λ (x : ℕ). load32 k.memory (k.kernel_directory + 4 * x)) index ∙ e in
    let next : add32 i 0x1000 ≡ (0x40_0000 * t + 0x1000 * (j + 1)) % 2 ^ 32 = omega arith in
    let rest = map_tables-found kmalloc_ap n (j + 1) t k table h (omega arith) e some_table in
    simp (
      get_page-found kmalloc_ap i 1 k.kernel_directory k table there some_table,
      subst (λ p. map_tables kmalloc_ap n p k ≡ ok (tt, k)) (sym next) rest,
    )

-- From the start of an area of 4 MB that has no table, where `kmalloc_ap` gives one apart from the
-- directory and keeps the kernel directory where it is, the first loop of `initialize_paging` over 1
-- to 1024 pages returns, with one table for them all: `get_page` then finds every page of the area
-- in it.
pub map_tables_lem :
    (kmalloc_ap : KmallocAp) (n t : ℕ) (k k₁ : Kernel) (table phys : ℕ)
    → t < 1024
    → n < 1024
    → load32 k.memory (k.kernel_directory + 4 * t) ≡ 0
    → kmalloc_ap 4096 k ≡ ok ((table, phys), k₁)
    → k₁.kernel_directory ≡ k.kernel_directory
    → table ≢ 0
    → table < 2 ^ 32
    → (table + 0x1000 ≤ k.kernel_directory) ⊎ (k.kernel_directory + 0x2000 ≤ table)
    → (k' : Kernel) × (map_tables kmalloc_ap (suc n) (0x40_0000 * t) k ≡ ok (tt, k'))
      × ((j make : ℕ)
          → j < 1024
          → get_page kmalloc_ap (0x40_0000 * t + 0x1000 * j) make k.kernel_directory k'
            ≡ ok (table + 4 * j, k'))
unfolding map_tables
map_tables_lem kmalloc_ap n t k k₁ table phys h fits empty given same some_table word apart =
    let i = 0x40_0000 * t in
    let index : table_index i ≡ t = omega arith in
    let empty₁ : load32 k.memory (k.kernel_directory + 4 * table_index i) ≡ 0 =
      ap (λ (x : ℕ). load32 k.memory (k.kernel_directory + 4 * x)) index ∙ empty in
    let (k', made, directory, entry, _, again, _) =
      get_page-made kmalloc_ap i k.kernel_directory k k₁ table phys (omega arith) empty₁ given
        some_table word apart in
    let next : add32 i 0x1000 ≡ (0x40_0000 * t + 0x1000 * 1) % 2 ^ 32 = omega arith in
    let there : load32 k'.memory (k'.kernel_directory + 4 * t) ≡ table =
      ap (λ (x : ℕ). load32 k'.memory (x + 4 * t)) (directory ∙ same)
      ∙ ap (λ (x : ℕ). load32 k'.memory (k.kernel_directory + 4 * x)) (sym index)
      ∙ entry in
    (
      k',
      simp (
        made,
        subst (λ p. map_tables kmalloc_ap n p k' ≡ ok (tt, k')) (sym next)
            (map_tables-found kmalloc_ap n 1 t k' table h (omega arith) there some_table),
      ),
      (λ j make l.
          let page : page_pointer table ((i + 0x1000 * j) / 0x1000) ≡ table + 4 * j = omega arith in
          again (i + 0x1000 * j) make (omega arith) ∙ ap (λ (x : ℕ). ok (x, k')) page),
    )
