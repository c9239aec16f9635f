-- ===== src/Paging/GetPage.antt =====
-- About `get_page` of IcarusOS/paging.c.
use cmsi.Base.{ℕ, ◌+◌, ◌*◌, ◌/◌, ◌%◌, ◌^◌, ◌≤◌, ◌<◌, ◌≡◌, ◌≢◌, ◌⊎◌, refl, ap, ◌∙◌, arith}
use cmsi.Base.{false, ◌==◌, bit_or}
use cmsi.Base.Outcome.{ok}
use cmsi.Memory.{Memory, load32, store32, memset}
use cmsi.Memory.Access.{load32_agree, load32-store32_ne, load32-store32_self, store32_outside}
use cmsi.Memory.Blocks.{memset_lem, load32-memset_zero}
use cmsi.Kernel.{Kernel}
use cmsi.Paging.{KmallocAp, get_page, make_table, page_pointer}

-- The index of the table of an address.
abbrev pub table_index : ℕ → ℕ
table_index address = address / 0x1000 / 1024

-- In a table that is there, `get_page` finds the page and changes nothing.
pub get_page-found :
    (kmalloc_ap : KmallocAp) (address make dir : ℕ) (k : Kernel) (table : ℕ)
    → load32 k.memory (dir + 4 * table_index address) ≡ table
    → table ≢ 0
    → get_page kmalloc_ap address make dir k ≡ ok (page_pointer table (address / 0x1000), k)
unfolding get_page
get_page-found kmalloc_ap address make dir k table e some_table =
    let there : (table == 0) ≡ false = ground arith in simp (e, there)

-- Without a table, and if none is to be made, it returns 0.
pub get_page-absent :
    (kmalloc_ap : KmallocAp) (address dir : ℕ) (k : Kernel)
    → load32 k.memory (dir + 4 * table_index address) ≡ 0
    → get_page kmalloc_ap address 0 dir k ≡ ok (0, k)
unfolding get_page
get_page-absent kmalloc_ap address dir k e = simp e

-- The memory when `make_table` has entered the table.
unfoldable entered : Memory → (dir i table phys : ℕ) → Memory
entered m dir i table phys =
    store32 (memset (store32 m (dir + 4 * i) table) table 0 0x1000) (dir + 0x1000 + 4 * i)
      (bit_or phys 0x7)

module _ (m : Memory) (dir i table phys : ℕ) (index : i < 1024) (word : table < 2 ^ 32)
    (apart : (table + 0x1000 ≤ dir) ⊎ (dir + 0x2000 ≤ table)) where
  entered-table : load32 (entered m dir i table phys) (dir + 4 * i) ≡ table
  unfolding entered
  entered-table =
      load32-store32_ne _ (dir + 0x1000 + 4 * i) (bit_or phys 0x7) (dir + 4 * i) (omega arith)
      ∙ load32_agree _ (store32 m (dir + 4 * i) table) (dir + 4 * i)
          (λ b l u. memset_lem (store32 m (dir + 4 * i) table) table 0 0x1000 b ∙ ground arith)
      ∙ load32-store32_self m (dir + 4 * i) table word

  entered-page : (j : ℕ) → j < 1024 → load32 (entered m dir i table phys) (table + 4 * j) ≡ 0
  unfolding entered
  entered-page j h =
      load32-store32_ne _ (dir + 0x1000 + 4 * i) (bit_or phys 0x7) (table + 4 * j) (omega arith)
      ∙ load32-memset_zero (store32 m (dir + 4 * i) table) table 0x1000 (table + 4 * j)
          (omega arith) (omega arith)

  entered_outside :
      (b : ℕ)
      → (b < table) ⊎ (table + 0x1000 ≤ b)
      → (b < dir + 4 * i) ⊎ (dir + 4 * i + 4 ≤ b)
      → (b < dir + 0x1000 + 4 * i) ⊎ (dir + 0x1000 + 4 * i + 4 ≤ b)
      → entered m dir i table phys b ≡ m b
  unfolding entered
  entered_outside b o p q =
      store32_outside _ (dir + 0x1000 + 4 * i) (bit_or phys 0x7) b q
      ∙ memset_lem (store32 m (dir + 4 * i) table) table 0 0x1000 b
      ∙ ground (arith, store32_outside m (dir + 4 * i) table b p)

-- Where the directory has no table for an address and `kmalloc_ap` gives one apart from the
-- directory, `get_page` makes it: the page it returns is 0, every address of the same table is found
-- in it with no further change, and of what `kmalloc_ap` left only the bytes of the table and its
-- two entries in the directory change.
pub get_page-made :
    (kmalloc_ap : KmallocAp) (address dir : ℕ) (k k₁ : Kernel) (table phys : ℕ)
    → address < 2 ^ 32
    → load32 k.memory (dir + 4 * table_index address) ≡ 0
    → kmalloc_ap 4096 k ≡ ok ((table, phys), k₁)
    → table ≢ 0
    → table < 2 ^ 32
    → (table + 0x1000 ≤ dir) ⊎ (dir + 0x2000 ≤ table)
    → (k' : Kernel) × (get_page kmalloc_ap address 1 dir k
        ≡ ok (page_pointer table (address / 0x1000), k'))
      × (k'.kernel_directory ≡ k₁.kernel_directory)
      × (load32 k'.memory (dir + 4 * table_index address) ≡ table)
      × (load32 k'.memory (page_pointer table (address / 0x1000)) ≡ 0)
      × ((other make : ℕ)
          → table_index other ≡ table_index address
          → get_page kmalloc_ap other make dir k' ≡ ok (page_pointer table (other / 0x1000), k'))
      × ((b : ℕ)
          → (b < table) ⊎ (table + 0x1000 ≤ b)
          → (b < dir + 4 * table_index address) ⊎ (dir + 4 * table_index address + 4 ≤ b)
          → (b < dir + 0x1000 + 4 * table_index address)
            ⊎ (dir + 0x1000 + 4 * table_index address + 4 ≤ b)
          → k'.memory b ≡ k₁.memory b)
unfolding get_page make_table entered
get_page-made kmalloc_ap address dir k k₁ table phys word empty given some_table table_word apart =
    let i = table_index address in
    let index : i < 1024 = omega arith in
    let k' = record k₁ { memory = entered k₁.memory dir i table phys } in
    let self = load32-store32_self k₁.memory (dir + 4 * i) table table_word in
    let again = entered-table k₁.memory dir i table phys index table_word apart in
    (
      k',
      simp (empty, given, self, again),
      refl,
      again,
      entered-page k₁.memory dir i table phys index table_word apart (address / 0x1000 % 1024)
          (omega arith),
      (λ other make same.
          get_page-found kmalloc_ap other make dir k' table
            (ap (λ (x : ℕ). load32 k'.memory (dir + 4 * x)) same ∙ again) some_table),
      (λ b o p q. entered_outside k₁.memory dir i table phys index table_word apart b o p q),
    )
