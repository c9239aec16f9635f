-- ===== src/Paging/Cloned.antt =====
-- About `clone_table` of IcarusOS/paging.c for tables whose pages have frames, and `clone_directory` for
-- directories without tables.
use cmsi.Base.{ℕ, zero, suc, ◌+◌, ◌*◌, ◌^◌, ◌≤◌, ◌<◌, ◌≡◌, ◌≢◌, ◌⊎◌, refl, sym, ap, ◌∙◌, arith}
use cmsi.Base.{true, false, ◌==◌}
use cmsi.Base.Words.{add32, sub32}
use cmsi.Base.Outcome.{ok}
use cmsi.Memory.{Memory, load32, store32, memset}
use cmsi.Memory.Access.{load32_agree, load32-store32_ne}
use cmsi.Memory.Blocks.{memset_lem, load32-memset_zero}
use cmsi.Kernel.{Kernel}
use cmsi.Paging.{KmallocAp}
use cmsi.Paging.Entry.{frame}
use cmsi.Paging.Clone.{
  clone_page, clone_pages, clone_table, clone_entry, clone_entries, clone_directory,
}

-- A page with a frame is skipped.
clone_page-framed :
    (src page : ℕ) (k : Kernel)
    → frame (load32 k.memory src) ≢ 0
    → clone_page src page k ≡ ok (tt, k)
unfolding clone_page
clone_page-framed src page k h =
    let framed : (frame (load32 k.memory src) == 0) ≡ false = ground arith in rw framed refl

clone_pages-framed :
    (n i src table : ℕ) (k : Kernel)
    → ((j : ℕ) → i ≤ j → j < i + n → frame (load32 k.memory (src + 4 * j)) ≢ 0)
    → clone_pages n i src table k ≡ ok (tt, k)
unfolding clone_pages
clone_pages-framed zero i src table k h = refl
clone_pages-framed (suc n) i src table k h =
    simp (clone_page-framed (src + 4 * i) (table + 4 * i) k (h i (omega arith) (omega arith)))
      (clone_pages-framed n (i + 1) src table k (λ j l u. h j (omega arith) (omega arith)))

-- Memory cleared from `a` on keeps the words that lie elsewhere.
memset-away :
    (m : Memory) (a n b : ℕ) → (b + 4 ≤ a) ⊎ (a + n ≤ b) → load32 (memset m a 0 n) b ≡ load32 m b
memset-away m a n b h =
    load32_agree (memset m a 0 n) m b (λ c l u. memset_lem m a 0 n c ∙ ground arith)

-- Of a table in which every page has a frame, apart from the 8196 bytes from the new table on,
-- `clone_table` makes a blank copy: no page is cloned, and 4100 bytes behind the new table are
-- cleared too; other bytes are as `kmalloc_ap` left them.
pub clone_table_lem :
    (kmalloc_ap : KmallocAp) (src : ℕ) (k k₁ : Kernel) (table phys : ℕ)
    → kmalloc_ap 0x1000 k ≡ ok ((table, phys), k₁)
    → ((j : ℕ) → j < 1024 → frame (load32 k₁.memory (src + 4 * j)) ≢ 0)
    → (src + 0x1000 ≤ table) ⊎ (table + 0x2004 ≤ src)
    → (k' : Kernel) × (clone_table kmalloc_ap src k ≡ ok ((table, phys), k'))
      × ((j : ℕ) → j < 1024 → load32 k'.memory (table + 4 * j) ≡ 0)
      × ((b : ℕ) → table + 0x1000 ≤ b → b < table + 0x2004 → k'.memory b ≡ 0)
      × ((b : ℕ) → (b < table) ⊎ (table + 0x2004 ≤ b) → k'.memory b ≡ k₁.memory b)
unfolding clone_table
clone_table_lem kmalloc_ap src k k₁ table phys given framed apart =
    let m = memset k₁.memory table 0 0x2004 in
    let k' = record k₁ { memory = m } in
    (
      k',
      simp (
        given,
        clone_pages-framed 1024 0 src table k' (λ j l u z.
            framed j (omega arith) (
              ap frame (sym (memset-away k₁.memory table 0x2004 (src + 4 * j) (omega arith))) ∙ z)),
      ),
      (λ j h.
          load32-memset_zero k₁.memory table 0x2004 (table + 4 * j) (omega arith) (omega arith)),
      (λ b l u. memset_lem k₁.memory table 0 0x2004 b ∙ ground arith),
      (λ b o. memset_lem k₁.memory table 0 0x2004 b ∙ ground arith),
    )

clone_entry-empty :
    (kmalloc_ap : KmallocAp) (i src dir : ℕ) (k : Kernel)
    → load32 k.memory (src + 4 * i) ≡ 0
    → clone_entry kmalloc_ap i src dir k ≡ ok (tt, k)
unfolding clone_entry
clone_entry-empty kmalloc_ap i src dir k h =
    let empty : (load32 k.memory (src + 4 * i) == 0) ≡ true = ground arith in rw empty refl

clone_entries-empty :
    (kmalloc_ap : KmallocAp) (n i src dir : ℕ) (k : Kernel)
    → ((j : ℕ) → i ≤ j → j < i + n → load32 k.memory (src + 4 * j) ≡ 0)
    → clone_entries kmalloc_ap n i src dir k ≡ ok (tt, k)
unfolding clone_entries
clone_entries-empty kmalloc_ap zero i src dir k h = refl
clone_entries-empty kmalloc_ap (suc n) i src dir k h =
    simp (clone_entry-empty kmalloc_ap i src dir k (h i (omega arith) (omega arith))) (
      clone_entries-empty kmalloc_ap n (i + 1) src dir k (λ j l u. h j (omega arith) (omega arith)))

-- A directory without tables has a blank clone.
pub clone_directory-empty :
    (kmalloc_ap : KmallocAp) (src : ℕ) (k k₁ : Kernel) (dir phys : ℕ)
    → kmalloc_ap 0x2004 k ≡ ok ((dir, phys), k₁)
    → ((j : ℕ) → j < 1024 → load32 k₁.memory (src + 4 * j) ≡ 0)
    → (src + 0x1000 ≤ dir) ⊎ (dir + 0x2004 ≤ src)
    → dir + 0x1000 < 2 ^ 32
    → clone_directory kmalloc_ap src k
      ≡ ok (
        dir,
        record k₁ {
          memory = store32 (memset k₁.memory dir 0 0x2004) (dir + 0x2000) (add32 phys 0x1000);
        },
      )
unfolding clone_directory
clone_directory-empty kmalloc_ap src k k₁ dir phys given empty apart word =
    let m = store32 (memset k₁.memory dir 0 0x2004) (dir + 0x2000) (add32 phys 0x1000) in
    let offset : sub32 (add32 dir 0x1000) dir ≡ 0x1000 = omega arith in
    simp (
      given,
      offset,
      clone_entries-empty kmalloc_ap 1024 0 src dir (record k₁ { memory = m })
          (λ j l u.
            load32-store32_ne (memset k₁.memory dir 0 0x2004) (dir + 0x2000) (add32 phys 0x1000)
              (src + 4 * j) (omega arith)
            ∙ memset-away k₁.memory dir 0x2004 (src + 4 * j) (omega arith)
            ∙ empty j (omega arith)),
    )
