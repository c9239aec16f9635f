-- ===== src/Paging/Clone.antt =====
-- `clone_table` and `clone_directory` of IcarusOS/paging.c, with `copy_page_physical` of
-- IcarusOS/process.s. Memory is taken as identity mapped, so a physical address is an address.
use cmsi.Base.{ℕ, zero, suc, ◌+◌, ◌*◌, ◌==◌, if◌then◌else◌, not}
use cmsi.Base.Words.{add32, sub32, mul32}
use cmsi.Base.{bit_or}
use cmsi.Memory.{Memory, load32, store32, memset}
use cmsi.Kernel.{Cmd, pure, ◌>>=◌, ◌>>◌, get, get32, put32, modify_memory}
use cmsi.Paging.{KmallocAp, alloc_frame, assign}
use cmsi.Paging.Entry.{present, rw_bit, user, accessed, dirty, frame}
use cmsi.Paging.Entry.{set_present, set_rw, set_user, set_accessed, set_dirty}

abbrev pub sizeof_page_table : ℕ
sizeof_page_table = 0x1000

-- Two tables of 1024 words, and the physical address.
abbrev pub sizeof_page_directory : ℕ
sizeof_page_directory = 0x2004

-- The loop of `copy_page_physical`: words, upwards.
unfoldable pub copy_words : (rounds src dest : ℕ) → Memory → Memory
copy_words zero src dest m = m
copy_words (suc n) src dest m =
    copy_words n (add32 src 4) (add32 dest 4) (store32 m dest (load32 m src))

unfoldable pub copy_page_physical : (src dest : ℕ) → Memory → Memory
copy_page_physical src dest m = copy_words 1024 src dest m

-- A flag of the source page that is set becomes set in the page.
abbrev pub clone_flag :
    (src page : ℕ) → (get_flag : ℕ → ℕ) → (set_flag : ℕ → ℕ → ℕ) → Cmd (Unit {0})
clone_flag src page get_flag set_flag = do
  w ← get32 src
  if get_flag w == 0 then pure tt else assign page (λ w. set_flag w 1)

-- The body of the loop of `clone_table`: it runs for the pages without a frame.
unfoldable pub clone_page : (src page : ℕ) → Cmd (Unit {0})
clone_page src page = do
  w ← get32 src
  if not (frame w == 0) then pure tt else do
    alloc_frame page 0 0
    clone_flag src page present set_present
    clone_flag src page rw_bit set_rw
    clone_flag src page user set_user
    clone_flag src page accessed set_accessed
    clone_flag src page dirty set_dirty
    from ← get32 src
    to ← get32 page
    modify_memory (copy_page_physical (mul32 (frame from) 0x1000) (mul32 (frame to) 0x1000))

-- The loop of `clone_table`, from page `i` on.
unfoldable pub clone_pages : (rounds i src table : ℕ) → Cmd (Unit {0})
clone_pages zero i src table = pure tt
clone_pages (suc n) i src table = do
  clone_page (src + 4 * i) (table + 4 * i)
  clone_pages n (i + 1) src table

-- `clone_table`, with the physical address that `kmalloc_ap` gives: it clears as many bytes as a page
-- directory has.
unfoldable pub clone_table : KmallocAp → (src : ℕ) → Cmd (ℕ × ℕ)
clone_table kmalloc_ap src = do
  (table, phys) ← kmalloc_ap sizeof_page_table
  modify_memory (λ m. memset m table 0 sizeof_page_directory)
  clone_pages 1024 0 src table
  pure (table, phys)

-- The body of the loop of `clone_directory`: a table of the kernel's is shared, another is copied.
unfoldable pub clone_entry : KmallocAp → (i src dir : ℕ) → Cmd (Unit {0})
clone_entry kmalloc_ap i src dir = do
  table ← get32 (src + 4 * i)
  if table == 0 then pure tt else do
    k ← get
    kernel_table ← get32 (k.kernel_directory + 4 * i)
    if kernel_table == table
        then (do
          put32 (dir + 4 * i) table
          physical ← get32 (src + 0x1000 + 4 * i)
          put32 (dir + 0x1000 + 4 * i) physical)
        else do
          (copy, phys) ← clone_table kmalloc_ap table
          put32 (dir + 4 * i) copy
          put32 (dir + 0x1000 + 4 * i) (bit_or phys 0x07)

unfoldable pub clone_entries : KmallocAp → (rounds i src dir : ℕ) → Cmd (Unit {0})
clone_entries kmalloc_ap zero i src dir = pure tt
clone_entries kmalloc_ap (suc n) i src dir = do
  clone_entry kmalloc_ap i src dir
  clone_entries kmalloc_ap n (i + 1) src dir

unfoldable pub clone_directory : KmallocAp → (src : ℕ) → Cmd ℕ
clone_directory kmalloc_ap src = do
  (dir, phys) ← kmalloc_ap sizeof_page_directory
  modify_memory (λ m. memset m dir 0 sizeof_page_directory)
  let offset = sub32 (add32 dir 0x1000) dir
  put32 (dir + 0x2000) (add32 phys offset)
  clone_entries kmalloc_ap 1024 0 src dir
  pure dir
