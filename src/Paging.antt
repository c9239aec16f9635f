-- ===== src/Paging.antt =====
-- IcarusOS/paging.c: the bitset of physical frames, and the page tables. A page directory, a page
-- table and the bitset are words in memory: `tables[i]` at `4 * i`, `tablesPhysical[i]` at
-- `0x1000 + 4 * i` and `physicalAddr` at `0x2000` of a directory; a `page_t` is one word, its fields
-- from the low bit up. The model addresses memory as the kernel does, through one flat space.
pub mod Entry
pub mod Frames
pub mod FirstFrame
pub mod FrameAlloc
pub mod FrameFree
pub mod Clone
pub mod Cloned
pub mod GetPage
pub mod Shared
pub mod Outside
pub mod Fault
mod Tests
use Entry.{present, rw_bit, user, accessed, dirty, frame}
use Entry.{set_present, set_rw, set_user, set_accessed, set_dirty, set_frame_field}
use cmsi.Base.{ℕ, zero, suc, ◌+◌, ◌-◌, ◌*◌, ◌/◌, ◌%◌, ◌^◌, Bool, true, false, bit_and, bit_or}
use cmsi.Base.{Option, none, some, ltb, ◌==◌, if◌then◌else◌, not}
use cmsi.Base.Words.{mul32}
use cmsi.Base.Outcome.{panicked}
use cmsi.Memory.{Memory, load32, store32, memset}
use cmsi.Kernel.{Kernel, Cmd, pure, halt, ◌>>=◌, ◌>>◌, get, get32, put32, modify_memory}

-- INDEX_FROM_BIT(a)
abbrev pub index_from_bit : ℕ → ℕ
index_from_bit a = a / 32

-- OFFSET_FROM_BIT(a)
abbrev pub offset_from_bit : ℕ → ℕ
offset_from_bit a = a % 32

-- ~w, of a 32-bit word
abbrev pub complement32 : ℕ → ℕ
complement32 w = 2 ^ 32 - 1 - w

unfoldable pub set_frame : ℕ → Cmd (Unit {0})
set_frame frame_addr = do
  k ← get
  let frame = frame_addr / 0x1000
  let idx = index_from_bit frame
  let off = offset_from_bit frame
  w ← get32 (k.frames + 4 * idx)
  put32 (k.frames + 4 * idx) (bit_or w (2 ^ off))

unfoldable pub clear_frame : ℕ → Cmd (Unit {0})
clear_frame frame_addr = do
  k ← get
  let frame = frame_addr / 0x1000
  let idx = index_from_bit frame
  let off = offset_from_bit frame
  w ← get32 (k.frames + 4 * idx)
  put32 (k.frames + 4 * idx) (bit_and w (complement32 (2 ^ off)))

-- The inner loop of `first_frame`, over the bits from `j` on: the result of its `return`, if it comes
-- to one.
pub first_bit : (w : ℕ) → (rounds j : ℕ) → Option ℕ
first_bit w zero j = none
first_bit w (suc n) j =
    let rest = first_bit w n (j + 1) in if bit_and w (2 ^ j) == 0 then some j else rest

-- The outer loop, over the words from `i` on; 0 when it ends.
pub first_frame_from : Memory → ℕ → (rounds i : ℕ) → ℕ
first_frame_from m frames zero i = 0
first_frame_from m frames (suc n) i =
    let rest = first_frame_from m frames n (i + 1) in
    let w = load32 m (frames + 4 * i) in
    if w == 0xffff_ffff
    then rest
    else elim (first_bit w 32 0) [ some j ↦ i * 4 * 8 + j | none ↦ rest ]

unfoldable pub first_frame : Cmd ℕ
first_frame k = pure (first_frame_from k.memory k.frames (index_from_bit k.nframes) 0) k

-- Assignment to a field of the page, which reads the word and writes it back.
abbrev pub assign : (page : ℕ) → (ℕ → ℕ) → Cmd (Unit {0})
assign page f = do w ← get32 page; put32 page (f w)

unfoldable pub alloc_frame : (page is_kernel is_writeable : ℕ) → Cmd (Unit {0})
alloc_frame page is_kernel is_writeable = do
  w ← get32 page
  if not (frame w == 0) then pure tt else do
    idx ← first_frame
    if idx == 0xffff_ffff then halt panicked else do
      set_frame (mul32 idx 0x1000)
      assign page (λ w. set_present w 1)
      assign page (λ w. set_rw w (if is_writeable == 1 then 1 else 0))
      assign page (λ w. set_user w (if is_kernel == 1 then 0 else 1))
      assign page (λ w. set_frame_field w idx)

unfoldable pub free_frame : (page : ℕ) → Cmd (Unit {0})
free_frame page = do
  w ← get32 page
  if frame w == 0 then pure tt else do clear_frame (frame w); assign page (λ w. set_frame_field w 0)

-- `kmalloc_ap` is that of kheap.c: the address and the physical address of new, page-aligned memory.
abbrev pub KmallocAp : Type 0
KmallocAp = ℕ → Cmd (ℕ × ℕ)

-- The branch of `get_page` that creates the page table.
unfoldable pub make_table : KmallocAp → (table_idx dir : ℕ) → Cmd (Unit {0})
make_table kmalloc_ap table_idx dir = do
  (table, tmp) ← kmalloc_ap 4096
  put32 (dir + 4 * table_idx) table
  table ← get32 (dir + 4 * table_idx)
  modify_memory (λ m. memset m table 0 0x1000)
  put32 (dir + 0x1000 + 4 * table_idx) (bit_or tmp 0x7)

-- &dir->tables[table_idx]->pages[page % 1024]
abbrev pub page_pointer : (table page : ℕ) → ℕ
page_pointer table page = table + 4 * (page % 1024)

unfoldable pub get_page : KmallocAp → (address make dir : ℕ) → Cmd ℕ
unfolding make_table
get_page kmalloc_ap address make dir = do
  let page = address / 0x1000
  let table_idx = page / 1024
  table ← get32 (dir + 4 * table_idx)
  if not (table == 0) then pure (page_pointer table page) else if make == 0 then pure 0 else do
    make_table kmalloc_ap table_idx dir
    table ← get32 (dir + 4 * table_idx)
    pure (page_pointer table page)
