-- ===== src/Startup.antt =====
-- `initialize_paging` and `switch_page_directory` of IcarusOS/paging.c. `kmalloc_ap` is that of kheap.c,
-- with the fuel of `alloc`. What is printed is not modelled, nor are the registers cr0 and cr3.
pub mod Tables
mod Tests
use cmsi.Base.{ℕ, zero, suc, ◌+◌, ◌/◌, ltb, some, if◌then◌else◌}
use cmsi.Base.Words.{add32}
use cmsi.Base.Outcome.{out_of_fuel}
use cmsi.Memory.{Memory, memset}
use cmsi.Kernel.{Kernel, Cmd, pure, halt, ◌>>=◌, ◌>>◌, get, get32, put32, modify_memory}
use cmsi.Paging.{KmallocAp, get_page, alloc_frame, index_from_bit}
use cmsi.Paging.Clone.{sizeof_page_directory, clone_directory}
use cmsi.KHeap.{kmalloc, kmalloc_a, kmalloc_ap, create_heap}
use cmsi.Base.Outcome.{ok}

abbrev pub kheap_start : ℕ
kheap_start = 0xc000_0000

abbrev pub kheap_initial_size : ℕ
kheap_initial_size = 0x10_0000

-- The size of physical memory.
abbrev pub mem_end_page : ℕ
mem_end_page = 0x100_0000

-- `switch_page_directory`: the directory becomes the current one, and its physical address is loaded.
unfoldable pub switch_page_directory : (dir : ℕ) → Cmd ℕ
switch_page_directory dir = do
  (λ k. ok (tt, record k { current_directory = dir }))
  get32 (dir + 0x2000)

-- The first loop of `initialize_paging`: tables for the pages from `i` on, without frames.
unfoldable pub map_tables : KmallocAp → (rounds i : ℕ) → Cmd (Unit {0})
map_tables kmalloc_ap zero i = pure tt
map_tables kmalloc_ap (suc n) i = do
  k ← get
  _ ← get_page kmalloc_ap i 1 k.kernel_directory
  map_tables kmalloc_ap n (add32 i 0x1000)

-- The second loop: frames from address 0 to a page above what is in use, which grows meanwhile.
unfoldable pub identity_map : KmallocAp → (fuel i : ℕ) → Cmd (Unit {0})
identity_map kmalloc_ap zero i = halt out_of_fuel
identity_map kmalloc_ap (suc n) i = do
  k ← get
  if ltb i (add32 k.placement_address 0x1000)
      then (do
        page ← get_page kmalloc_ap i 1 k.kernel_directory
        alloc_frame page 0 0
        identity_map kmalloc_ap n (add32 i 0x1000))
      else pure tt

-- The third loop: frames for the pages from `i` on.
unfoldable pub map_frames : KmallocAp → (rounds i : ℕ) → Cmd (Unit {0})
map_frames kmalloc_ap zero i = pure tt
map_frames kmalloc_ap (suc n) i = do
  k ← get
  page ← get_page kmalloc_ap i 1 k.kernel_directory
  alloc_frame page 0 0
  map_frames kmalloc_ap n (add32 i 0x1000)

-- The bitset of frames and the kernel's directory.
unfoldable pub make_directory : (fuel : ℕ) → Cmd (Unit {0})
make_directory fuel = do
  (λ k. ok (tt, record k { nframes = mem_end_page / 0x1000 }))
  k ← get
  frames ← kmalloc fuel (index_from_bit k.nframes)
  (λ k. ok (tt, record k { frames = frames }))
  k ← get
  modify_memory (λ m. memset m frames 0 (index_from_bit k.nframes))
  directory ← kmalloc_a fuel sizeof_page_directory
  (λ k. ok (tt, record k { kernel_directory = directory }))
  modify_memory (λ m. memset m directory 0 sizeof_page_directory)
  put32 (directory + 0x2000) (add32 directory 0x1000)

-- `initialize_paging`, with fuel for `alloc` and for the second loop.
unfoldable pub initialize_paging : (fuel rounds : ℕ) → Cmd (Unit {0})
initialize_paging fuel rounds = do
  make_directory fuel
  map_tables (kmalloc_ap fuel) (kheap_initial_size / 0x1000) kheap_start
  identity_map (kmalloc_ap fuel) rounds 0
  map_frames (kmalloc_ap fuel) (kheap_initial_size / 0x1000) kheap_start
  k ← get
  _ ← switch_page_directory k.kernel_directory
  heap ← create_heap fuel kheap_start (add32 kheap_start kheap_initial_size) 0xcfff_f000 0 0
  (λ k. ok (tt, record k { kheap = some heap }))
  k ← get
  directory ← clone_directory (kmalloc_ap fuel) k.kernel_directory
  (λ k. ok (tt, record k { current_directory = directory }))
  _ ← switch_page_directory directory
  pure tt
