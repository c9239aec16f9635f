-- ===== src/Startup/Tests.antt =====
-- The theorem about the heap's page tables at a concrete memory.
use cmsi.Base.{ℕ, ◌+◌, ◌*◌, ◌<◌, ◌≡◌, refl, none, arith}
use cmsi.Base.Outcome.{ok}
use cmsi.Memory.{load32, load8}
use cmsi.Kernel.{Kernel}
use cmsi.Paging.{KmallocAp, get_page}
use cmsi.Startup.{map_tables, kheap_start}
use cmsi.Startup.Tables.{map_tables_lem}

-- Nothing is in memory, and the kernel's directory is at 0x4000.
abbrev blank : Kernel
blank = record {
  memory = λ a. 0;
  placement_address = 0x9000;
  kheap = none;
  kernel_directory = 0x4000;
  current_directory = 0;
  frames = 0x100;
  nframes = 4096;
  current_task = 0;
  ready_queue = 0;
  next_pid = 1;
  initial_esp = 0;
}

abbrev give_page : KmallocAp
give_page size k = ok ((0x1_0000, 0x1_0000), k)

blank_word : (a : ℕ) → load32 (λ a. 0) a ≡ 0
unfolding load32 load8
blank_word a = refl

map_tables_example :
    (k' : Kernel) × (map_tables give_page 256 kheap_start blank ≡ ok (tt, k'))
    × ((j make : ℕ)
        → j < 1024
        → get_page give_page (kheap_start + 0x1000 * j) make 0x4000 k' ≡ ok (0x1_0000 + 4 * j, k'))
map_tables_example =
    map_tables_lem give_page 255 768 blank blank 0x1_0000 0x1_0000 (omega arith) (omega arith)
      (blank_word (0x4000 + 4 * 768)) refl refl (omega arith) (omega arith) (omega arith)
