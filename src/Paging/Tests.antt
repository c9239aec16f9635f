-- ===== src/Paging/Tests.antt =====
-- The theorems about frames at concrete memories.
use cmsi.Base.{ℕ, zero, suc, ◌+◌, ◌*◌, ◌/◌, ◌%◌, ◌<◌, ◌≡◌, refl}
use cmsi.Base.{none, ltb, ◌==◌, if◌then◌else◌, arith}
use cmsi.Base.Bits.{bit}
use cmsi.Base.Outcome.{ok}
use cmsi.Memory.{load8, load32}
use cmsi.Kernel.{Kernel}
use cmsi.Paging.{first_frame, alloc_frame, free_frame, first_bit, first_frame_from}
use cmsi.Paging.Entry.{frame}
use cmsi.Paging.Frames.{frame_bit}
use cmsi.Paging.FirstFrame.{IsFirstFree, AllUsed, full_word}
use cmsi.Paging.FrameAlloc.{Allocated, alloc_frame_lem, alloc_frame_exhausted}
use cmsi.Paging.FrameFree.{free_frame_lem}
use cmsi.Paging.{KmallocAp, get_page, page_pointer}
use cmsi.Paging.GetPage.{table_index, get_page-made}
use cmsi.Paging.Clone.{clone_table, clone_directory}
use cmsi.Paging.Shared.{clone_directory_lem}
use cmsi.Base.{◌≢◌}
use cmsi.Paging.Cloned.{clone_table_lem}
use cmsi.Base.{◌≤◌, ◌⊎◌}

-- 64 frames, the bitset at 0x100: frames 0 to 33 are in use.
abbrev some_used : Kernel
some_used = record {
  memory = λ a. if ltb a 0x104 then 0xff else if a == 0x104 then 3 else 0;
  placement_address = 0;
  kheap = none;
  kernel_directory = 0;
  current_directory = 0;
  frames = 0x100;
  nframes = 64;
  current_task = 0;
  ready_queue = 0;
  next_pid = 1;
  initial_esp = 0;
}

-- The same with every frame in use.
abbrev all_used : Kernel
all_used = record some_used { memory = λ a. if ltb a 0x108 then 0xff else 0 }

-- The page at 0x200 has frame 7.
abbrev with_page : Kernel
with_page = record some_used {
  memory =
      λ a. if ltb a 0x104 then 0xff else if a == 0x104 then 3 else if a == 0x201 then 0x70 else 0;
}

first_frame_run : first_frame some_used ≡ ok (34, some_used)
unfolding first_frame first_frame_from first_bit load32
first_frame_run = refl

alloc_frame_example :
    (r : ℕ) × ((k' : Kernel) × (alloc_frame 0x200 0 1 some_used ≡ ok (tt, k'))
      × IsFirstFree some_used.memory 0x100 0 2 r
      × Allocated some_used k' 0x200 0 1 r)
unfolding load32 frame_bit bit
alloc_frame_example =
    alloc_frame_lem some_used 0x200 0 1 refl (omega arith) (omega arith) 40 (omega arith) refl

all_used_word : (w : ℕ) → w < 2 → load32 all_used.memory (0x100 + 4 * w) ≡ 0xffff_ffff
unfolding load32 load8
all_used_word zero h = refl
all_used_word (suc zero) h = refl
all_used_word (suc (suc w)) h = absurd (omega arith)

every_frame_used : AllUsed all_used.memory 0x100 0 2
unfolding frame_bit
every_frame_used g p q = full_word _ (g % 32) (ground (arith, all_used_word (g / 32))) (omega arith)

alloc_frame_exhausted_example :
    (k' : Kernel) × (alloc_frame 0x200 0 1 all_used ≡ ok (tt, k'))
    × Allocated all_used k' 0x200 0 1 0
unfolding load32
alloc_frame_exhausted_example =
    alloc_frame_exhausted all_used 0x200 0 1 refl (omega arith) (omega arith) (omega arith)
      every_frame_used

free_frame_example :
    (k' : Kernel) × (free_frame 0x200 with_page ≡ ok (tt, k'))
    × (frame (load32 k'.memory 0x200) ≡ 0)
    × ((g : ℕ)
        → g < 64
        → frame_bit k'.memory 0x100 g ≡ (if g == 0 then 0 else frame_bit with_page.memory 0x100 g))
unfolding load32 load8
free_frame_example =
    free_frame_lem with_page 0x200 (omega arith) (omega arith) (omega arith) (omega arith)

-- The allocator of pages that always gives the one at 0x1_0000.
abbrev give_page : KmallocAp
give_page size k = ok ((0x1_0000, 0x1_0000), k)

blank_word : (a : ℕ) → load32 (λ a. 0) a ≡ 0
unfolding load32 load8
blank_word a = refl

-- Memory in which every word names a frame.
abbrev all_framed : Kernel
all_framed = record some_used { memory = λ a. 0x10 }

word_framed : (a : ℕ) → ¬ (frame (load32 all_framed.memory a) ≡ 0)
unfolding load32 load8
word_framed a h = absurd (omega (arith, h))

clone_table_example :
    (k' : Kernel) × (clone_table give_page 0x8000 all_framed ≡ ok ((0x1_0000, 0x1_0000), k'))
    × ((j : ℕ) → j < 1024 → load32 k'.memory (0x1_0000 + 4 * j) ≡ 0)
    × ((b : ℕ) → 0x1_1000 ≤ b → b < 0x1_2004 → k'.memory b ≡ 0)
    × ((b : ℕ) → (b < 0x1_0000) ⊎ (0x1_2004 ≤ b) → k'.memory b ≡ 0x10)
clone_table_example =
    clone_table_lem give_page 0x8000 all_framed all_framed 0x1_0000 0x1_0000 refl
      (λ j h. word_framed (0x8000 + 4 * j)) (omega arith)

-- Nothing is in memory, and the directory is at 0x4000.
abbrev blank : Kernel
blank = record some_used { memory = λ a. 0; kernel_directory = 0x4000 }

get_page_example :
    (k' : Kernel) × (get_page give_page 0xc000_1234 1 0x4000 blank ≡ ok (0x1_0004, k'))
    × (k'.kernel_directory ≡ 0x4000)
    × (load32 k'.memory (0x4000 + 4 * 768) ≡ 0x1_0000)
    × (load32 k'.memory 0x1_0004 ≡ 0)
    × ((other make : ℕ)
        → table_index other ≡ 768
        → get_page give_page other make 0x4000 k' ≡ ok (page_pointer 0x1_0000 (other / 0x1000), k'))
    × ((b : ℕ)
        → (b < 0x1_0000) ⊎ (0x1_1000 ≤ b)
        → (b < 0x4000 + 4 * 768) ⊎ (0x4000 + 4 * 768 + 4 ≤ b)
        → (b < 0x5000 + 4 * 768) ⊎ (0x5000 + 4 * 768 + 4 ≤ b)
        → k'.memory b ≡ 0)
get_page_example =
    get_page-made give_page 0xc000_1234 0x4000 blank blank 0x1_0000 0x1_0000 (omega arith)
      (blank_word (0x4000 + 4 * 768)) refl (omega arith) (omega arith) (omega arith)

-- The kernel's directory at 0x4000 has the table at 0x9000 as its first.
abbrev one_table : Kernel
one_table = record blank {
  memory = λ a. if a == 0x4001 then 0x90 else if a == 0x5001 then 0x90 else 0;
}

clone_directory_example :
    (k' : Kernel) × (clone_directory give_page 0x4000 one_table ≡ ok (0x1_0000, k'))
    × ((j : ℕ)
        → j < 1024
        → load32 k'.memory (0x1_0000 + 4 * j) ≡ load32 one_table.memory (0x4000 + 4 * j))
    × ((j : ℕ)
        → j < 1024
        → load32 one_table.memory (0x4000 + 4 * j) ≢ 0
        → load32 k'.memory (0x1_1000 + 4 * j) ≡ load32 one_table.memory (0x5000 + 4 * j))
    × (load32 k'.memory 0x1_2000 ≡ 0x1_1000)
    × ((b : ℕ) → (b < 0x1_0000) ⊎ (0x1_2004 ≤ b) → k'.memory b ≡ one_table.memory b)
clone_directory_example =
    clone_directory_lem give_page 0x4000 0x1_0000 (omega arith) one_table one_table 0x1_0000 refl
      refl (omega arith)
