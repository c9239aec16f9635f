-- ===== src/Task/StartTests.antt =====
-- The theorem about `initialize_tasking` at a concrete start.
use cmsi.Base.{
  ℕ, ◌+◌, ◌*◌, ◌<◌, ◌≤◌, ◌≡◌, refl, ap, ◌∙◌, arith, inl, inr, [], ◌∷◌, ◌==◌, if◌then◌else◌,
}
use cmsi.Base.Outcome.{ok, stop, out_of_fuel}
use cmsi.Memory.{load32, load8}
use cmsi.Kernel.{Kernel}
use cmsi.Paging.{KmallocAp}
use cmsi.Paging.GetPage.{table_index}
use cmsi.Base.{some, true, false}
use cmsi.Memory.{store32, store8}
use cmsi.KHeap.{kmalloc}
use cmsi.KHeap.Pieces.{piece, write_piece}
use cmsi.KHeap.WellFormed.{WellFormed}
use cmsi.KHeap.Samples.{AllRoom, write_pieces, write_pieces-Tiles, some_pieces, some_cells, heap_of}
use cmsi.Task.Started.{kmalloc-GivesTask}
use cmsi.Task.{Registers, initialize_tasking}
use cmsi.Task.Relocate.{relocated}
use cmsi.Task.Pages.{StackTables}
use cmsi.Task.Fork.{TaskAt}
use cmsi.Task.Switching.{Scheduled}
use cmsi.Task.Started.{initialize_tasking_lem, GivesTask}
use cmsi.Base.{◌⊎◌}
use cmsi.Base.{Bool-cases}

-- A directory at 0x20000 whose tables 895 and 896, those of the new stack, are at 0x30000 and 0x40000,
-- an old stack of 32 bytes, and a heap at 0x1000.
abbrev paged : Kernel
paged = record {
  memory =
      write_pieces (λ a. if a == 0x2_0dfe then 3 else if a == 0x2_0e02 then 4 else 0) 0x1000
        some_pieces;
  placement_address = 0;
  kheap = some (heap_of some_pieces some_cells 2);
  kernel_directory = 0x2_0000;
  current_directory = 0x2_0000;
  frames = 0x5_0000;
  nframes = 32;
  current_task = 0;
  ready_queue = 0;
  next_pid = 1;
  initial_esp = 0x10_6000;
}

abbrev old_registers : Registers
old_registers = record { esp = 0x10_5fe0; ebp = 0x10_5ff0 }

abbrev no_pages : KmallocAp
no_pages size k = stop out_of_fuel

first_table : load32 paged.memory (0x2_0000 + 4 * 895) ≡ 0x3_0000
unfolding load32 load8 store32 store8 write_pieces write_piece
first_table = refl

second_table : load32 paged.memory (0x2_0000 + 4 * 896) ≡ 0x4_0000
unfolding load32 load8 store32 store8 write_pieces write_piece
second_table = refl

-- The table of an address of the new stack.
table_at :
    (a : ℕ)
    → 0xdfff_e000 ≤ a
    → a ≤ 0xe000_0000
    → (load32 paged.memory (0x2_0000 + 4 * table_index a) ≡ 0x3_0000)
      ⊎ (load32 paged.memory (0x2_0000 + 4 * table_index a) ≡ 0x4_0000)
table_at a l u = elim (Bool-cases (a == 0xe000_0000)) [
  | inl end ↦
      let here : 0x2_0000 + 4 * table_index a ≡ 0x2_0000 + 4 * 896 = ground arith in
      inr (ap (load32 paged.memory) here ∙ second_table)
  | inr inside ↦
      let below : a < 0xe000_0000 = ground arith in
      let here : 0x2_0000 + 4 * table_index a ≡ 0x2_0000 + 4 * 895 = omega arith in
      inl (ap (load32 paged.memory) here ∙ first_table)
]

paged-StackTables :
    StackTables paged.memory 0x2_0000 0x5_0000 32 0x10_5fe0 0x10_6000 0xdfff_e000 0xe000_0000
paged-StackTables = record {
  some_frames = omega arith;
  most_frames = omega arith;
  bitset = omega arith;
  table = λ a l u e. absurd (omega (arith, e, table_at a l u));
  away = λ a l u. omega (arith, table_at a l u);
}

paged-WellFormed : WellFormed paged (heap_of some_pieces some_cells 2) some_pieces
unfolding AllRoom
paged-WellFormed = record {
  is_heap = refl;
  tiled =
      write_pieces-Tiles _ 0x10dc 0x1000 some_pieces
        (omega arith, (omega arith, (omega arith, (omega arith, tt)))) (omega arith);
  indexed = λ x. omega arith;
  valid = omega arith;
  room = omega arith;
  compares = refl;
  word = omega arith;
}

-- The allocator of kheap.c has a hole for the task.
paged-GivesTask : GivesTask (kmalloc 1) paged
paged-GivesTask =
    kmalloc-GivesTask paged (heap_of some_pieces some_cells 2) (piece 32 false ∷ []) 100
      (piece 24 false ∷ piece 64 true ∷ []) 0 paged-WellFormed (omega arith) (omega arith)
      (λ b l u. (omega arith, λ a p q. omega (arith, table_at a p q)))

initialize_tasking_example :
    (t : ℕ) × (k' : Kernel) × (initialize_tasking (kmalloc 1) no_pages 0x801 old_registers paged
      ≡ ok (record { esp = 0xdfff_ffe0; ebp = 0xdfff_fff0 }, k'))
    × Scheduled k' (t ∷ [])
    × TaskAt k'.memory t 1 0 0 0 0x2_0000
    × (k'.next_pid ≡ 2)
    × ((j : ℕ)
        → 0x10_5fe0 + 4 * j + 4 ≤ 0x10_6000
        → load32 k'.memory (0xdfff_ffe0 + 4 * j)
          ≡ relocated 0x10_5fe0 0x10_6000 0xdfef_a000 (load32 paged.memory (0x10_5fe0 + 4 * j)))
initialize_tasking_example =
    initialize_tasking_lem (kmalloc 1) no_pages 0x801 old_registers paged (omega arith)
      (omega arith) (omega arith) (omega arith) (omega arith) (omega arith) paged-StackTables
      paged-GivesTask (omega arith) (omega arith)
