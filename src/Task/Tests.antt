-- ===== src/Task/Tests.antt =====
-- The theorems about tasks at concrete tasks.
use cmsi.Base.{ℕ, ◌+◌, ◌*◌, ◌<◌, ◌≡◌, refl, arith, ◌∙◌}
use cmsi.Base.{[], ◌∷◌, ◌==◌, if◌then◌else◌, none, some}
use cmsi.Base.Outcome.{ok}
use cmsi.Memory.{load32, store32, store8, load8, memset}
use cmsi.Memory.Access.{load32_agree, load32-store32_ne}
use cmsi.Memory.Blocks.{memset_lem}
use cmsi.Kernel.{Kernel, Cmd}
use cmsi.Paging.{KmallocAp}
use cmsi.Paging.Cloned.{clone_directory-empty}
use cmsi.Task.{Registers, fork, switch_task, at_page_directory}
use cmsi.Task.Spawned.{fork-Scheduled}
use cmsi.Base.{List, length, ◌++◌}
use cmsi.Task.Fork.{TaskAt}
use cmsi.Task.Switching.{Scheduled, loaded, saved, switch_task_lem}
use cmsi.Task.RoundRobin.{Run, start, turn, round_robin}

-- One task at 0x100, which runs and whose page directory at 0x2_0000 is empty.
abbrev one_task : Kernel
one_task = record {
  memory = λ a. 0;
  placement_address = 0;
  kheap = none;
  kernel_directory = 0;
  current_directory = 0x2_0000;
  frames = 0;
  nframes = 0;
  current_task = 0x100;
  ready_queue = 0x100;
  next_pid = 2;
  initial_esp = 0;
}

abbrev give_directory : KmallocAp
give_directory size k = ok ((0x1_0000, 0x1_0000), k)

abbrev give_task : ℕ → Cmd ℕ
give_task size k = ok (0x200, k)

abbrev some_registers : Registers
some_registers = record { esp = 0x8000; ebp = 0x8010 }

-- The state when the directory has been cloned.
abbrev cloned : Kernel
cloned = record one_task {
  memory = store32 (memset (λ a. 0) 0x1_0000 0 0x2004) (0x1_0000 + 0x2000) 0x1_1000;
}

no_next : load32 cloned.memory 0x114 ≡ 0
unfolding load32 load8
no_next =
    load32-store32_ne (memset (λ a. 0) 0x1_0000 0 0x2004) (0x1_0000 + 0x2000) 0x1_1000 0x114
      (omega arith)
    ∙ load32_agree (memset (λ a. 0) 0x1_0000 0 0x2004) (λ a. 0) 0x114
        (λ b l u. memset_lem (λ a. 0) 0x1_0000 0 0x2004 b ∙ ground arith)

is_cloned : (j : ℕ) → j < 1024 → load32 (λ a. 0) (0x2_0000 + 4 * j) ≡ 0
unfolding load32 load8
is_cloned j h = refl

-- Tasks at 0x100, which runs, and 0x200.
abbrev two_tasks : Kernel
two_tasks = record one_task { memory = λ a. if a == 0x115 then 2 else 0 }

two_tasks-Scheduled : Scheduled two_tasks (0x100 ∷ 0x200 ∷ [])
unfolding load32 load8
two_tasks-Scheduled = record {
  before = [];
  current = 0x100;
  after = 0x200 ∷ [];
  turns = refl;
  runs = refl;
  queue = (refl, omega arith, (refl, omega arith, refl));
  apart = ((omega arith, tt), (tt, tt));
}

switch_task_example :
    (k' : Kernel) × (switch_task 0x1234 some_registers two_tasks
      ≡ ok (some (loaded k'.memory k'.current_task), k'))
    × Scheduled k' (0x200 ∷ 0x100 ∷ [])
    × (k'.memory ≡ saved two_tasks.memory 0x100 0x1234 some_registers)
    × (k'.current_directory ≡ load32 k'.memory (at_page_directory k'.current_task))
switch_task_example =
    switch_task_lem two_tasks (0x100 ∷ 0x200 ∷ []) 0x1234 some_registers two_tasks-Scheduled
      (omega arith)

-- The state behind a switch.
abbrev turned_once : Kernel
turned_once = record two_tasks {
  memory = saved two_tasks.memory 0x100 0x1234 some_registers;
  current_task = 0x200;
  current_directory =
      load32 (saved two_tasks.memory 0x100 0x1234 some_registers) (at_page_directory 0x200);
}

one_turn : Run (0x100 ∷ 0x200 ∷ []) two_tasks 1 turned_once
unfolding switch_task load32 load8 saved store32 store8
one_turn =
    turn {sw = loaded turned_once.memory 0x200} 0x1234 some_registers start (omega arith) refl

round_robin_example : turned_once.current_task ≡ 0x200
round_robin_example =
    round_robin two_tasks turned_once (0x100 ∷ 0x200 ∷ []) 1 two_tasks-Scheduled (omega arith)
      one_turn

one_task-Scheduled : Scheduled one_task (0x100 ∷ [])
unfolding load32 load8
one_task-Scheduled = record {
  before = [];
  current = 0x100;
  after = [];
  turns = refl;
  runs = refl;
  queue = (refl, omega arith, refl);
  apart = (tt, tt);
}

fork-Scheduled_example :
    (k' : Kernel) × (ts : List ℕ) × (us : List ℕ) × (fork give_task give_directory 1 0x1234
        some_registers one_task
      ≡ ok (2, k'))
    × (0x100 ∷ [] ≡ ts ++ us)
    × (0 < length ts)
    × Scheduled k' (ts ++ 0x200 ∷ us)
    × TaskAt k'.memory 0x200 2 0x8000 0x8010 0x1234 0x1_0000
    × (k'.next_pid ≡ 3)
unfolding load32 load8
fork-Scheduled_example =
    fork-Scheduled give_task give_directory 1 0x1234 some_registers one_task cloned cloned 0x1_0000
      0x200 (0x100 ∷ []) one_task-Scheduled
      (clone_directory-empty give_directory 0x2_0000 one_task one_task 0x1_0000 0x1_0000 refl
        is_cloned (omega arith) (omega arith))
      refl (record { same_task = refl; same_queue = refl; same_next = (no_next, tt) })
      (omega arith, tt) (omega arith) (omega arith) (omega arith, omega arith, omega arith)
      (omega arith, omega arith, omega arith)
