-- ===== src/Task/Started.antt =====
-- About `initialize_tasking` of IcarusOS/task.c.
use cmsi.Base.{ℕ, ◌+◌, ◌-◌, ◌*◌, ◌%◌, ◌^◌, ◌≤◌, ◌<◌, ◌≡◌, ◌≢◌, ◌⊎◌, refl, ap, ◌∙◌, arith}
use cmsi.Base.{[], ◌∷◌}
use cmsi.Base.Words.{add32}
use cmsi.Base.Outcome.{ok}
use cmsi.Memory.{Memory, load32}
use cmsi.Memory.Access.{load32_agree, store32_outside}
use cmsi.Kernel.{Kernel, Cmd}
use cmsi.Paging.{KmallocAp}
use cmsi.Base.{◌++◌, true, some}
use mathlib.Core.Path.{subst}
use cmsi.Kernel.{Heap}
use cmsi.KHeap.{alloc, kmalloc, kmalloc_with}
use cmsi.KHeap.Pieces.{Piece, piece, total, Tiles, Tiles-piece, total-Tiles, agree-Tiles}
use cmsi.KHeap.WellFormed.{WellFormed}
use cmsi.KHeap.Alloc.{alloc_lem}
use cmsi.Task.{Registers, move_stack, new_task, initialize_tasking}
use cmsi.Task.Relocate.{relocated}
use cmsi.Task.Pages.{Beside, StackTables}
use cmsi.Task.Moved.{move_stack_lem}
use cmsi.Task.Fork.{TaskAt, written, written-TaskAt}
use cmsi.Task.Switching.{Scheduled}
use cmsi.Base.{List}
use cmsi.Base.{suc}
use cmsi.Base.{inl}

-- The bytes outside the new stack, the pages that map it and the bitset of frames are those of `k`.
abbrev pub AroundStack : Kernel → Memory → Type 0
AroundStack k m =
    (b : ℕ)
    → Beside k.memory k.current_directory k.frames k.nframes 0xdfff_e000 0xe000_0000 b
    → (b < 0xdfff_e004) ⊎ (0xe000_0004 ≤ b)
    → m b ≡ k.memory b

-- Whatever is in the new stack, the pages that map it and the bitset of frames, `kmalloc` gives the task
-- a place outside the new stack, and leaves that, the directory and the next id as they are.
abbrev pub GivesTask : (kmalloc : ℕ → Cmd ℕ) → Kernel → Type 0
GivesTask kmalloc k =
    (m : Memory)
    → AroundStack k m
    → (t : ℕ) × (k₂ : Kernel) × (kmalloc 24 (record k { memory = m }) ≡ ok (t, k₂))
      × (t ≢ 0)
      × ((t + 24 ≤ 0xdfff_e000) ⊎ (0xe000_0000 ≤ t))
      × (k₂.current_directory ≡ k.current_directory)
      × (k₂.next_pid ≡ k.next_pid)
      × ((b : ℕ) → 0xdfff_e000 ≤ b → b < 0xe000_0000 → k₂.memory b ≡ m b)

written_outside :
    (m : Memory) (t id page_directory b : ℕ)
    → (b < t) ⊎ (t + 24 ≤ b)
    → written m t id page_directory b ≡ m b
unfolding written
written_outside m t id d b o =
    store32_outside _ (t + 20) 0 b (omega arith)
    ∙ store32_outside _ (t + 16) d b (omega arith)
    ∙ store32_outside _ (t + 12) 0 b (omega arith)
    ∙ store32_outside _ (t + 4) 0 b (omega arith)
    ∙ store32_outside _ (t + 8) 0 b (omega arith)
    ∙ store32_outside m t id b (omega arith)

-- The kernel when the first task is there.
abbrev tasked : Kernel → (t : ℕ) → Kernel
tasked k₂ t = record k₂ {
  memory = written k₂.memory t k₂.next_pid k₂.current_directory;
  next_pid = add32 k₂.next_pid 1;
  current_task = t;
  ready_queue = t;
}

initialize_tasking-run :
    (kmalloc : ℕ → Cmd ℕ) (kmalloc_ap : KmallocAp) (fuel t : ℕ) (regs regs' : Registers)
    (k k₁ k₂ : Kernel)
    → move_stack kmalloc_ap fuel 0xe000_0000 0x2000 regs k ≡ ok (regs', k₁)
    → kmalloc 24 k₁ ≡ ok (t, k₂)
    → initialize_tasking kmalloc kmalloc_ap fuel regs k ≡ ok (regs', tasked k₂ t)
unfolding initialize_tasking new_task written
initialize_tasking-run kmalloc kmalloc_ap fuel t regs regs' k k₁ k₂ moved given =
    simp (moved, given)

-- The state of the only task.
tasked-Scheduled :
    (k₂ : Kernel) (t id directory : ℕ)
    → k₂.next_pid ≡ id
    → k₂.current_directory ≡ directory
    → t ≢ 0
    → id < 2 ^ 32
    → directory < 2 ^ 32
    → Scheduled (tasked k₂ t) (t ∷ []) × TaskAt (tasked k₂ t).memory t id 0 0 0 directory
tasked-Scheduled k₂ t id d pid dir some_task word dir_word =
    let (at, next) =
      written-TaskAt k₂.memory t k₂.next_pid k₂.current_directory (omega (arith, pid))
        (omega (arith, dir)) in
    (
      record {
        before = [];
        current = t;
        after = [];
        turns = refl;
        runs = refl;
        queue = (refl, some_task, next);
        apart = (tt, tt);
      },
      record {
        id_word = at.id_word ∙ pid;
        esp_word = at.esp_word;
        ebp_word = at.ebp_word;
        eip_word = at.eip_word;
        directory_word = at.directory_word ∙ dir;
      },
    )

module _ (kmalloc : ℕ → Cmd ℕ) (kmalloc_ap : KmallocAp) (fuel : ℕ) (regs : Registers)
    (k : Kernel) where
  abbrev pub moved_by : ℕ
  moved_by = 0xe000_0000 - k.initial_esp

  -- Where the old stack has less than two pages, in whole words below the new one, the pages of the
  -- new stack have page tables, which lie apart from the directory and the old stack, as the bitset
  -- of 32 to 2^20 frames does, no address wraps around, and kmalloc, with memory as it was but for
  -- the new stack, the pages that map it and the bitset, gives the task a place outside the new
  -- stack and leaves that, the directory and the next id alone, `initialize_tasking` returns with
  -- more fuel than there are words in the new stack: the stack and base pointers have moved by the
  -- distance between the ends of the two stacks; the words of the old stack stand at the new place,
  -- with each that points strictly inside the old stack moved by the same distance; and the task at
  -- the place given is the only one and the current one, with the next id and the current directory,
  -- and the next id has grown by one.
  pub initialize_tasking_lem :
      0x800 < fuel
      → regs.esp ≤ k.initial_esp
      → k.initial_esp ≤ 0xdfff_e000
      → k.initial_esp - regs.esp < 0x2000
      → (k.initial_esp - regs.esp) % 4 ≡ 0
      → regs.ebp + moved_by < 2 ^ 32
      → StackTables k.memory k.current_directory k.frames k.nframes regs.esp k.initial_esp
          0xdfff_e000 0xe000_0000
      → GivesTask kmalloc k
      → k.next_pid < 2 ^ 32
      → k.current_directory < 2 ^ 32
      → (t : ℕ) × (k' : Kernel) × (initialize_tasking kmalloc kmalloc_ap fuel regs k
          ≡ ok (record { esp = regs.esp + moved_by; ebp = regs.ebp + moved_by }, k'))
        × Scheduled k' (t ∷ [])
        × TaskAt k'.memory t k.next_pid 0 0 0 k.current_directory
        × (k'.next_pid ≡ add32 k.next_pid 1)
        × ((j : ℕ)
            → regs.esp + 4 * j + 4 ≤ k.initial_esp
            → load32 k'.memory (regs.esp + moved_by + 4 * j)
              ≡ relocated regs.esp k.initial_esp moved_by (load32 k.memory (regs.esp + 4 * j)))
  initialize_tasking_lem enough in_stack below room aligned base tables gives word dir_word =
      let (m₁, moved, words, _, around) =
        move_stack_lem kmalloc_ap fuel 0xdfff_e000 2 regs k (omega arith) (omega arith)
          (omega arith) in_stack below (omega arith) aligned base tables in
      let (t, k₂, given, some_task, away, dir, pid, same) =
        gives m₁ (λ b o p. around b o (omega arith)) in
      let (scheduled, at) =
        tasked-Scheduled k₂ t k.next_pid k.current_directory pid dir some_task word dir_word in
      (
        t,
        tasked k₂ t,
        initialize_tasking-run kmalloc kmalloc_ap fuel t regs
            (record { esp = regs.esp + moved_by; ebp = regs.ebp + moved_by }) k
            (record k { memory = m₁ }) k₂ moved given,
        scheduled,
        at,
        ap (λ p. add32 p 1) pid,
        λ j inside.
            load32_agree (tasked k₂ t).memory m₁ (regs.esp + moved_by + 4 * j) (λ b l u.
              written_outside k₂.memory t k₂.next_pid k₂.current_directory b (omega arith)
              ∙ same b (omega arith) (omega arith))
            ∙ words j inside,
      )

kmalloc-run :
    (k k' : Kernel) (heap : Heap) (fuel size addr : ℕ)
    → k.kheap ≡ some heap
    → alloc fuel size 0 k ≡ ok (addr, k')
    → kmalloc fuel size k ≡ ok (addr, k')
unfolding kmalloc kmalloc_with
kmalloc-run k k' heap fuel size addr is_heap ran = ground arith

-- `kmalloc` of kheap.c gives a task its place, if the heap has a hole for it and lies outside the new
-- stack, the pages that map that and the bitset of frames.
pub kmalloc-GivesTask :
    (k : Kernel) (heap : Heap) (before : List Piece) (s : ℕ) (after : List Piece) (fuel : ℕ)
    → WellFormed k heap (before ++ piece s true ∷ after)
    → 44 ≤ s
    → heap.end_address ≤ 0xdfff_e000
    → ((b : ℕ)
        → heap.start_address ≤ b
        → b < heap.end_address
        → Beside k.memory k.current_directory k.frames k.nframes 0xdfff_e000 0xe000_0000 b)
    → GivesTask (kmalloc (suc fuel)) k
kmalloc-GivesTask k heap before s after fuel wf room below apart m around =
    let ps = before ++ piece s true ∷ after in
    let ends =
      total-Tiles k.memory heap.end_address heap.start_address ps heap.end_address wf.tiled in
    let wf₁ : WellFormed (record k { memory = m }) heap ps = record {
      is_heap = wf.is_heap;
      tiled =
          agree-Tiles k.memory m heap.end_address heap.start_address ps heap.end_address
            (λ b l u. around b (apart b l u) (omega arith)) wf.tiled;
      indexed = wf.indexed;
      valid = wf.valid;
      room = wf.room;
      compares = wf.compares;
      word = wf.word;
    } in
    let (addr, k', ran, taken) =
      alloc_lem (record k { memory = m }) heap before s after 24 fuel wf₁ (omega arith) in
    let (_, inside) =
      Tiles-piece m heap.end_address heap.start_address (heap.start_address + total taken.before)
        taken.before (piece taken.hole_size true) taken.after heap.end_address refl
        (subst (λ x. Tiles m heap.end_address heap.start_address x heap.end_address) taken.parts
          wf₁.tiled) in
    (
      addr,
      k',
      kmalloc-run (record k { memory = m }) k' heap (suc fuel) 24 addr wf.is_heap ran,
      (λ e. omega (arith, e, taken.data_address)),
      inl (omega (arith, taken.data_address, taken.enough, inside)),
      ap (λ x. x.current_directory) taken.others,
      ap (λ x. x.next_pid) taken.others,
      (λ b l u. taken.outside b (omega (arith, taken.place, inside))),
    )
