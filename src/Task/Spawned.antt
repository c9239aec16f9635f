-- ===== src/Task/Spawned.antt =====
-- The sequence of turns after `fork`.
use cmsi.Base.{ℕ, ◌^◌, ◌≤◌, ◌<◌, ◌≡◌, ◌≢◌, sym, ap, ◌∙◌, arith}
use cmsi.Base.{List, [], ◌∷◌, ◌++◌, length, length-append}
use mathlib.Core.Path.{subst}
use mathlib.Core.List.{append_assoc}
use cmsi.Base.Words.{add32}
use cmsi.Base.Outcome.{ok}
use cmsi.Kernel.{Kernel, Cmd}
use cmsi.Paging.{KmallocAp}
use cmsi.Paging.Clone.{clone_directory}
use cmsi.Task.{Registers, fork}
use cmsi.Task.Queue.{IsTasks, Apart, All, All-append, Disjoint}
use cmsi.Task.Fork.{TaskAt, fork_lem}
use cmsi.Task.Switching.{Scheduled}
use cmsi.Task.RoundRobin.{KeepsTasks, keeps-Scheduled, All-listed}

Apart-swap : (t u : ℕ) → Apart t u → Apart u t
Apart-swap t u h = omega arith

-- A task that is apart from the others can be the last.
Disjoint-append :
    (ts : List ℕ) (new : ℕ) → Disjoint ts → All (Apart new) ts → Disjoint (ts ++ new ∷ [])
Disjoint-append [] new d h = (tt, tt)
Disjoint-append (t ∷ ts) new (far, d) (h, hs) =
    (All-append (Apart t) ts (new ∷ []) far (Apart-swap new t h, tt), Disjoint-append ts new d hs)

-- What `fork` makes of the list `ts`.
Spawns : (k₂ k' : Kernel) (ts : List ℕ) (new eip directory : ℕ) → Registers → Type 0
Spawns k₂ k' ts new eip directory regs =
    IsTasks k'.memory k'.ready_queue (ts ++ new ∷ [])
    × TaskAt k'.memory new k₂.next_pid regs.esp regs.ebp eip directory
    × (k'.next_pid ≡ add32 k₂.next_pid 1)

fork-list :
    (kmalloc : ℕ → Cmd ℕ) (kmalloc_ap : KmallocAp) (fuel eip : ℕ) (regs : Registers)
    (k k₁ k₂ : Kernel) (directory new : ℕ) (ts : List ℕ)
    → clone_directory kmalloc_ap k.current_directory k ≡ ok (directory, k₁)
    → kmalloc 24 k₁ ≡ ok (new, k₂)
    → k₂.current_task ≡ k.current_task
    → IsTasks k₂.memory k₂.ready_queue ts
    → Disjoint ts
    → All (Apart new) ts
    → 0 < length ts
    → length ts ≤ fuel
    → new ≢ 0
    → (new < 2 ^ 32) × (directory < 2 ^ 32) × (k₂.next_pid < 2 ^ 32)
    → (eip < 2 ^ 32) × (regs.esp < 2 ^ 32) × (regs.ebp < 2 ^ 32)
    → (k' : Kernel) × (fork kmalloc kmalloc_ap fuel eip regs k ≡ ok (k₂.next_pid, k'))
      × Spawns k₂ k' ts new eip directory regs
      × (k'.current_task ≡ k.current_task)
unfolding Spawns
fork-list kmalloc kmalloc_ap fuel eip regs k k₁ k₂ d new [] cloned given same q apart away some
      enough some_new words regs_words =
    absurd (omega arith)
fork-list kmalloc kmalloc_ap fuel eip regs k k₁ k₂ d new (t ∷ ts) cloned given same q apart away
      some enough some_new words regs_words =
    let (k', ran, queue, child, pid, current) =
      fork_lem kmalloc kmalloc_ap fuel eip regs k k₁ k₂ d new t ts cloned given same q apart away
        (omega arith) some_new words regs_words in
    (k', ran, (queue, child, pid), current)

-- From a state in which `order` has the tasks in the order of their turns, where cloning gives a
-- directory and kmalloc a place for a task, apart from the tasks and not 0, with both leaving the
-- list of tasks alone, fork in the parent returns the next id, with fuel for the tasks: the new task
-- has that id, the registers, the instruction pointer and the directory, and its turn comes behind
-- the first tasks of `order`, the parent at least, and in front of the others; the next id has grown
-- by one.
pub fork-Scheduled :
    (kmalloc : ℕ → Cmd ℕ) (kmalloc_ap : KmallocAp) (fuel eip : ℕ) (regs : Registers)
    (k k₁ k₂ : Kernel) (directory new : ℕ) (order : List ℕ)
    → Scheduled k order
    → clone_directory kmalloc_ap k.current_directory k ≡ ok (directory, k₁)
    → kmalloc 24 k₁ ≡ ok (new, k₂)
    → KeepsTasks order k k₂
    → All (Apart new) order
    → length order ≤ fuel
    → new ≢ 0
    → (new < 2 ^ 32) × (directory < 2 ^ 32) × (k₂.next_pid < 2 ^ 32)
    → (eip < 2 ^ 32) × (regs.esp < 2 ^ 32) × (regs.ebp < 2 ^ 32)
    → (k' : Kernel) × (ts : List ℕ) × (us : List ℕ) × (fork kmalloc kmalloc_ap fuel eip regs k
        ≡ ok (k₂.next_pid, k'))
      × (order ≡ ts ++ us)
      × (0 < length ts)
      × Scheduled k' (ts ++ new ∷ us)
      × TaskAt k'.memory new k₂.next_pid regs.esp regs.ebp eip directory
      × (k'.next_pid ≡ add32 k₂.next_pid 1)
unfolding Spawns
fork-Scheduled kmalloc kmalloc_ap fuel eip regs k k₁ k₂ d new order scheduled cloned given keeps
      away enough some_new words regs_words =
    let s = keeps-Scheduled k k₂ order keeps scheduled in
    let list = s.before ++ (s.current ∷ s.after) in
    let long : length list ≡ length order = omega (
      arith,
      length-append s.before (s.current ∷ s.after),
      length-append s.after s.before,
      ap (λ (l : List ℕ). length l) s.turns,
    ) in
    let apart = All-listed (Apart new) k₂ order s away in
    let (k', ran, (queue, child, pid), current) =
      fork-list kmalloc kmalloc_ap fuel eip regs k k₁ k₂ d new list cloned given keeps.same_task
        s.queue s.apart apart (omega (arith, length-append s.before (s.current ∷ s.after)))
        (omega (arith, long)) some_new words regs_words in
    let regroup = append_assoc s.before (s.current ∷ s.after) (new ∷ []) in
    (
      k',
      s.current ∷ s.after,
      s.before,
      ran,
      s.turns,
      omega arith,
      record {
        before = s.before;
        current = s.current;
        after = s.after ++ new ∷ [];
        turns = ap (λ l. s.current ∷ l) (sym (append_assoc s.after (new ∷ []) s.before));
        runs = current ∙ sym keeps.same_task ∙ s.runs;
        queue = subst (IsTasks k'.memory k'.ready_queue) regroup queue;
        apart = subst Disjoint regroup (Disjoint-append list new s.apart apart);
      },
      child,
      pid,
    )
