-- ===== src/Task.antt =====
-- IcarusOS/task.c and task.h: the list of tasks, `fork`, the switch to the next task, and the move of the
-- stack. A `task_t` takes 24 bytes: `id` at 0, `esp` at 4, `ebp` at 8, `eip` at 12, `page_directory` at
-- 16 and `next` at 20. The registers that the assembly statements read are arguments, and those that
-- they load are results; the interrupt flag is not modelled, nor is what is printed.
pub mod Queue
pub mod Fork
pub mod Switching
pub mod RoundRobin
pub mod Relocate
pub mod Pages
pub mod Moved
pub mod Started
pub mod Spawned
mod StartTests
mod Tests
use cmsi.Base.{ℕ, zero, suc, ◌+◌, ◌&&◌, ltb, leb, ◌==◌, if◌then◌else◌}
use cmsi.Base.Words.{add32, sub32}
use cmsi.Base.Outcome.{Outcome, stop, out_of_fuel}
use cmsi.Memory.{Memory, load32, store32, memcpy}
use cmsi.Kernel.{Kernel, Cmd, pure, halt, ◌>>=◌, ◌>>◌, get, get32, put32, modify_memory, lift}
use cmsi.Paging.{KmallocAp, get_page, alloc_frame}
use cmsi.Paging.Clone.{clone_directory}
use cmsi.Base.Outcome.{ok}
use cmsi.Base.{◌-◌}
use cmsi.Base.{Option}
use cmsi.Base.{none}
use cmsi.Base.{some}

abbrev pub sizeof_task : ℕ
sizeof_task = 24

-- Where the fields of the task at `t` are.
abbrev pub at_esp : ℕ → ℕ
at_esp t = t + 4

abbrev pub at_ebp : ℕ → ℕ
at_ebp t = t + 8

abbrev pub at_eip : ℕ → ℕ
at_eip t = t + 12

abbrev pub at_page_directory : ℕ → ℕ
at_page_directory t = t + 16

abbrev pub at_next : ℕ → ℕ
at_next t = t + 20

-- The stack and base pointers of the processor.
pub record Registers : Type 0 where
  pub esp : ℕ
  pub ebp : ℕ

-- The first loop of `move_stack`: pages for the new stack, downwards.
unfoldable pub stack_pages : KmallocAp → (fuel bottom i : ℕ) → Cmd (Unit {0})
stack_pages kmalloc_ap zero bottom i = halt out_of_fuel
stack_pages kmalloc_ap (suc n) bottom i =
    if leb bottom i
    then (do
      k ← get
      page ← get_page kmalloc_ap i 1 k.current_directory
      alloc_frame page 0 1
      stack_pages kmalloc_ap n bottom (sub32 i 0x1000))
    else pure tt

-- The last loop of `move_stack`: a word that may be a base pointer of the old stack moves with it.
unfoldable pub remap :
    (old_stack_pointer initial_esp offset : ℕ) → (fuel bottom i : ℕ) → Memory → Outcome Memory
remap old_stack_pointer initial_esp offset zero bottom i m = stop out_of_fuel
remap old_stack_pointer initial_esp offset (suc n) bottom i m =
    let tmp = load32 m i in
    let m' =
      if ltb old_stack_pointer tmp && ltb tmp initial_esp
      then store32 m i (add32 tmp offset)
      else m in
    let rest = remap old_stack_pointer initial_esp offset n bottom (sub32 i 4) m' in
    if ltb bottom i then rest else ok m

-- `move_stack`, with the registers before and behind it. The flush of the TLB changes nothing here.
unfoldable pub move_stack : KmallocAp → (fuel new_stack_start size : ℕ) → Registers → Cmd Registers
move_stack kmalloc_ap fuel new_stack_start size regs = do
  let bottom = sub32 new_stack_start size
  stack_pages kmalloc_ap fuel bottom new_stack_start
  k ← get
  let offset = sub32 new_stack_start k.initial_esp
  let new_stack_pointer = add32 regs.esp offset
  let new_base_pointer = add32 regs.ebp offset
  modify_memory (λ m. memcpy m new_stack_pointer regs.esp (sub32 k.initial_esp regs.esp))
  k ← get
  m ← lift (remap regs.esp k.initial_esp offset fuel bottom new_stack_start k.memory)
  modify_memory (λ _. m)
  pure (record { esp = new_stack_pointer; ebp = new_base_pointer })

-- A new task, with the next id and the page directory that the state gives when it is filled in.
unfoldable pub new_task : (kmalloc : ℕ → Cmd ℕ) → (page_directory : Kernel → ℕ) → Cmd ℕ
new_task kmalloc page_directory = do
  task ← kmalloc sizeof_task
  k ← get
  put32 task k.next_pid
  (λ k. ok (tt, record k { next_pid = add32 k.next_pid 1 }))
  put32 (at_ebp task) 0
  put32 (at_esp task) 0
  put32 (at_eip task) 0
  k ← get
  put32 (at_page_directory task) (page_directory k)
  put32 (at_next task) 0
  pure task

unfoldable pub initialize_tasking :
    (kmalloc : ℕ → Cmd ℕ) → KmallocAp → (fuel : ℕ) → Registers → Cmd Registers
initialize_tasking kmalloc kmalloc_ap fuel regs = do
  regs ← move_stack kmalloc_ap fuel 0xe000_0000 0x2000 regs
  task ← new_task kmalloc (λ k. k.current_directory)
  (λ k. ok (tt, record k { current_task = task; ready_queue = task }))
  pure regs

-- The loop of `fork` that finds the last task, and the write behind it.
unfoldable pub extend : (fuel tmp_task new_task : ℕ) → Cmd (Unit {0})
extend zero tmp_task new_task = halt out_of_fuel
extend (suc n) tmp_task new_task = do
  next ← get32 (at_next tmp_task)
  if next == 0 then put32 (at_next tmp_task) new_task else extend n next new_task

-- What `fork` does when `read_eip` returns: in the parent it sets up the child, and in the child, which
-- comes here by a switch of tasks, it returns 0.
unfoldable pub fork_return : (parent_task new_task eip : ℕ) → Registers → Cmd ℕ
fork_return parent_task new_task eip regs = do
  k ← get
  if k.current_task == parent_task
      then (do
        put32 (at_esp new_task) regs.esp
        put32 (at_ebp new_task) regs.ebp
        put32 (at_eip new_task) eip
        get32 new_task)
      else pure 0

-- `fork`, in the parent: `eip` is what `read_eip` gives.
unfoldable pub fork : (kmalloc : ℕ → Cmd ℕ) → KmallocAp → (fuel eip : ℕ) → Registers → Cmd ℕ
fork kmalloc kmalloc_ap fuel eip regs = do
  k ← get
  let parent_task = k.current_task
  directory ← clone_directory kmalloc_ap k.current_directory
  new_task ← new_task kmalloc (λ _. directory)
  k ← get
  extend fuel k.ready_queue new_task
  fork_return parent_task new_task eip regs

-- What a switch of tasks loads: the registers, the address to jump to and the page directory's physical
-- address.
pub record Switch : Type 0 where
  pub to_eip : ℕ
  pub to_regs : Registers
  pub cr3 : ℕ

-- The value that tells `switch_task` that it has come back by a switch.
abbrev pub switched : ℕ
switched = 0x12345

-- `switch_task`: `none` where it returns to its caller, in the task that called it.
unfoldable pub switch_task : (eip : ℕ) → Registers → Cmd (Option Switch)
switch_task eip regs = do
  k ← get
  if k.current_task == 0 then pure none else if eip == switched then pure none else do
    put32 (at_eip k.current_task) eip
    put32 (at_esp k.current_task) regs.esp
    put32 (at_ebp k.current_task) regs.ebp
    next ← get32 (at_next k.current_task)
    let task = if next == 0 then k.ready_queue else next
    to_eip ← get32 (at_eip task)
    to_esp ← get32 (at_esp task)
    to_ebp ← get32 (at_ebp task)
    directory ← get32 (at_page_directory task)
    (λ k. ok (tt, record k { current_task = task; current_directory = directory }))
    cr3 ← get32 (directory + 0x2000)
    pure (
        some
          (record { to_eip = to_eip; to_regs = record { esp = to_esp; ebp = to_ebp }; cr3 = cr3 }))

unfoldable pub getpid : Cmd ℕ
getpid = do k ← get; get32 k.current_task
