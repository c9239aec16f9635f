-- ===== src/Boot.antt =====
-- `kmain` of IcarusOS/kmain.c: what the kernel does when the loader has started it. The port writes of
-- all drivers are in one list, and the framebuffer is part of the kernel's memory. The text that `printf` makes of a format and its numbers is that
-- of the formatting library; it goes to the screen by `putc`, one character at a time. What the
-- functions that `kmain` calls print is here behind the calls, in its order. The interrupts that may
-- come once the controllers are set up are not modelled.
pub mod Modules
mod Tests
use cmsi.Base.{ℕ, zero, suc, ◌+◌, List, [], ◌∷◌, ◌++◌, ◌==◌, if◌then◌else◌}
use Prim.Native.Char.{code}
use Prim.Native.String.{String}
use cmsi.Base.Words.{add32}
use cmsi.Base.Outcome.{Outcome, ok, stop}
use cmsi.Memory.{load32}
use cmsi.Kernel.{Kernel, Cmd}
use cmsi.Screen.{Screen, Out, fb_write, clear_screen, putc}
use cmsi.Serial.{serial_write}
use cmsi.Descriptors.{GdtEntry, IdtEntry, gdt_init, idt_init, pic_init}
use cmsi.Timer.{timer_init}
use cmsi.KHeap.{kmalloc, kmalloc_ap}
use cmsi.KHeap.Release.{kfree}
use cmsi.Startup.{initialize_paging}
use cmsi.Task.{Registers, initialize_tasking, fork, getpid}

-- What stands around the kernel: the formatting library, the line status port at each of its reads,
-- the addresses of the assembly stubs, the registers that `initialize_tasking` and `fork` read, what
-- `read_eip` gives in `fork`, and the program that the loader has put into memory.
pub record Surroundings (Boot : Type 0) : Type 0 where
  pub format : String → List ℕ → List ℕ
  pub status : ℕ → ℕ
  pub interrupt_handler : ℕ → ℕ
  pub idt_init_address : ℕ
  pub in_tasking : Registers
  pub in_fork : Registers
  pub eip : ℕ
  pub start_program : (address : ℕ) → Boot → Outcome Boot

-- The kernel's memory and globals, the screen's cursor, the port writes of all drivers, and the
-- descriptor tables with their limits. The framebuffer lies in the kernel's memory. `reads` counts the
-- reads of the line status port.
pub record Boot : Type 0 where
  pub kernel : Kernel
  pub cursor_position : ℕ
  pub ports : List Out
  pub reads : ℕ
  pub gdt : List GdtEntry × ℕ
  pub idt : List IdtEntry × ℕ

-- What screen.c sees of it, and the state when the screen has changed.
abbrev pub screen_of : Boot → Screen
screen_of b = record {
  memory = b.kernel.memory;
  cursor_position = b.cursor_position;
  ports = b.ports;
}

abbrev pub with_screen : Boot → Screen → Boot
with_screen b s = record b {
  kernel = record b.kernel { memory = s.memory };
  cursor_position = s.cursor_position;
  ports = s.ports;
}

abbrev pub Step : Type 0 → Type 0
Step A = Boot → Outcome (A × Boot)

abbrev pub and_then : {A B : Type 0} → Outcome (A × Boot) → (A → Step B) → Outcome (B × Boot)
and_then (ok (a, b)) f = f a b
and_then (stop s) f = stop s

infixl 5 ◌>>=◌ ◌>>◌
abbrev pub ◌>>=◌ : {A B : Type 0} → Step A → (A → Step B) → Step B
◌>>=◌ m f b = and_then (m b) f

abbrev pub ◌>>◌ : {A B : Type 0} → Step A → Step B → Step B
m >> n = m >>= λ _. n

abbrev pub with_kernel : {A : Type 0} → Boot → Outcome (A × Kernel) → Outcome (A × Boot)
with_kernel b (ok (a, k)) = ok (a, record b { kernel = k })
with_kernel b (stop s) = stop s

-- A step of the kernel's memory and globals.
abbrev pub in_kernel : {A : Type 0} → Cmd A → Step A
in_kernel c b = with_kernel b (c b.kernel)

abbrev pub on_screen : (Screen → Screen) → Step (Unit {0})
on_screen f b = ok (tt, with_screen b (f (screen_of b)))

abbrev pub out_bytes : List Out → Step (Unit {0})
out_bytes outs b = ok (tt, record b { ports = b.ports ++ outs })

-- The word at `a`, of what the loader has left in memory.
abbrev pub loaded : (a : ℕ) → Step ℕ
loaded a b = ok (load32 b.kernel.memory a, b)

-- The code points of a text.
abbrev pub codes : String → List ℕ
codes String.[] = []
codes (String.◌∷◌ c s) = code c ∷ codes s

-- `init_printf` gives `putc` to the library, which calls it for each character.
unfoldable pub put_all : List ℕ → Screen → Screen
put_all [] s = s
put_all (c ∷ cs) s = put_all cs (putc c s)

abbrev pub printf : Surroundings Boot → String → (numbers : List ℕ) → Step (Unit {0})
printf env text numbers = on_screen (put_all (env.format text numbers))

abbrev pub welcome : String
welcome = "Welcome to Icarus!\nGDT Loaded. \n"

abbrev pub error : String
error = "error with mods_count \n"

unfoldable pub send : Surroundings Boot → (fuel : ℕ) → (buf : List ℕ) → Step (Unit {0})
send env fuel buf b = elim (serial_write env.status fuel b.reads buf) [
  | stop s ↦ stop s
  | ok (outs, reads) ↦ out_bytes outs (record b { reads = reads })
]

unfoldable pub start_timer : (frequency : ℕ) → Step (Unit {0})
start_timer frequency b = elim (timer_init frequency) [
  | stop s ↦ stop s
  | ok outs ↦ out_bytes outs b
]

-- `kmain` up to the reads of what the loader has left.
unfoldable pub set_up : Surroundings Boot → (fuel initial_stack : ℕ) → Step (Unit {0})
set_up env fuel initial_stack = do
  in_kernel (λ k. ok (tt, record k { initial_esp = initial_stack }))
  (λ b. ok (tt, record b { gdt = gdt_init }))
  on_screen clear_screen
  on_screen (fb_write (codes welcome))
  send env fuel (codes welcome)
  printf env "Address of idt_init() = %x \n" (env.idt_init_address ∷ [])
  (λ b. ok (tt, record b { idt = idt_init env.interrupt_handler }))
  out_bytes pic_init
  start_timer 50
  printf env "timer initiated \n" []

-- What `initialize_paging` prints.
abbrev pub paging_texts : Surroundings Boot → Step (Unit {0})
paging_texts env = do
  printf env "page directory switched \n" []
  printf env "asserts done \n" []
  printf env "ordered array placed \n" []
  printf env "start address grabbed \n" []
  printf env "about to clone directory" []
  printf env "about to switch page directory\n" []
  printf env "page directory switched \n" []

-- The test of the heap: two pieces that are given back, and one more.
unfoldable pub test_heap : Surroundings Boot → (fuel a : ℕ) → Step (Unit {0})
test_heap env fuel a = do
  b ← in_kernel (kmalloc fuel 8)
  c ← in_kernel (kmalloc fuel 8)
  printf env "a: %x," (a ∷ [])
  printf env ", b: %x" (b ∷ [])
  printf env "c: %x \n" (c ∷ [])
  in_kernel (kfree c)
  printf env "C free" []
  in_kernel (kfree b)
  d ← in_kernel (kmalloc fuel 12)
  printf env ", d: %x \n" (d ∷ [])

unfoldable pub run_program : Surroundings Boot → (address : ℕ) → Step (Unit {0})
run_program env address b = elim (env.start_program address b) [
  | stop s ↦ stop s
  | ok b' ↦ ok (tt, b')
]

-- `kmain` from the module's end on, once there is one module.
unfoldable pub run_module :
    Surroundings Boot → (fuel rounds address_of_module mod_end : ℕ) → Step (Unit {0})
run_module env fuel rounds address_of_module mod_end = do
  in_kernel (λ k. ok (tt, record k { placement_address = mod_end }))
  a ← in_kernel (kmalloc fuel 8)
  in_kernel (initialize_paging fuel rounds)
  paging_texts env
  printf env "paging up \n" []
  now ← (λ b. ok (b, b))
  do_page_fault1 ← loaded (add32 now.kernel.placement_address 0xfd8)
  printf env "PageFault: %x \n" (do_page_fault1 ∷ [])
  test_heap env fuel a
  _ ← in_kernel (initialize_tasking (kmalloc fuel) (kmalloc_ap fuel) rounds env.in_tasking)
  printf env "about to fork \n" []
  ret ← in_kernel (fork (kmalloc fuel) (kmalloc_ap fuel) rounds env.eip env.in_fork)
  printf env "fork() returned %x, " (ret ∷ [])
  pid ← in_kernel getpid
  printf env "and getpid() returned %x \n" (pid ∷ [])
  printf env "Note: errors begin to occur when switch_task() is called. Debugging in process.\n" []
  printf env "about to start program \n" []
  run_program env (add32 address_of_module 1)
  printf env "program ran \n" []

-- How `kmain` ends: for want of one module, or behind the module's program.
pub data End : Type 0 where
  no_module program_ran : End

-- `ebx` is where the loader has put its `multiboot_info_t`; `mods_count` is at 20, and `mods_addr` at 24.
unfoldable pub kmain : Surroundings Boot → (fuel rounds ebx initial_stack : ℕ) → Step End
kmain env fuel rounds ebx initial_stack = do
  set_up env fuel initial_stack
  flags ← loaded ebx
  printf env "mbinfo flags: %x \n" (flags ∷ [])
  mods_count ← loaded (ebx + 20)
  if mods_count == 1
      then (do
        m ← loaded (ebx + 24)
        address_of_module ← loaded m
        printf env "address_of_module is %x \n" (address_of_module ∷ [])
        mod_end ← loaded (m + 4)
        run_module env fuel rounds address_of_module mod_end
        (λ b. ok (program_ran, b)))
      else do on_screen (fb_write (codes error)); (λ b. ok (no_module, b))
