-- ===== src/Kernel.antt =====
-- The state that kheap.c, paging.c and task.c share through their globals, and commands over it.
-- The structures that C reaches by pointers lie in `memory`, at the offsets that the i386 ABI gives
-- them; the kernel heap's `heap_t` is a record of its own, since nothing else points into it.
use cmsi.Base.{ℕ, Bool, true, false, Option, none, some, ◌≡◌, arith}
use cmsi.Base.Outcome.{Outcome, ok, stop, null_pointer, assertion_failed, Stop}
use cmsi.Memory.{Memory, load8, store8, load32, store32}
use cmsi.OrderedArray.{OrderedArray}

-- heap_t
pub record Heap : Type 0 where
  pub index : OrderedArray Memory
  pub start_address : ℕ
  pub end_address : ℕ
  pub max_address : ℕ
  pub supervisor : ℕ
  pub readonly : ℕ

-- `kheap` is `none` where the C pointer is 0.
pub record Kernel : Type 0 where
  pub memory : Memory
  pub placement_address : ℕ
  pub kheap : Option Heap
  pub kernel_directory : ℕ
  pub current_directory : ℕ
  pub frames : ℕ
  pub nframes : ℕ
  pub current_task : ℕ
  pub ready_queue : ℕ
  pub next_pid : ℕ
  pub initial_esp : ℕ

abbrev pub Cmd : Type 0 → Type 0
Cmd A = Kernel → Outcome (A × Kernel)

abbrev pub pure : {A : Type 0} → A → Cmd A
pure a k = ok (a, k)

abbrev pub halt : {A : Type 0} → Stop → Cmd A
halt s k = stop s

abbrev pub and_then : {A B : Type 0} → Outcome (A × Kernel) → (A → Cmd B) → Outcome (B × Kernel)
and_then (ok (a, k)) f = f a k
and_then (stop s) f = stop s

infixl 5 ◌>>=◌ ◌>>◌
abbrev pub ◌>>=◌ : {A B : Type 0} → Cmd A → (A → Cmd B) → Cmd B
◌>>=◌ m f k = and_then (m k) f

abbrev pub ◌>>◌ : {A B : Type 0} → Cmd A → Cmd B → Cmd B
m >> n = m >>= λ _. n

-- A step that leaves the kernel's state alone.
abbrev pub lift : {A : Type 0} → Outcome A → Cmd A
lift (ok a) k = ok (a, k)
lift (stop s) k = stop s

abbrev pub get : Cmd Kernel
get k = ok (k, k)

abbrev pub check : Bool → Cmd (Unit {0})
check true k = ok (tt, k)
check false k = stop assertion_failed

abbrev pub modify_memory : (Memory → Memory) → Cmd (Unit {0})
modify_memory f k = ok (tt, record k { memory = f k.memory })

abbrev pub get32 : ℕ → Cmd ℕ
get32 a k = ok (load32 k.memory a, k)

abbrev pub get8 : ℕ → Cmd ℕ
get8 a k = ok (load8 k.memory a, k)

abbrev pub put32 : ℕ → ℕ → Cmd (Unit {0})
put32 a v = modify_memory (λ m. store32 m a v)

abbrev pub put8 : ℕ → ℕ → Cmd (Unit {0})
put8 a v = modify_memory (λ m. store8 m a v)

-- The heap behind `kheap`.
unfoldable pub the_heap : Cmd Heap
the_heap k = elim (k.kheap) [ none ↦ stop null_pointer | some h ↦ ok (h, k) ]

abbrev pub set_heap : Heap → Cmd (Unit {0})
set_heap h k = ok (tt, record k { kheap = some h })

pub the_heap-some : (k : Kernel) (h : Heap) → k.kheap ≡ some h → the_heap k ≡ ok (h, k)
unfolding the_heap
the_heap-some k h e = ground arith
