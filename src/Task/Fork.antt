-- ===== src/Task/Fork.antt =====
-- About `fork` of IcarusOS/task.c: the new task, and the list of tasks.
use cmsi.Base.{ℕ, ◌+◌, ◌^◌, ◌≤◌, ◌<◌, ◌≡◌, ◌≢◌, refl, sym, ap, ◌∙◌, arith}
use cmsi.Base.{List, [], ◌∷◌, ◌++◌, length, true, ◌==◌}
use mathlib.Core.Path.{subst}
use cmsi.Base.{◌⊎◌}
use cmsi.Base.Words.{add32}
use cmsi.Base.Outcome.{ok}
use cmsi.Memory.{Memory, load32, store32}
use cmsi.Memory.Access.{load32-store32_self, load32-store32_ne}
use cmsi.Kernel.{Kernel, Cmd}
use cmsi.Paging.{KmallocAp}
use cmsi.Paging.Clone.{clone_directory}
use cmsi.Task.{
  Registers, fork, fork_return, new_task, at_esp, at_ebp, at_eip, at_page_directory, at_next,
}
use cmsi.Task.Queue.{
  IsTasks, Apart, All, All-map, All-append, Disjoint, agree-IsTasks, extend_lem, last_of, All-last,
}
use cmsi.Task.{extend}

-- The words of a task.
pub record TaskAt (m : Memory) (t id esp ebp eip page_directory : ℕ) : Type 0 where
  pub id_word : load32 m t ≡ id
  pub esp_word : load32 m (at_esp t) ≡ esp
  pub ebp_word : load32 m (at_ebp t) ≡ ebp
  pub eip_word : load32 m (at_eip t) ≡ eip
  pub directory_word : load32 m (at_page_directory t) ≡ page_directory

-- The memory when `new_task` has written the task.
unfoldable pub written : Memory → (t id page_directory : ℕ) → Memory
written m t id page_directory =
    store32
      (store32 (store32 (store32 (store32 (store32 m t id) (at_ebp t) 0) (at_esp t) 0) (at_eip t) 0)
        (at_page_directory t) page_directory)
      (at_next t) 0

new_task-run :
    (kmalloc : ℕ → Cmd ℕ) (page_directory : ℕ) (k k' : Kernel) (t : ℕ)
    → kmalloc 24 k ≡ ok (t, k')
    → new_task kmalloc (λ _. page_directory) k
      ≡ ok (
        t,
        record k' {
          memory = written k'.memory t k'.next_pid page_directory;
          next_pid = add32 k'.next_pid 1;
        },
      )
unfolding new_task written
new_task-run kmalloc page_directory k k' t run = simp run

pub written-TaskAt :
    (m : Memory) (t id page_directory : ℕ)
    → id < 2 ^ 32
    → page_directory < 2 ^ 32
    → TaskAt (written m t id page_directory) t id 0 0 0 page_directory
      × (load32 (written m t id page_directory) (at_next t) ≡ 0)
unfolding written
written-TaskAt m t id d h word = (
  record {
    id_word =
        load32-store32_ne _ (at_next t) 0 t (omega arith)
        ∙ load32-store32_ne _ (at_page_directory t) d t (omega arith)
        ∙ load32-store32_ne _ (at_eip t) 0 t (omega arith)
        ∙ load32-store32_ne _ (at_esp t) 0 t (omega arith)
        ∙ load32-store32_ne _ (at_ebp t) 0 t (omega arith)
        ∙ load32-store32_self m t id h;
    esp_word =
        load32-store32_ne _ (at_next t) 0 (at_esp t) (omega arith)
        ∙ load32-store32_ne _ (at_page_directory t) d (at_esp t) (omega arith)
        ∙ load32-store32_ne _ (at_eip t) 0 (at_esp t) (omega arith)
        ∙ load32-store32_self _ (at_esp t) 0 (omega arith);
    ebp_word =
        load32-store32_ne _ (at_next t) 0 (at_ebp t) (omega arith)
        ∙ load32-store32_ne _ (at_page_directory t) d (at_ebp t) (omega arith)
        ∙ load32-store32_ne _ (at_eip t) 0 (at_ebp t) (omega arith)
        ∙ load32-store32_ne _ (at_esp t) 0 (at_ebp t) (omega arith)
        ∙ load32-store32_self _ (at_ebp t) 0 (omega arith);
    eip_word =
        load32-store32_ne _ (at_next t) 0 (at_eip t) (omega arith)
        ∙ load32-store32_ne _ (at_page_directory t) d (at_eip t) (omega arith)
        ∙ load32-store32_self _ (at_eip t) 0 (omega arith);
    directory_word =
        load32-store32_ne _ (at_next t) 0 (at_page_directory t) (omega arith)
        ∙ load32-store32_self _ (at_page_directory t) d word;
  },
  load32-store32_self _ (at_next t) 0 (omega arith),
)

-- The words of other structures stay.
written-away :
    (m : Memory) (t id page_directory u : ℕ)
    → Apart t u
    → load32 (written m t id page_directory) (at_next u) ≡ load32 m (at_next u)
unfolding written
written-away m t id d u away =
    load32-store32_ne _ (at_next t) 0 (at_next u) (omega arith)
    ∙ load32-store32_ne _ (at_page_directory t) d (at_next u) (omega arith)
    ∙ load32-store32_ne _ (at_eip t) 0 (at_next u) (omega arith)
    ∙ load32-store32_ne _ (at_esp t) 0 (at_next u) (omega arith)
    ∙ load32-store32_ne _ (at_ebp t) 0 (at_next u) (omega arith)
    ∙ load32-store32_ne m t id (at_next u) (omega arith)

-- The memory when the parent has set up the child.
unfoldable child_memory : Memory → (t eip : ℕ) → Registers → Memory
child_memory m t eip regs =
    store32 (store32 (store32 m (at_esp t) regs.esp) (at_ebp t) regs.ebp) (at_eip t) eip

-- Words outside `esp`, `ebp` and `eip` of the child stay.
child_memory-away :
    (m : Memory) (t eip : ℕ) (regs : Registers) (a : ℕ)
    → (a + 4 ≤ t + 4) ⊎ (t + 16 ≤ a)
    → load32 (child_memory m t eip regs) a ≡ load32 m a
unfolding child_memory
child_memory-away m t eip regs a away =
    load32-store32_ne _ (at_eip t) eip a (omega arith)
    ∙ load32-store32_ne _ (at_ebp t) regs.ebp a (omega arith)
    ∙ load32-store32_ne m (at_esp t) regs.esp a (omega arith)

child_memory-TaskAt :
    (m : Memory) (t id d eip : ℕ) (regs : Registers)
    → eip < 2 ^ 32
    → regs.esp < 2 ^ 32
    → regs.ebp < 2 ^ 32
    → load32 m t ≡ id
    → load32 m (at_page_directory t) ≡ d
    → TaskAt (child_memory m t eip regs) t id regs.esp regs.ebp eip d
unfolding child_memory
child_memory-TaskAt m t id d eip regs h hs hb i e = record {
  id_word = child_memory-away m t eip regs t (omega arith) ∙ i;
  esp_word =
      load32-store32_ne _ (at_eip t) eip (at_esp t) (omega arith)
      ∙ load32-store32_ne _ (at_ebp t) regs.ebp (at_esp t) (omega arith)
      ∙ load32-store32_self m (at_esp t) regs.esp hs;
  ebp_word =
      load32-store32_ne _ (at_eip t) eip (at_ebp t) (omega arith)
      ∙ load32-store32_self _ (at_ebp t) regs.ebp hb;
  eip_word = load32-store32_self _ (at_eip t) eip h;
  directory_word = child_memory-away m t eip regs (at_page_directory t) (omega arith) ∙ e;
}

fork_return-run :
    (k : Kernel) (t id eip : ℕ) (regs : Registers)
    → load32 k.memory t ≡ id
    → fork_return k.current_task t eip regs k
      ≡ ok (id, record k { memory = child_memory k.memory t eip regs })
unfolding fork_return child_memory
fork_return-run k t id eip regs i =
    let parent : (k.current_task == k.current_task) ≡ true = ground arith in
    let same : load32 (child_memory k.memory t eip regs) t ≡ id =
      child_memory-away k.memory t eip regs t (omega arith) ∙ i in
    simp (parent, same)

-- Where cloning gives a directory and kmalloc a place for a task, apart from the tasks of the list
-- and not 0, fork in the parent returns the next id, with fuel for the list: the new task is behind
-- the last of the list with that id, the registers, the instruction pointer and the directory, the
-- next id has grown by one, and the current task is the same.
pub fork_lem :
    (kmalloc : ℕ → Cmd ℕ) (kmalloc_ap : KmallocAp) (fuel eip : ℕ) (regs : Registers)
    (k k₁ k₂ : Kernel) (directory new t : ℕ) (ts : List ℕ)
    → clone_directory kmalloc_ap k.current_directory k ≡ ok (directory, k₁)
    → kmalloc 24 k₁ ≡ ok (new, k₂)
    → k₂.current_task ≡ k.current_task
    → IsTasks k₂.memory k₂.ready_queue (t ∷ ts)
    → Disjoint (t ∷ ts)
    → All (Apart new) (t ∷ ts)
    → length ts < fuel
    → new ≢ 0
    → (new < 2 ^ 32) × (directory < 2 ^ 32) × (k₂.next_pid < 2 ^ 32)
    → (eip < 2 ^ 32) × (regs.esp < 2 ^ 32) × (regs.ebp < 2 ^ 32)
    → (k' : Kernel) × (fork kmalloc kmalloc_ap fuel eip regs k ≡ ok (k₂.next_pid, k'))
      × IsTasks k'.memory k'.ready_queue (t ∷ ts ++ new ∷ [])
      × TaskAt k'.memory new k₂.next_pid regs.esp regs.ebp eip directory
      × (k'.next_pid ≡ add32 k₂.next_pid 1)
      × (k'.current_task ≡ k.current_task)
unfolding fork
fork_lem kmalloc kmalloc_ap fuel eip regs k k₁ k₂ d new t ts cloned given parent q apart away enough
      some_new (word, d_word, pid_word) (eip_word, esp_word, ebp_word) =
    let m = written k₂.memory new k₂.next_pid d in
    let k₃ = record k₂ { memory = m; next_pid = add32 k₂.next_pid 1 } in
    let (made, end) = written-TaskAt k₂.memory new k₂.next_pid d pid_word d_word in
    let q₃ =
      agree-IsTasks k₂.memory m k₂.ready_queue (t ∷ ts)
        (All-map (Apart new) _ (t ∷ ts) (λ u a. written-away k₂.memory new k₂.next_pid d u a) away)
        q in
    let (head, _, _) = q in
    let (m', ran, what, q₄) =
      extend_lem fuel k₃ t ts new enough (subst (λ p. IsTasks m p (t ∷ ts)) head q₃) apart away end
        some_new word in
    let k₄ = record k₃ { memory = m' } in
    let ran₃ = subst (λ p. extend fuel p new k₃ ≡ ok (tt, k₄)) (sym head) ran in
    let apart_last = All-last (Apart new) t ts away.0 away.1 in
    let kept = λ (a : ℕ) (h : (new ≤ a) × (a ≤ new + 16)).
      ap (λ (n : Memory). load32 n a) what
      ∙ load32-store32_ne m (at_next (last_of t ts)) new a (omega arith) in
    let id = kept new (omega arith) ∙ made.id_word in
    let dir = kept (at_page_directory new) (omega arith) ∙ made.directory_word in
    let q₅ =
      agree-IsTasks m' (child_memory m' new eip regs) t (t ∷ ts ++ new ∷ [])
        (All-append _ (t ∷ ts) (new ∷ [])
          (All-map (Apart new) _ (t ∷ ts)
            (λ u a. child_memory-away m' new eip regs (at_next u) (omega arith)) away)
          (child_memory-away m' new eip regs (at_next new) (omega arith), tt))
        q₄ in
    (
      record k₄ { memory = child_memory m' new eip regs },
      simp (cloned, new_task-run kmalloc d k₁ k₂ new given, ran₃)
          (subst
            (λ c.
              fork_return c new eip regs k₄
              ≡ ok (k₂.next_pid, record k₄ { memory = child_memory m' new eip regs }))
            parent (fork_return-run k₄ new k₂.next_pid eip regs id)),
      subst (λ p. IsTasks (child_memory m' new eip regs) p (t ∷ ts ++ new ∷ [])) (sym head) q₅,
      child_memory-TaskAt m' new k₂.next_pid d eip regs eip_word esp_word ebp_word id dir,
      refl,
      parent,
    )
