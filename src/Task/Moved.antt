-- ===== src/Task/Moved.antt =====
-- About the whole of `move_stack` in IcarusOS/task.c.
use cmsi.Base.{ℕ, ◌+◌, ◌-◌, ◌*◌, ◌/◌, ◌%◌, ◌^◌, ◌≤◌, ◌<◌, ◌≡◌, ◌⊎◌, ap, ◌∙◌, arith}
use mathlib.Core.Path.{subst}
use cmsi.Base.Words.{add32, sub32}
use cmsi.Base.Outcome.{ok}
use cmsi.Memory.{Memory, load8, load32, memcpy}
use cmsi.Memory.Access.{load32_agree}
use cmsi.Memory.Blocks.{memcpy_lem}
use cmsi.Kernel.{Kernel}
use cmsi.Paging.{KmallocAp}
use cmsi.Task.{Registers, stack_pages, remap, move_stack}
use cmsi.Task.Relocate.{relocated, remap_lem}
use cmsi.Task.Pages.{Beside, StackTables, stack_pages_lem}

-- A word that `memcpy` has copied.
load32-memcpy :
    (m : Memory) (dest src len d : ℕ)
    → (dest + len ≤ src) ⊎ (src + len ≤ dest)
    → d + 4 ≤ len
    → load32 (memcpy m dest src len) (dest + d) ≡ load32 m (src + d)
unfolding load32 load8
load32-memcpy m dest src len d apart inside =
    let at : (e : ℕ) → e < 4 → memcpy m dest src len (dest + d + e) ≡ m (src + d + e) % 2 ^ 8 =
      λ e u. copied e u in
    ground (arith, at 0 (omega arith), at 1 (omega arith), at 2 (omega arith), at 3 (omega arith))
  where
    copied : (e : ℕ) → e < 4 → memcpy m dest src len (dest + d + e) ≡ m (src + d + e) % 2 ^ 8
    copied e u =
        let place : dest + d + e - dest + src ≡ src + d + e = omega arith in
        ground (arith, memcpy_lem len m dest src (dest + d + e) apart, ap (load8 m) place)

-- The run of `move_stack`, by the runs of its loops.
move_stack-run :
    (kmalloc_ap : KmallocAp) (fuel start size bottom offset : ℕ) (regs : Registers) (k : Kernel)
    (m₁ m₂ : Memory)
    → sub32 start size ≡ bottom
    → stack_pages kmalloc_ap fuel bottom start k ≡ ok (tt, record k { memory = m₁ })
    → sub32 start k.initial_esp ≡ offset
    → add32 regs.esp offset ≡ regs.esp + offset
    → add32 regs.ebp offset ≡ regs.ebp + offset
    → sub32 k.initial_esp regs.esp ≡ k.initial_esp - regs.esp
    → remap regs.esp k.initial_esp offset fuel bottom start
        (memcpy m₁ (regs.esp + offset) regs.esp (k.initial_esp - regs.esp))
      ≡ ok m₂
    → move_stack kmalloc_ap fuel start size regs k
      ≡ ok (record { esp = regs.esp + offset; ebp = regs.ebp + offset }, record k { memory = m₂ })
unfolding move_stack
move_stack-run kmalloc_ap fuel start size bottom offset regs k m₁ m₂ low mapped off esp ebp len
      moved =
    simp (low, mapped, off, esp, ebp, len, moved)

pub move_stack_lem :
    (kmalloc_ap : KmallocAp) (fuel bottom n : ℕ) (regs : Registers) (k : Kernel)
    → 0x400 * n < fuel
    → 0x1000 ≤ bottom
    → bottom + 0x1000 * n < 2 ^ 32
    → regs.esp ≤ k.initial_esp
    → k.initial_esp ≤ bottom
    → k.initial_esp - regs.esp + 4 ≤ 0x1000 * n
    → (k.initial_esp - regs.esp) % 4 ≡ 0
    → regs.ebp + (bottom + 0x1000 * n - k.initial_esp) < 2 ^ 32
    → StackTables k.memory k.current_directory k.frames k.nframes regs.esp k.initial_esp bottom
        (bottom + 0x1000 * n)
    → (m' : Memory) × (move_stack kmalloc_ap fuel (bottom + 0x1000 * n) (0x1000 * n) regs k
        ≡ ok (
          record {
            esp = regs.esp + (bottom + 0x1000 * n - k.initial_esp);
            ebp = regs.ebp + (bottom + 0x1000 * n - k.initial_esp);
          },
          record k { memory = m' },
        ))
      × ((j : ℕ)
          → regs.esp + 4 * j + 4 ≤ k.initial_esp
          → load32 m' (regs.esp + (bottom + 0x1000 * n - k.initial_esp) + 4 * j)
            ≡ relocated regs.esp k.initial_esp
                (bottom + 0x1000 * n - k.initial_esp)
                (load32 k.memory (regs.esp + 4 * j)))
      × ((b : ℕ) → regs.esp ≤ b → b < k.initial_esp → m' b ≡ k.memory b)
      × ((b : ℕ)
          → Beside k.memory k.current_directory k.frames k.nframes bottom (bottom + 0x1000 * n) b
          → (b < bottom + 4) ⊎ (bottom + 0x1000 * n + 4 ≤ b)
          → m' b ≡ k.memory b)
move_stack_lem kmalloc_ap fuel bottom n regs k enough low word in_stack below room aligned base t =
    let start = bottom + 0x1000 * n in
    let top = k.initial_esp in
    let offset = start - top in
    let len = top - regs.esp in
    let (m₁, mapped, same, beside) =
      stack_pages_lem kmalloc_ap fuel n bottom regs.esp top k (omega arith) low word t in
    let m = memcpy m₁ (regs.esp + offset) regs.esp len in
    let words : bottom + 4 * (0x400 * n) ≡ start = omega arith in
    let (m₂, moved, each, outside) =
      remap_lem regs.esp top offset bottom fuel (0x400 * n) m enough (omega arith) in
    (
      m₂,
      move_stack-run kmalloc_ap fuel start (0x1000 * n) bottom offset regs k m₁ m₂ (omega arith)
          mapped (omega arith) (omega arith) (omega arith) (omega arith)
          (subst (λ x. remap regs.esp top offset fuel bottom x m ≡ ok m₂) words moved),
      (λ j inside.
          let i = 0x400 * n - len / 4 + j - 1 in
          let place : bottom + 4 * i + 4 ≡ regs.esp + offset + 4 * j = omega arith in
          subst (λ x. load32 m₂ x ≡ relocated regs.esp top offset (load32 m x)) place
            (each i (omega arith))
          ∙ ap (relocated regs.esp top offset) (
              load32-memcpy m₁ (regs.esp + offset) regs.esp len (4 * j) (omega arith) (omega arith)
              ∙ load32_agree m₁ k.memory (regs.esp + 4 * j)
                  (λ b l u. same.1 b (omega arith) (omega arith)))),
      (λ b l u. outside b (omega arith) ∙ untouched m₁ b l u ∙ same.1 b l u),
      (λ b o p. outside b (omega arith) ∙ not_copied m₁ b (omega arith) ∙ beside b o),
    )
  where
    untouched :
        (m₁ : Memory) (b : ℕ)
        → regs.esp ≤ b
        → b < k.initial_esp
        → memcpy m₁
            (regs.esp + (bottom + 0x1000 * n - k.initial_esp))
            regs.esp
            (k.initial_esp - regs.esp)
            b
          ≡ m₁ b
    untouched m₁ b l u = ground (
      arith,
      memcpy_lem (k.initial_esp - regs.esp) m₁ (regs.esp + (bottom + 0x1000 * n - k.initial_esp))
          regs.esp b (omega arith),
    )

    not_copied :
        (m₁ : Memory) (b : ℕ)
        → (b < regs.esp + (bottom + 0x1000 * n - k.initial_esp)) ⊎ (bottom + 0x1000 * n ≤ b)
        → memcpy m₁
            (regs.esp + (bottom + 0x1000 * n - k.initial_esp))
            regs.esp
            (k.initial_esp - regs.esp)
            b
          ≡ m₁ b
    not_copied m₁ b o = ground (
      arith,
      memcpy_lem (k.initial_esp - regs.esp) m₁ (regs.esp + (bottom + 0x1000 * n - k.initial_esp))
          regs.esp b (omega arith),
    )
