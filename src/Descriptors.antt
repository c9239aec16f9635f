-- ===== src/Descriptors.antt =====
-- IcarusOS/gdt_idt.c with gdt.h and idt.h, and IcarusOS/pic.c: the descriptor tables as
-- the lists of their entries, and what a handled interrupt tells the controllers. The
-- addresses of the assembly stubs are a parameter.
pub mod Decode
mod Tests
use cmsi.Base.{ℕ, zero, suc, ◌+◌, ◌-◌, ◌*◌, ◌/◌, ◌%◌, ◌^◌, List, [], ◌∷◌, ◌||◌}
use cmsi.Base.{ltb, if◌then◌else◌}

-- gdt_entry
pub record GdtEntry : Type 0 where
  pub limit_low : ℕ
  pub base_low : ℕ
  pub base_middle : ℕ
  pub access : ℕ
  pub granularity : ℕ
  pub base_high : ℕ

-- The value that `gdt_set_gate` gives an entry.
unfoldable pub gdt_set_gate : (base limit access gran : ℕ) → GdtEntry
gdt_set_gate base limit access gran = record {
  base_low = base % 2 ^ 16;
  base_middle = base / 2 ^ 16 % 2 ^ 8;
  base_high = base / 2 ^ 24 % 2 ^ 8;
  limit_low = limit % 2 ^ 16;
  granularity = limit / 2 ^ 16 % 2 ^ 4 + gran / 2 ^ 4 % 2 ^ 4 * 2 ^ 4;
  access = access;
}

-- The table and the limit that `gdt_init` loads.
unfoldable pub gdt_init : List GdtEntry × ℕ
gdt_init = (
  gdt_set_gate 0 0 0 0
      ∷ gdt_set_gate 0 0xffff_ffff 0x9a 0xcf
      ∷ gdt_set_gate 0 0xffff_ffff 0x92 0xcf
      ∷ gdt_set_gate 0 0xffff_ffff 0xfa 0xcf
      ∷ gdt_set_gate 0 0xffff_ffff 0xf2 0xcf
      ∷ [],
  5 * 8 - 1,
)

-- idt_entry
pub record IdtEntry : Type 0 where
  pub low : ℕ
  pub segment_selector : ℕ
  pub always0 : ℕ
  pub flags : ℕ
  pub high : ℕ

-- FILL_IDT
unfoldable pub fill_idt : (handler : ℕ) → IdtEntry
fill_idt handler = record {
  low = handler % 2 ^ 16;
  segment_selector = 0x08;
  always0 = 0;
  flags = 0x8e;
  high = handler / 2 ^ 16 % 2 ^ 16;
}

-- The entries of `fill_idt_table` from number `n` on.
unfoldable pub fill_idt_from : (interrupt_handler : ℕ → ℕ) → (rounds n : ℕ) → List IdtEntry
fill_idt_from interrupt_handler zero n = []
fill_idt_from interrupt_handler (suc r) n =
    fill_idt (interrupt_handler n) ∷ fill_idt_from interrupt_handler r (n + 1)

-- The table and the limit that `idt_init` loads: the limit is the whole size of the table.
unfoldable pub idt_init : (interrupt_handler : ℕ → ℕ) → List IdtEntry × ℕ
idt_init interrupt_handler = (fill_idt_from interrupt_handler 48 0, 48 * 8)

-- The port writes of `pic_init`, before it enables interrupts.
unfoldable pub pic_init : List (ℕ × ℕ)
pic_init =
    (0x20, 0x11)
    ∷ (0xa0, 0x11)
    ∷ (0x21, 0x20)
    ∷ (0xa1, 0x28)
    ∷ (0x21, 0x04)
    ∷ (0xa1, 0x02)
    ∷ (0x21, 0x05)
    ∷ (0xa1, 0x01)
    ∷ (0x21, 0xf8)
    ∷ (0xa1, 0xff)
    ∷ []

-- `pic_acknowledge`: the port and the value it writes, if any.
unfoldable pub pic_acknowledge : (interrupt : ℕ) → List (ℕ × ℕ)
pic_acknowledge interrupt =
    if ltb interrupt 0x20 || ltb (0x28 + 7) interrupt
    then []
    else if ltb interrupt 0x28
    then (0x20, 0x20) ∷ []
    else (0xa0, 0x20) ∷ []
