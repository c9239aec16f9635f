-- ===== src/Descriptors/Tests.antt =====
-- The theorems about descriptors at concrete values.
use cmsi.Base.{ℕ, ◌+◌, ◌*◌, ◌/◌, ◌%◌, ◌^◌, ◌≡◌, arith, some}
use cmsi.Descriptors.{gdt_set_gate, IdtEntry, idt_init}
use cmsi.Descriptors.Decode.{
  base_of, limit_of, flags_of, gdt_set_gate-decoded, entry_at, handler_of, idt_init-at,
}

gdt_set_gate-decoded_example :
    (base_of (gdt_set_gate 0x1234_5678 0xffff_ffff 0x9a 0xcf) ≡ 0x1234_5678)
    × (limit_of (gdt_set_gate 0x1234_5678 0xffff_ffff 0x9a 0xcf) ≡ 0xffff_ffff % 2 ^ 20)
    × (flags_of (gdt_set_gate 0x1234_5678 0xffff_ffff 0x9a 0xcf) ≡ 0xcf / 2 ^ 4)
gdt_set_gate-decoded_example =
    gdt_set_gate-decoded 0x1234_5678 0xffff_ffff 0x9a 0xcf (omega arith) (omega arith)

-- Stubs of 16 bytes from 0x100000 on.
abbrev stubs : ℕ → ℕ
stubs n = 0x10_0000 + 16 * n

idt_init-at_example :
    (e : IdtEntry) × (entry_at (idt_init stubs).0 33 ≡ some e)
    × (handler_of e ≡ stubs 33)
    × (e.flags ≡ 0x8e)
    × (e.segment_selector ≡ 8)
idt_init-at_example = idt_init-at stubs 33 (omega arith) (omega arith)
