-- ===== src/Descriptors/Decode.antt =====
-- What the processor reads from the descriptors.
use cmsi.Base.{ℕ, zero, suc, ◌+◌, ◌*◌, ◌/◌, ◌%◌, ◌^◌, ◌<◌, ◌≡◌, refl, arith, List, [], ◌∷◌, ap, ◌∙◌}
use cmsi.Base.{Option, some, none}
use cmsi.Descriptors.{GdtEntry, gdt_set_gate, IdtEntry, fill_idt, fill_idt_from, idt_init}

-- The base and the limit of a segment, its pieces put together.
abbrev pub base_of : GdtEntry → ℕ
base_of e = e.base_low + e.base_middle * 2 ^ 16 + e.base_high * 2 ^ 24

abbrev pub limit_of : GdtEntry → ℕ
limit_of e = e.limit_low + e.granularity % 2 ^ 4 * 2 ^ 16

-- The granularity and size flags.
abbrev pub flags_of : GdtEntry → ℕ
flags_of e = e.granularity / 2 ^ 4

-- From an entry that `gdt_set_gate` fills the processor reads back the base, the upper four flags,
-- and the low 20 bits of the limit.
pub gdt_set_gate-decoded :
    (base limit access gran : ℕ)
    → base < 2 ^ 32
    → gran < 2 ^ 8
    → (base_of (gdt_set_gate base limit access gran) ≡ base)
      × (limit_of (gdt_set_gate base limit access gran) ≡ limit % 2 ^ 20)
      × (flags_of (gdt_set_gate base limit access gran) ≡ gran / 2 ^ 4)
unfolding gdt_set_gate
gdt_set_gate-decoded base limit access gran b g = (omega arith, omega arith, omega arith)

-- Where an interrupt's stub starts.
abbrev pub handler_of : IdtEntry → ℕ
handler_of e = e.low + e.high * 2 ^ 16

abbrev pub entry_at : List IdtEntry → ℕ → Option IdtEntry
entry_at [] n = none
entry_at (e ∷ es) zero = some e
entry_at (e ∷ es) (suc n) = entry_at es n

fill_idt_from-at :
    (handler : ℕ → ℕ) (rounds first n : ℕ)
    → n < rounds
    → entry_at (fill_idt_from handler rounds first) n ≡ some (fill_idt (handler (first + n)))
unfolding fill_idt_from
fill_idt_from-at handler zero first n h = absurd (omega arith)
fill_idt_from-at handler (suc r) first zero h =
    ap (λ (j : ℕ). some (fill_idt (handler j))) (omega arith)
fill_idt_from-at handler (suc r) first (suc n) h =
    fill_idt_from-at handler r (first + 1) n (omega arith)
    ∙ ap (λ (j : ℕ). some (fill_idt (handler j))) (omega arith)

fill_idt-decoded : (a : ℕ) → a < 2 ^ 32 → handler_of (fill_idt a) ≡ a
unfolding fill_idt
fill_idt-decoded a w = omega arith

-- For each of the 48 interrupts the table that `idt_init` fills has an entry that leads to the
-- interrupt's stub, in the code segment and with the flags of a present 32-bit interrupt gate.
pub idt_init-at :
    (handler : ℕ → ℕ) (n : ℕ)
    → n < 48
    → handler n < 2 ^ 32
    → (e : IdtEntry) × (entry_at (idt_init handler).0 n ≡ some e)
      × (handler_of e ≡ handler n)
      × (e.flags ≡ 0x8e)
      × (e.segment_selector ≡ 8)
unfolding idt_init fill_idt
idt_init-at handler n h word = (
  fill_idt (handler n),
  fill_idt_from-at handler 48 0 n h ∙ ap (λ (j : ℕ). some (fill_idt (handler j))) (omega arith),
  fill_idt-decoded (handler n) word,
  refl,
  refl,
)
