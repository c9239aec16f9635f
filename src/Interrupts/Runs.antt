-- ===== src/Interrupts/Runs.antt =====
-- Whole runs of interrupts of IcarusOS/gdt_idt.c, one handler after another.
use cmsi.Base.{ℕ, ◌+◌, ◌%◌, ◌^◌, ◌<◌, ◌≡◌, ◌≢◌, refl, sym, ap, ◌∙◌, arith}
use cmsi.Base.{Bool, true, false, List, [], ◌∷◌, ◌++◌, ◌==◌, ◌&&◌, ltb, leb, if◌then◌else◌}
use mathlib.Core.List.{append_assoc, append-nil}
use cmsi.Base.Outcome.{Outcome, ok, ◌>>=◌}
use cmsi.Screen.{Out}
use cmsi.Keyboard.{convert_to_ascii}
use cmsi.Keyboard.Keys.{after_codes}
use cmsi.Descriptors.{pic_acknowledge}
use cmsi.Interrupts.{Machine, interrupt_handler}
use cmsi.Interrupts.Handled.{writes_to, writes_to-append, interrupt_handler_lem}
use cmsi.Interrupts.{Keyboard}

-- An interrupt, the error code that the processor pushes, and what the keyboard's port gives then.
pub record Interrupt : Type 0 where
  pub number : ℕ
  pub error_code : ℕ
  pub scan_code : ℕ

abbrev pub handle_all : (sprintf : ℕ → List ℕ) → List Interrupt → Machine → Outcome Machine
handle_all sprintf [] m = ok m
handle_all sprintf (i ∷ is) m =
    interrupt_handler sprintf i.number i.error_code i.scan_code m >>= handle_all sprintf is

abbrev pub NoFaults : List Interrupt → Type 0
NoFaults [] = Unit
NoFaults (i ∷ is) = (i.number ≢ 14) × NoFaults is

-- How many interrupts are the timer's.
abbrev pub timer_count : List Interrupt → ℕ
timer_count [] = 0
timer_count (i ∷ is) = (if i.number == 32 then 1 else 0) + timer_count is

-- The scan codes of the keyboard's interrupts.
abbrev pub scan_codes : List Interrupt → List ℕ
scan_codes [] = []
scan_codes (i ∷ is) = if i.number == 33 then i.scan_code ∷ scan_codes is else scan_codes is

-- The acknowledgements of the interrupts from `low` on, eight in number, that one controller sends.
abbrev pub acknowledgements : (low : ℕ) → List Interrupt → List ℕ
acknowledgements low [] = []
acknowledgements low (i ∷ is) =
    if leb low i.number && ltb i.number (low + 8)
    then 0x20 ∷ acknowledgements low is
    else acknowledgements low is

after_codes-if :
    (b : Bool) (c : ℕ) (cs : List ℕ) (kb : Keyboard)
    → after_codes cs (if b then (convert_to_ascii c kb).1 else kb)
      ≡ after_codes (if b then c ∷ cs else cs) kb
unfolding after_codes
after_codes-if true c cs kb = refl
after_codes-if false c cs kb = refl

-- To which controller an acknowledgement goes.
pic_acknowledge-writes :
    (i : Interrupt) (is : List Interrupt)
    → (writes_to 0x20 (pic_acknowledge i.number) ++ acknowledgements 32 is
        ≡ acknowledgements 32 (i ∷ is))
      × (writes_to 0xa0 (pic_acknowledge i.number) ++ acknowledgements 40 is
          ≡ acknowledgements 40 (i ∷ is))
unfolding pic_acknowledge
pic_acknowledge-writes i is = (ground arith, ground arith)

-- The writes of a handled interrupt to a port that the drivers leave alone.
one-writes :
    (port : ℕ) (before outs acks after : List Out)
    → after ≡ (before ++ outs) ++ acks
    → writes_to port outs ≡ []
    → writes_to port after ≡ writes_to port before ++ writes_to port acks
one-writes port before outs acks after e quiet =
    ap (writes_to port) e
    ∙ writes_to-append port (before ++ outs) acks
    ∙ ap (λ l. l ++ writes_to port acks)
        (writes_to-append port before outs
          ∙ ap (λ l. writes_to port before ++ l) quiet
          ∙ append-nil (writes_to port before))

-- From a number of ticks below 2^32 a run of any interrupts but page faults returns: the ticks have
-- grown by the number of timer interrupts, modulo 2^32; the keys are as the scan codes of the
-- keyboard interrupts have changed them, in order; the first controller's command port has been sent
-- one acknowledgement for each interrupt from 32 to 39, and the second's one for each from 40 to 47,
-- and nothing else by the drivers.
pub handle_all_lem :
    (sprintf : ℕ → List ℕ) (is : List Interrupt) (m : Machine)
    → NoFaults is
    → m.ticks < 2 ^ 32
    → (m' : Machine) × (handle_all sprintf is m ≡ ok m')
      × (m'.ticks ≡ (m.ticks + timer_count is) % 2 ^ 32)
      × (m'.keyboard ≡ after_codes (scan_codes is) m.keyboard)
      × (writes_to 0x20 m'.screen.ports ≡ writes_to 0x20 m.screen.ports ++ acknowledgements 32 is)
      × (writes_to 0xa0 m'.screen.ports ≡ writes_to 0xa0 m.screen.ports ++ acknowledgements 40 is)
unfolding after_codes
handle_all_lem sprintf [] m none_there word =
    (m, refl, omega arith, refl, sym (append-nil _), sym (append-nil _))
handle_all_lem sprintf (i ∷ is) m (no_fault, rest) word =
    let (m₁, ran, ticks, keyboard, (outs, ports, (quiet, quiet'))) =
      (interrupt_handler_lem sprintf i.number i.error_code i.scan_code m).1 no_fault in
    let low : m₁.ticks < 2 ^ 32 = ground (arith, ticks) in
    let (m', ran', ticks', keyboard', first, second) = handle_all_lem sprintf is m₁ rest low in
    let (ack, ack') = pic_acknowledge-writes i is in
    (
      m',
      ap (λ o. o >>= handle_all sprintf is) ran ∙ ran',
      ground (arith, ticks, ticks'),
      keyboard'
          ∙ ap (after_codes (scan_codes is)) keyboard
          ∙ after_codes-if (i.number == 33) i.scan_code (scan_codes is) m.keyboard,
      first
          ∙ ap (λ l. l ++ acknowledgements 32 is)
              (one-writes 0x20 m.screen.ports outs (pic_acknowledge i.number) m₁.screen.ports ports
                quiet)
          ∙ append_assoc (writes_to 0x20 m.screen.ports) _ _
          ∙ ap (λ l. writes_to 0x20 m.screen.ports ++ l) ack,
      second
          ∙ ap (λ l. l ++ acknowledgements 40 is)
              (one-writes 0xa0 m.screen.ports outs (pic_acknowledge i.number) m₁.screen.ports ports
                quiet')
          ∙ append_assoc (writes_to 0xa0 m.screen.ports) _ _
          ∙ ap (λ l. writes_to 0xa0 m.screen.ports ++ l) ack',
    )
