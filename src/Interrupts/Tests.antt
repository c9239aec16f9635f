-- ===== src/Interrupts/Tests.antt =====
-- The theorem about runs of interrupts at a concrete machine.
use cmsi.Base.{ℕ, ◌≡◌, arith, false, List, [], ◌∷◌}
use cmsi.Base.Outcome.{ok}
use cmsi.Keyboard.Keys.{after_codes}
use cmsi.Interrupts.{Machine}
use cmsi.Interrupts.Handled.{writes_to}
use cmsi.Interrupts.Runs.{Interrupt, handle_all, handle_all_lem}

abbrev some_machine : Machine
some_machine = record {
  keyboard = record { cap_locks = false; shift_l = false; shift_r = false };
  screen = record { memory = λ a. 0; cursor_position = 3; ports = [] };
  ticks = 7;
}

abbrev dots : ℕ → List ℕ
dots n = 0x2e ∷ []

-- The timer, a key, the second controller, and the timer again.
abbrev some_interrupts : List Interrupt
some_interrupts =
    record { number = 32; error_code = 0; scan_code = 0 }
    ∷ record { number = 33; error_code = 0; scan_code = 0x10 }
    ∷ record { number = 44; error_code = 0; scan_code = 0 }
    ∷ record { number = 32; error_code = 0; scan_code = 0 }
    ∷ []

handle_all_example :
    (m' : Machine) × (handle_all dots some_interrupts some_machine ≡ ok m')
    × (m'.ticks ≡ 9)
    × (m'.keyboard ≡ after_codes (0x10 ∷ []) some_machine.keyboard)
    × (writes_to 0x20 m'.screen.ports ≡ 0x20 ∷ 0x20 ∷ 0x20 ∷ [])
    × (writes_to 0xa0 m'.screen.ports ≡ 0x20 ∷ [])
handle_all_example =
    handle_all_lem dots some_interrupts some_machine
      (λ e. omega arith, (λ e. omega arith, (λ e. omega arith, (λ e. omega arith, tt))))
      (omega arith)
