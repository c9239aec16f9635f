-- ===== src/Interrupts.antt =====
-- `interrupt_handler` of IcarusOS/gdt_idt.c, over the state of the drivers that it calls. All port
-- writes are in the screen's list.
pub mod Handled
pub mod Runs
mod Tests
use cmsi.Base.{ℕ, List, ◌++◌, ◌==◌, if◌then◌else◌}
use cmsi.Base.Outcome.{Outcome, ok, ◌>>=◌, ◌>>◌}
use cmsi.Screen.{Screen}
use cmsi.Keyboard.{Keyboard, echo_keyboard}
use cmsi.Timer.{timer_callback}
use cmsi.Descriptors.{pic_acknowledge}
use cmsi.Paging.Fault.{page_fault}

-- The drivers' globals.
pub record Machine : Type 0 where
  pub keyboard : Keyboard
  pub screen : Screen
  pub ticks : ℕ

unfoldable pub acknowledge : (interrupt : ℕ) → Machine → Machine
acknowledge interrupt m = record m {
  screen = record m.screen { ports = m.screen.ports ++ pic_acknowledge interrupt };
}

-- `sprintf` is that of the formatting library, and `scan_code` what the keyboard's port gives.
unfoldable pub interrupt_handler :
    (sprintf : ℕ → List ℕ) → (interrupt error_code scan_code : ℕ) → Machine → Outcome Machine
interrupt_handler sprintf interrupt error_code scan_code m =
    if interrupt == 32
    then (let (ticks, screen) = timer_callback sprintf (m.ticks, m.screen) in
        ok (acknowledge interrupt (record m { ticks = ticks; screen = screen })))
    else if interrupt == 14
    then (page_fault error_code).1 >> ok (acknowledge interrupt m)
    else if interrupt == 33
    then (let (keyboard, screen) = echo_keyboard scan_code (m.keyboard, m.screen) in
        ok (acknowledge interrupt (record m { keyboard = keyboard; screen = screen })))
    else ok (acknowledge interrupt m)
