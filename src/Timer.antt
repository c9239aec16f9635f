-- ===== src/Timer.antt =====
-- IcarusOS/timer.c: the programmable interval timer, and the clock in the corner of the screen. The
-- text that `sprintf` makes of the number of ticks is that of the formatting library.
pub mod Divisor
mod Tests
use cmsi.Base.{ℕ, ◌/◌, ◌%◌, ◌^◌, List, [], ◌∷◌, ◌==◌, if◌then◌else◌}
use cmsi.Base.Words.{add32}
use cmsi.Base.Outcome.{Outcome, ok, stop, divide_error}
use cmsi.Screen.{Screen, Out, fb_clock_write}

-- The ticks and the screen.
unfoldable pub timer_callback : (sprintf : ℕ → List ℕ) → ℕ × Screen → ℕ × Screen
timer_callback sprintf (ticks, s) = (add32 ticks 1, fb_clock_write (sprintf ticks) s)

-- What `timer_init` writes to the ports.
unfoldable pub timer_init : (frequency : ℕ) → Outcome (List Out)
timer_init frequency =
    if frequency == 0
    then stop divide_error
    else (let divisor = 1193180 / frequency in
        ok ((0x43, 0x36) ∷ (0x40, divisor % 2 ^ 8) ∷ (0x40, divisor / 2 ^ 8 % 2 ^ 8) ∷ []))
