-- ===== src/Timer/Divisor.antt =====
-- The rate that the timer is given: what the port writes of timer.c come to in the interval timer.
use cmsi.Base.{ℕ, ◌+◌, ◌*◌, ◌/◌, ◌%◌, ◌^◌, ◌≤◌, ◌<◌, ◌≡◌, ◌≢◌, refl, arith}
use cmsi.Base.{Bool, true, false, List, [], ◌∷◌, ◌==◌, ◌&&◌, if◌then◌else◌}
use mathlib.Core.Path.{subst}
use native.Mathlib.Nat.{div-lt_iff_lt-mul, div-mul-le_self, lt-div-mul-add}
use cmsi.Base.Outcome.{ok}
use cmsi.Screen.{Out}
use cmsi.Timer.{timer_init}

-- Channel 0 of the interval timer: the access mode that the command port has last set for it (3 is the
-- low byte and then the high one), its operating mode (3 is the square wave), the low byte that waits
-- for its high one, whether it does, and the value that the counter starts from again and again, where
-- 0 stands for 2 ^ 16.
pub record IntervalTimer : Type 0 where
  pub access : ℕ
  pub mode : ℕ
  pub low : ℕ
  pub waits : Bool
  pub latch : ℕ

-- A command names its channel in bits 6 and 7, the access in bits 4 and 5 and the mode in bits 1 to 3.
-- Of the data, those for channel 0 count, in the access of both bytes.
abbrev pub tick_out : IntervalTimer → Out → IntervalTimer
tick_out t (port, value) =
    if port == 0x43
    then (if value / 2 ^ 6 == 0
        then record t { access = value / 2 ^ 4 % 2 ^ 2; mode = value / 2 % 2 ^ 3; waits = false }
        else t)
    else if (port == 0x40) && (t.access == 3)
    then (if t.waits
        then record t { waits = false; latch = t.low + 2 ^ 8 * value }
        else record t { waits = true; low = value })
    else t

abbrev pub tick_outs : IntervalTimer → List Out → IntervalTimer
tick_outs t [] = t
tick_outs t (o ∷ os) = tick_outs (tick_out t o) os

-- For every frequency but 0, and from any state of the interval timer, the port writes of
-- `timer_init` put its channel 0 into the square wave mode, with both bytes of its latch written:
-- that is the low 16 bits of the divisor, and from 19 on the whole divisor, the largest number whose
-- product with the frequency is at most 1193180.
pub timer_init_lem :
    (frequency : ℕ) (t : IntervalTimer)
    → frequency ≢ 0
    → (outs : List Out) × (timer_init frequency ≡ ok outs)
      × ((tick_outs t outs).mode ≡ 3)
      × ((tick_outs t outs).waits ≡ false)
      × ((tick_outs t outs).latch ≡ 1193180 / frequency % 2 ^ 16)
      × ((19 ≤ frequency)
          → ((tick_outs t outs).latch * frequency ≤ 1193180)
            × (1193180 < ((tick_outs t outs).latch + 1) * frequency))
unfolding timer_init
timer_init_lem frequency t h =
    let d = 1193180 / frequency in
    let some_rate : (frequency == 0) ≡ false = ground arith in
    let low : d % 2 ^ 8 + 2 ^ 8 * (d / 2 ^ 8 % 2 ^ 8) ≡ d % 2 ^ 16 = omega arith in
    (
      (0x43, 0x36) ∷ (0x40, d % 2 ^ 8) ∷ (0x40, d / 2 ^ 8 % 2 ^ 8) ∷ [],
      rw some_rate refl,
      refl,
      refl,
      low,
      λ l.
          let small : d < 2 ^ 16 = (div-lt_iff_lt-mul (omega arith)).1 (omega arith) in
          let whole : d ≡ d % 2 ^ 8 + 2 ^ 8 * (d / 2 ^ 8 % 2 ^ 8) = omega arith in
          subst (λ x. (x * frequency ≤ 1193180) × (1193180 < (x + 1) * frequency)) whole
            (
              div-mul-le_self 1193180 frequency,
              grind (arith, lt-div-mul-add {a = 1193180} {b = frequency}),
            ),
    )
