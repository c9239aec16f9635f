-- ===== src/Timer/Tests.antt =====
-- The theorem about the timer at a frequency.
use cmsi.Base.{◌+◌, ◌*◌, ◌<◌, ◌≤◌, ◌≡◌, List, arith, true, false}
use cmsi.Base.Outcome.{ok}
use cmsi.Screen.{Out}
use cmsi.Timer.{timer_init}
use cmsi.Timer.Divisor.{IntervalTimer, tick_outs, timer_init_lem}

-- In another mode, with half of a latch.
abbrev some_timer : IntervalTimer
some_timer = record { access = 1; mode = 2; low = 7; waits = true; latch = 100 }

timer_init_example :
    (outs : List Out) × (timer_init 50 ≡ ok outs)
    × ((tick_outs some_timer outs).mode ≡ 3)
    × ((tick_outs some_timer outs).waits ≡ false)
    × ((tick_outs some_timer outs).latch ≡ 23863)
    × ((19 ≤ 50)
        → ((tick_outs some_timer outs).latch * 50 ≤ 1193180)
          × (1193180 < ((tick_outs some_timer outs).latch + 1) * 50))
timer_init_example = timer_init_lem 50 some_timer (omega arith)
