-- ===== src/Serial/Tests.antt =====
-- The theorems about the serial port at a concrete port.
use cmsi.Base.{ℕ, ◌≤◌, ◌%◌, ◌≡◌, arith, ◌==◌, if◌then◌else◌, [], ◌∷◌}
use cmsi.Base.Outcome.{ok}
use cmsi.Serial.{serial_write}
use cmsi.Serial.Liveness.{KeepsReady, sent, serial_write_lem}
use cmsi.Base.{◌-◌}

-- The port is ready at every third read.
abbrev slow : ℕ → ℕ
slow i = if i % 3 == 2 then 0x60 else 0

slow-KeepsReady : KeepsReady slow 3
slow-KeepsReady i = (2 - i % 3, omega arith, ground arith)

serial_write_example :
    (r : ℕ) × (serial_write slow 3 0 (0x68 ∷ 0x69 ∷ [])
      ≡ ok ((0x3fb, 0x80) ∷ (0x3f8, 0) ∷ (0x3f8, 1) ∷ (0x3fb, 3) ∷ sent (0x68 ∷ 0x69 ∷ []), r))
    × (2 ≤ r)
    × (r ≤ 6)
serial_write_example = serial_write_lem slow 3 3 0 (0x68 ∷ 0x69 ∷ []) slow-KeepsReady (omega arith)
