-- ===== src/Serial.antt =====
-- IcarusOS/serial.c: output over a serial port. The port writes are a list, the latest last; `status` is
-- what the line status port gives at each of its reads, and the reads are counted.
pub mod Liveness
mod Tests
use cmsi.Base.{
  ℕ, zero, suc, ◌+◌, ◌/◌, ◌%◌, ◌^◌, Bool, not, List, [], ◌∷◌, ◌++◌, ◌==◌, if◌then◌else◌,
}
use cmsi.Base.Outcome.{Outcome, ok, stop, out_of_fuel, ◌>>=◌}
use cmsi.Screen.{Out}

abbrev pub serial_com1_base : ℕ
serial_com1_base = 0x3f8

abbrev pub serial_data_port : ℕ → ℕ
serial_data_port base = base

abbrev pub serial_line_command_port : ℕ → ℕ
serial_line_command_port base = base + 3

abbrev pub serial_line_enable_dlab : ℕ
serial_line_enable_dlab = 0x80

unfoldable pub serial_configure_baud_rate : (com_port divisor : ℕ) → List Out
serial_configure_baud_rate com_port divisor =
    (serial_line_command_port com_port, serial_line_enable_dlab)
    ∷ (serial_data_port com_port, divisor / 2 ^ 8 % 2 ^ 8)
    ∷ (serial_data_port com_port, divisor % 2 ^ 8)
    ∷ []

-- `&&` is the logical and: any status but 0 will do.
unfoldable pub serial_is_transmit_fifo_empty : (status : ℕ) → Bool
serial_is_transmit_fifo_empty status = not (status == 0)

unfoldable pub serial_configure_line : (com_port : ℕ) → List Out
serial_configure_line com_port = (serial_line_command_port com_port, 0x03) ∷ []

-- `while(!serial_is_transmit_fifo_empty(...));` from read number `reads` on: the number behind it.
unfoldable pub wait_empty : (status : ℕ → ℕ) → (fuel reads : ℕ) → Outcome ℕ
wait_empty status zero reads = stop out_of_fuel
wait_empty status (suc n) reads =
    let rest = wait_empty status n (reads + 1) in
    if serial_is_transmit_fifo_empty (status reads) then ok (reads + 1) else rest

-- The loop of `serial_write`: what it writes, with fuel for each wait.
unfoldable pub write_bytes :
    (status : ℕ → ℕ) → (fuel reads : ℕ) → (buf : List ℕ) → Outcome (List Out × ℕ)
write_bytes status fuel reads [] = ok ([], reads)
write_bytes status fuel reads (c ∷ cs) = do
  reads ← wait_empty status fuel reads
  (outs, reads) ← write_bytes status fuel reads cs
  ok ((serial_com1_base, c) ∷ outs, reads)

unfoldable pub serial_write :
    (status : ℕ → ℕ) → (fuel reads : ℕ) → (buf : List ℕ) → Outcome (List Out × ℕ)
serial_write status fuel reads buf = do
  (outs, reads) ← write_bytes status fuel reads buf
  ok (
    serial_configure_baud_rate serial_com1_base 1
        ++ (serial_configure_line serial_com1_base ++ outs),
    reads,
  )
