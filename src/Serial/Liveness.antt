-- ===== src/Serial/Liveness.antt =====
-- About the waits of `serial_write` of IcarusOS/serial.c.
use cmsi.Base.{ℕ, zero, suc, ◌+◌, ◌≤◌, ◌<◌, ◌≡◌, ◌≢◌, refl, arith, ◌∙◌, false}
use cmsi.Base.{List, [], ◌∷◌, ◌==◌, Bool-cases, inl, inr}
use cmsi.Base.Outcome.{ok}
use cmsi.Screen.{Out}
use cmsi.Serial.{wait_empty, write_bytes, serial_write, serial_is_transmit_fifo_empty}
use cmsi.Serial.{serial_configure_baud_rate}
use cmsi.Base.{length}
use cmsi.Base.{ap}
use cmsi.Serial.{serial_configure_line}
use cmsi.Base.{◌*◌}
use cmsi.Base.{sym}

-- From each read on, one of the next `d` reads gives a status other than 0.
abbrev pub KeepsReady : (status : ℕ → ℕ) → (d : ℕ) → Type 0
KeepsReady status d = (i : ℕ) → (j : ℕ) × (j < d) × (status (i + j) ≢ 0)

-- The first read from `reads` on that is not 0 ends the wait.
wait_empty_lem :
    (status : ℕ → ℕ) (fuel reads j : ℕ)
    → j < fuel
    → status (reads + j) ≢ 0
    → (r : ℕ) × (wait_empty status fuel reads ≡ ok r) × (reads < r) × (r ≤ reads + j + 1)
unfolding wait_empty serial_is_transmit_fifo_empty
wait_empty_lem status zero reads j h ready = absurd (omega arith)
wait_empty_lem status (suc f) reads zero h ready =
    let here : status (reads + 0) ≡ status reads = ap status (omega arith) in
    let now : (status reads == 0) ≡ false = ground (arith, ready, here) in
    (reads + 1, rw now refl, omega arith, omega arith)
wait_empty_lem status (suc f) reads (suc j) h ready = elim (Bool-cases (status reads == 0)) [
  | inl busy ↦
      let next : status (reads + 1 + j) ≡ status (reads + suc j) = ap status (omega arith) in
      let (r, ran, above, below) =
        wait_empty_lem status f (reads + 1) j (omega arith) (λ z. ready (sym next ∙ z)) in
      (r, rw busy ran, omega arith, omega arith)
  | inr now ↦ (reads + 1, rw now refl, omega arith, omega arith)
]

-- The bytes of a text, each to the data port.
abbrev pub sent : List ℕ → List Out
sent [] = []
sent (c ∷ cs) = (0x3f8, c) ∷ sent cs

write_bytes_lem :
    (status : ℕ → ℕ) (d fuel : ℕ) (buf : List ℕ) (reads : ℕ)
    → KeepsReady status d
    → d ≤ fuel
    → (r : ℕ) × (write_bytes status fuel reads buf ≡ ok (sent buf, r))
      × (reads + length buf ≤ r)
      × (r ≤ reads + length buf * d)
unfolding write_bytes
write_bytes_lem status d fuel [] reads ready h = (reads, refl, omega arith, omega arith)
write_bytes_lem status d fuel (c ∷ cs) reads ready h =
    let (j, below, now) = ready reads in
    let (r, waited, above, most) = wait_empty_lem status fuel reads j (omega arith) now in
    let (r', ran, above', most') = write_bytes_lem status d fuel cs r ready h in
    (r', simp (waited, ran), omega arith, grind arith)

-- If of every `d` reads of the line status one gives a value other than 0, `serial_write` returns
-- with `d` rounds of fuel for each wait: it sends the configuration and each byte of the text in
-- order, and reads the status at least once and at most `d` times for each byte.
pub serial_write_lem :
    (status : ℕ → ℕ) (d fuel reads : ℕ) (buf : List ℕ)
    → KeepsReady status d
    → d ≤ fuel
    → (r : ℕ) × (serial_write status fuel reads buf
        ≡ ok ((0x3fb, 0x80) ∷ (0x3f8, 0) ∷ (0x3f8, 1) ∷ (0x3fb, 3) ∷ sent buf, r))
      × (reads + length buf ≤ r)
      × (r ≤ reads + length buf * d)
unfolding serial_write serial_configure_baud_rate serial_configure_line
serial_write_lem status d fuel reads buf ready h =
    let (r, ran, above, most) = write_bytes_lem status d fuel buf reads ready h in
    (r, simp ran, above, most)
